-- ===== src/Roles/Closes.antt =====
-- What stands between `switch_to_superuser` and the end of a case: rules by which the role is as
-- before when the case is left.
use supautils.Prelude.{◌≡◌, refl, ◌∙◌, Bool, true, false, Option, Bool-cases, inl, inr, CString}
use supautils.Statements.{Stmt}
use supautils.Session.{Session, Outcome, Action, continue, return_from_hook, ◌>>=◌, ◌>>◌}
use supautils.Session.Keeps.{
  SameRole, SameRole-refl, SameRole-trans, is_normal, Keeps, KeepsSwitched, IsRestricted,
  IsRestricted-same, IsStraight, is_exit,
}
use supautils.Server.{Server}
use supautils.Roles.Switch.{
  SwitchedFrom, SwitchedFrom-trans, switch_back-SameRole, switch-already, switch-SwitchedFrom,
  RestrictedStays, with_cleanup-KeepsSwitched, switch-IsRestricted, with_cleanup-IsStraight,
}
use supautils.Roles.{switch_to_superuser, switch_back_unless, run_as_superuser}

-- After `switch_to_superuser`: nothing has changed where the role had been switched before, and it
-- is switched now where it had not.
abbrev pub Ready : {Db : Type 0} → Bool → Session Db → Session Db → Type 0
Ready true s t = SameRole s t × (s.is_switched_to_superuser ≡ true) × IsRestricted t.sec_context
Ready false s t =
    SwitchedFrom s t × (s.is_switched_to_superuser ≡ false) × IsRestricted t.sec_context

pub Ready-trans :
    {Db : Type 0} (already : Bool) (s t u : Session Db)
    → Ready already s t
    → SameRole t u
    → Ready already s u
Ready-trans true s t u r k = (SameRole-trans r.0 k, r.1, IsRestricted-same r.2 k.context)
Ready-trans false s t u r k = (SwitchedFrom-trans r.0 k, r.1, IsRestricted-same r.2 k.context)

-- The role is switched then.
pub Ready-switched :
    {Db : Type 0} (already : Bool) (s t : Session Db)
    → Ready already s t
    → (t.is_switched_to_superuser ≡ true) × IsRestricted t.sec_context
Ready-switched true s t r = (r.0.switched ∙ r.1, r.2)
Ready-switched false s t r = (r.0.is_switched, r.2)

-- What stands between the switch and the end of the case: the role ends as it was in `s`.
pub record Closes {Db A : Type 0} (already : Bool) (s : Session Db) (m : Action Db A) : Type 0 where
  pub at : (t : Session Db) → Ready already s t → is_normal (m t).0 ≡ true → SameRole s (m t).1

module _ {Db A B : Type 0} where
  Closes-next :
      {already : Bool} {s : Session Db}
      → (f : A → Action Db B) → ((a : A) → Closes already s (f a))
      → (r : Outcome A) (u : Session Db) → (is_normal r ≡ true → Ready already s u)
      → is_exit r ≡ false
      → is_normal (continue r f u).0 ≡ true
      → SameRole s (continue r f u).1
  Closes-next f c (Outcome.ok a) u k e n = (c a).at u (k refl) n
  Closes-next f c (Outcome.broke stmt) u k e n = cc
  Closes-next f c Outcome.returned u k e n = cc
  Closes-next f c (Outcome.raised x) u k e n = cc

  -- A step that keeps the role and goes on.
  pub Closes-bind :
      {already : Bool} {s : Session Db} (m : Action Db A) (f : A → Action Db B)
      → KeepsSwitched m
      → IsStraight m
      → ((a : A) → Closes already s (f a))
      → Closes already s (m >>= f)
  unfolding ◌>>=◌
  Closes-bind {already} {s} m f k l c = record {
    at = λ t r n.
        let (w, x) = Ready-switched already s t r in
        Closes-next f c (m t).0 (m t).1 (λ h. Ready-trans already s t (m t).1 r (k.at t w x h))
          (l.at t) n;
  }

module _ {Db : Type 0} where
  -- `if (!already_switched) switch_to_original_role();`
  pub Closes-last :
      (already : Bool) (s : Session Db) → Closes already s (switch_back_unless already)
  Closes-last true s = record { at = λ t r n. unfold switch_back_unless ◌>>=◌ in r.0 }
  Closes-last false s = record { at = λ t r n. switch_back-SameRole r.1 r.0 }

  -- The same, with the `return` behind it.
  pub Closes-return :
      (already : Bool) (s : Session Db)
      → Closes already s (switch_back_unless already >> return_from_hook)
  Closes-return true s = record { at = λ t r n. unfold switch_back_unless ◌>>=◌ in r.0 }
  Closes-return false s = record {
    at = λ t r n. unfold switch_back_unless ◌>>=◌ in switch_back-SameRole r.1 r.0;
  }

module _ {Db A : Type 0} {s : Session Db} where
  -- A step that hands on the flag, and ends ready.
  flag_next :
      (already : Bool) (f : Bool → Action Db A)
      → Closes already s (f already)
      → (r : Outcome Bool) (u : Session Db)
      → (is_normal r ≡ true → (r ≡ Outcome.ok already) × Ready already s u)
      → is_normal (continue r f u).0 ≡ true
      → SameRole s (continue r f u).1
  flag_next true f c (Outcome.ok true) u h n = c.at u (h refl).1 n
  flag_next false f c (Outcome.ok false) u h n = c.at u (h refl).1 n
  flag_next true f c (Outcome.ok false) u h n = cc (h refl).0
  flag_next false f c (Outcome.ok true) u h n = cc (h refl).0
  flag_next already f c (Outcome.broke stmt) u h n = cc (h refl).0
  flag_next already f c Outcome.returned u h n = cc (h refl).0
  flag_next already f c (Outcome.raised e) u h n = cc

module _ {Db A : Type 0} where
  pub Closes-flag :
      (already : Bool) (s : Session Db) (m : Action Db Bool) (f : Bool → Action Db A)
      → ((t : Session Db)
          → Ready already s t
          → is_normal (m t).0 ≡ true
          → ((m t).0 ≡ Outcome.ok already) × Ready already s (m t).1)
      → Closes already s (f already)
      → Closes already s (m >>= f)
  unfolding ◌>>=◌
  Closes-flag already s m f k c = record {
    at = λ t r n. flag_next already f c (m t).0 (m t).1 (k t r) n;
  }

-- The switch, before what closes it.
module _ (pg : Server) (supauser : Option CString) {A : Type 0} (f : Bool → Action pg.Db A) where
  pub Keeps-switch :
      ((already : Bool) (s : Session pg.Db) → Closes already s (f already))
      → Keeps (switch_to_superuser pg supauser >>= f)
  unfolding ◌>>=◌
  Keeps-switch c = record {
    at = λ s w n. elim (Bool-cases s.is_switched_to_superuser) [
      | inl t ↦
          let e = switch-already pg supauser s t in
          rw e ((c true s).at s (SameRole-refl s, t, w.restricted t) (rw e at n))
      | inr b ↦
          flag_next false f (c false s) (switch_to_superuser pg supauser s).0
            (switch_to_superuser pg supauser s).1
            (λ h. (
              (switch-SwitchedFrom pg supauser s b h).0,
              ((switch-SwitchedFrom pg supauser s b h).1, b, switch-IsRestricted pg supauser s b h),
            ))
            n
    ];
  }

module _ (pg : Server) (stays : RestrictedStays pg) (stmt : Stmt) where
  pub run_as_superuser-Keeps :
      (supauser : Option CString) → Keeps (run_as_superuser pg supauser stmt)
  unfolding run_as_superuser
  run_as_superuser-Keeps supauser = Keeps-switch pg supauser _ λ already s.
      Closes-bind _ _ (with_cleanup-KeepsSwitched pg stays stmt already)
        (with_cleanup-IsStraight pg stmt already) λ _. Closes-last already s
