-- ===== src/Session/Keeps.antt =====
-- What must be as before when an action is over: the user, the security context and the static
-- variables. One rule for each way to build an action.
use Prim.Native.Nat.{bit_or}
use supautils.Prelude.{
  ◌≡◌, refl, sym, ◌∙◌, ℕ, Bool, true, false, Option, none, some, arith, if◌then◌else◌,
}
use supautils.Statements.{Stmt}
use supautils.Session.{
  Error, Session, Outcome, Action, pure, raise, gets, or_raise, break_if, raise_if, check, when,
  report_warning, Warning, return_from_hook, continue, ◌>>=◌,
}

-- The saved role counts only while the role is switched.
pub record SameRole {Db : Type 0} (s t : Session Db) : Type 0 where
  pub user : t.user_id ≡ s.user_id
  pub context : t.sec_context ≡ s.sec_context
  pub switched : t.is_switched_to_superuser ≡ s.is_switched_to_superuser
  pub running : t.running_custom_script ≡ s.running_custom_script
  pub saved_role : s.is_switched_to_superuser ≡ true → t.prev_role_oid ≡ s.prev_role_oid
  pub saved_context :
      s.is_switched_to_superuser ≡ true → t.prev_role_sec_context ≡ s.prev_role_sec_context

module _ {Db : Type 0} where
  pub SameRole-refl : (s : Session Db) → SameRole s s
  SameRole-refl s = ground arith

  pub SameRole-trans : {s t u : Session Db} → SameRole s t → SameRole t u → SameRole s u
  SameRole-trans h k = ground arith

-- The action was left in another way than by an error.
abbrev pub is_normal : {A : Type 0} → Outcome A → Bool
is_normal (Outcome.raised e) = false
is_normal _ = true

-- A security context of a restricted operation, as the switch to the superuser sets it:
-- SECURITY_LOCAL_USERID_CHANGE and SECURITY_RESTRICTED_OPERATION over another one.
abbrev pub IsRestricted : ℕ → Type 0
IsRestricted context = (c : ℕ) × (context ≡ bit_or (bit_or c 1) 2)

pub IsRestricted-same : {c d : ℕ} → IsRestricted c → d ≡ c → IsRestricted d
IsRestricted-same (c, e) k = (c, k ∙ e)

-- Where the role is switched, the context is restricted.
pub record Sound {Db : Type 0} (s : Session Db) : Type 0 where
  pub restricted : s.is_switched_to_superuser ≡ true → IsRestricted s.sec_context

pub Sound-SameRole : {Db : Type 0} {s t : Session Db} → Sound s → SameRole s t → Sound t
Sound-SameRole w k = record {
  restricted = λ h. IsRestricted-same (w.restricted (sym k.switched ∙ h)) k.context;
}

-- Unless it raises an error, the action leaves the role as it was.
pub record Keeps {Db A : Type 0} (m : Action Db A) : Type 0 where
  pub at : (s : Session Db) → Sound s → is_normal (m s).0 ≡ true → SameRole s (m s).1

-- The same, in the states where the role is switched.
pub record KeepsSwitched {Db A : Type 0} (m : Action Db A) : Type 0 where
  pub at :
      (s : Session Db)
      → s.is_switched_to_superuser ≡ true
      → IsRestricted s.sec_context
      → is_normal (m s).0 ≡ true
      → SameRole s (m s).1

pub KeepsSwitched-Keeps : {Db A : Type 0} (m : Action Db A) → Keeps m → KeepsSwitched m
KeepsSwitched-Keeps m k = record { at = λ s h r n. k.at s (record { restricted = λ _. r }) n }

module _ {Db A : Type 0} where
  pub Keeps-pure : (a : A) → Keeps {Db = Db} (pure a)
  unfolding ◌>>=◌
  Keeps-pure a = record { at = λ s w h. SameRole-refl s }

  pub Keeps-raise : (e : Error) → Keeps {Db = Db} {A = A} (raise e)
  unfolding ◌>>=◌
  Keeps-raise e = record { at = λ s w h. SameRole-refl s }

  pub Keeps-gets : (f : Session Db → A) → Keeps (gets f)
  unfolding ◌>>=◌
  Keeps-gets f = record { at = λ s w h. SameRole-refl s }

  pub Keeps-or_raise : (o : Option A) (e : Error) → Keeps {Db = Db} (or_raise o e)
  unfolding ◌>>=◌
  Keeps-or_raise none e = record { at = λ s w h. SameRole-refl s }
  Keeps-or_raise (some a) e = record { at = λ s w h. SameRole-refl s }

  pub Keeps-if : (b : Bool) (m n : Action Db A) → Keeps m → Keeps n → Keeps (if b then m else n)
  Keeps-if true m n k l = k
  Keeps-if false m n k l = l

module _ {Db : Type 0} where
  pub Keeps-break_if : (b : Bool) (stmt : Stmt) → Keeps {Db = Db} (break_if b stmt)
  unfolding ◌>>=◌
  Keeps-break_if b stmt = record { at = λ s w h. SameRole-refl s }

  pub Keeps-raise_if : (b : Bool) (e : Error) → Keeps {Db = Db} (raise_if b e)
  unfolding ◌>>=◌
  Keeps-raise_if b e = record { at = λ s w h. SameRole-refl s }

  pub Keeps-check : (o : Option Error) → Keeps {Db = Db} (check o)
  unfolding ◌>>=◌
  Keeps-check none = record { at = λ s w h. SameRole-refl s }
  Keeps-check (some e) = record { at = λ s w h. SameRole-refl s }

  pub Keeps-report_warning : (w : Warning) → Keeps {Db = Db} (report_warning w)
  unfolding ◌>>=◌
  Keeps-report_warning w = record { at = λ s w h. ground arith }

  pub Keeps-return : Keeps {Db = Db} return_from_hook
  unfolding ◌>>=◌
  Keeps-return = record { at = λ s w h. SameRole-refl s }

  pub Keeps-when : (b : Bool) (m : Action Db Unit) → Keeps m → Keeps (when b m)
  unfolding ◌>>=◌
  Keeps-when true m k = k
  Keeps-when false m k = record { at = λ s w h. SameRole-refl s }

module _ {Db A B : Type 0} where
  continue-Keeps :
      (r : Outcome A) (f : A → Action Db B) (t : Session Db)
      → ((a : A) → Keeps (f a))
      → Sound t
      → is_normal (continue r f t).0 ≡ true
      → SameRole t (continue r f t).1
  continue-Keeps (Outcome.ok a) f t k w h = (k a).at t w h
  continue-Keeps (Outcome.broke stmt) f t k w h = SameRole-refl t
  continue-Keeps Outcome.returned f t k w h = SameRole-refl t
  continue-Keeps (Outcome.raised e) f t k w h = cc

  continue-KeepsSwitched :
      (r : Outcome A) (f : A → Action Db B) (t : Session Db)
      → ((a : A) → KeepsSwitched (f a))
      → t.is_switched_to_superuser ≡ true
      → IsRestricted t.sec_context
      → is_normal (continue r f t).0 ≡ true
      → SameRole t (continue r f t).1
  continue-KeepsSwitched (Outcome.ok a) f t k w r h = (k a).at t w r h
  continue-KeepsSwitched (Outcome.broke stmt) f t k w r h = SameRole-refl t
  continue-KeepsSwitched Outcome.returned f t k w r h = SameRole-refl t
  continue-KeepsSwitched (Outcome.raised e) f t k w r h = cc

  normal_before :
      (r : Outcome A) (f : A → Action Db B) (t : Session Db)
      → is_normal (continue r f t).0 ≡ true
      → is_normal r ≡ true
  normal_before (Outcome.raised e) f t h = h
  normal_before _ f t h = refl

  pub Keeps-bind :
      (m : Action Db A) (f : A → Action Db B) → Keeps m → ((a : A) → Keeps (f a)) → Keeps (m >>= f)
  unfolding ◌>>=◌
  Keeps-bind m f k l = record {
    at = λ s w h.
        let same = k.at s w (normal_before (m s).0 f (m s).1 h) in
        SameRole-trans same (continue-Keeps (m s).0 f (m s).1 l (Sound-SameRole w same) h);
  }

  pub KeepsSwitched-bind :
      (m : Action Db A) (f : A → Action Db B)
      → KeepsSwitched m
      → ((a : A) → KeepsSwitched (f a))
      → KeepsSwitched (m >>= f)
  unfolding ◌>>=◌
  KeepsSwitched-bind m f k l = record {
    at = λ s w r h.
        let same = k.at s w r (normal_before (m s).0 f (m s).1 h) in
        SameRole-trans same (
          continue-KeepsSwitched (m s).0 f (m s).1 l (same.switched ∙ w)
            (IsRestricted-same r same.context) h);
  }

-- The action was left by `break` or `return`.
abbrev pub is_exit : {A : Type 0} → Outcome A → Bool
is_exit (Outcome.broke stmt) = true
is_exit Outcome.returned = true
is_exit _ = false

-- The action goes on to what stands behind it, or raises an error.
pub record IsStraight {Db A : Type 0} (m : Action Db A) : Type 0 where
  pub at : (s : Session Db) → is_exit (m s).0 ≡ false

module _ {Db A : Type 0} where
  pub IsStraight-pure : (a : A) → IsStraight {Db = Db} (pure a)
  unfolding ◌>>=◌
  IsStraight-pure a = record { at = λ s. refl }

  pub IsStraight-gets : (f : Session Db → A) → IsStraight (gets f)
  unfolding ◌>>=◌
  IsStraight-gets f = record { at = λ s. refl }

  pub IsStraight-or_raise : (o : Option A) (e : Error) → IsStraight {Db = Db} (or_raise o e)
  unfolding ◌>>=◌
  IsStraight-or_raise none e = record { at = λ s. refl }
  IsStraight-or_raise (some a) e = record { at = λ s. refl }

  pub IsStraight-raise : (e : Error) → IsStraight {Db = Db} {A = A} (raise e)
  unfolding ◌>>=◌
  IsStraight-raise e = record { at = λ s. refl }

  pub IsStraight-if :
      (b : Bool) (m n : Action Db A) → IsStraight m → IsStraight n → IsStraight (if b then m else n)
  IsStraight-if true m n k l = k
  IsStraight-if false m n k l = l

module _ {Db : Type 0} where
  pub IsStraight-raise_if : (b : Bool) (e : Error) → IsStraight {Db = Db} (raise_if b e)
  unfolding ◌>>=◌
  IsStraight-raise_if true e = record { at = λ s. refl }
  IsStraight-raise_if false e = record { at = λ s. refl }

  pub IsStraight-report_warning : (w : Warning) → IsStraight {Db = Db} (report_warning w)
  unfolding ◌>>=◌
  IsStraight-report_warning w = record { at = λ s. refl }

  pub IsStraight-when : (b : Bool) (m : Action Db Unit) → IsStraight m → IsStraight (when b m)
  unfolding ◌>>=◌
  IsStraight-when true m k = k
  IsStraight-when false m k = record { at = λ s. refl }

module _ {Db A B : Type 0} where
  continue_straight :
      (r : Outcome A) (f : A → Action Db B) (t : Session Db)
      → is_exit r ≡ false
      → ((a : A) → IsStraight (f a))
      → is_exit (continue r f t).0 ≡ false
  continue_straight (Outcome.ok a) f t h k = (k a).at t
  continue_straight (Outcome.raised e) f t h k = refl
  continue_straight (Outcome.broke stmt) f t h k = cc
  continue_straight Outcome.returned f t h k = cc

  pub IsStraight-bind :
      (m : Action Db A) (f : A → Action Db B)
      → IsStraight m
      → ((a : A) → IsStraight (f a))
      → IsStraight (m >>= f)
  unfolding ◌>>=◌
  IsStraight-bind m f k l = record { at = λ s. continue_straight (m s).0 f (m s).1 (k.at s) l }

pub ruleset straight_rules = (
  IsStraight-pure, IsStraight-raise, IsStraight-gets, IsStraight-or_raise, IsStraight-if,
  IsStraight-raise_if, IsStraight-report_warning, IsStraight-when, IsStraight-bind,
)

pub ruleset keeps_rules = (
  Keeps-pure, Keeps-raise, Keeps-gets, Keeps-or_raise, Keeps-if, Keeps-break_if, Keeps-raise_if,
  Keeps-check, Keeps-report_warning, Keeps-return, Keeps-when, Keeps-bind,
)
