-- ===== src/Session/Stays.antt =====
-- Actions that run no statement as any user and keep the current user and the catalogs.
use supautils.Prelude.{◌≡◌, refl, ◌∙◌, Bool, true, false, arith, if◌then◌else◌}
use supautils.Session.{Warning, Session, Outcome, Action, report_warning, continue, ◌>>=◌}
use supautils.Session.Reads.{Reads}

-- In the states with the catalogs `d`.
pub record Stays {Db A : Type 0} (d : Db) (m : Action Db A) : Type 0 where
  pub at :
      (s : Session Db)
      → s.db ≡ d
      → ((m s).1.runs ≡ s.runs) × ((m s).1.user_id ≡ s.user_id) × ((m s).1.db ≡ d)

module _ {Db A : Type 0} {d : Db} where
  pub Stays-Reads : (m : Action Db A) → Reads m → Stays d m
  Stays-Reads m k = record {
    at = λ s e. (ground (arith, k.at s), ground (arith, k.at s), ground (arith, k.at s));
  }

  pub Stays-if :
      (b : Bool) (m n : Action Db A) → Stays d m → Stays d n → Stays d (if b then m else n)
  Stays-if true m n k l = k
  Stays-if false m n k l = l

module _ {Db : Type 0} {d : Db} where
  pub Stays-warning : (w : Warning) → Stays d (report_warning w)
  unfolding ◌>>=◌
  Stays-warning w = record { at = λ s e. (refl, refl, e) }

module _ {Db A B : Type 0} {d : Db} where
  continue-Stays :
      (r : Outcome A) (f : A → Action Db B) (t : Session Db)
      → ((a : A) → Stays d (f a))
      → t.db ≡ d
      → let u = (continue r f t).1 in (u.runs ≡ t.runs) × (u.user_id ≡ t.user_id) × (u.db ≡ d)
  continue-Stays (Outcome.ok a) f t k e = (k a).at t e
  continue-Stays (Outcome.broke stmt) f t k e = (refl, refl, e)
  continue-Stays Outcome.returned f t k e = (refl, refl, e)
  continue-Stays (Outcome.raised x) f t k e = (refl, refl, e)

  pub Stays-bind :
      (m : Action Db A) (f : A → Action Db B)
      → Stays d m
      → ((a : A) → Stays d (f a))
      → Stays d (m >>= f)
  unfolding ◌>>=◌
  Stays-bind m f k l = record {
    at = λ s e.
        let x = k.at s e in
        let c = continue-Stays (m s).0 f (m s).1 l x.2 in (c.0 ∙ x.0, c.1 ∙ x.1, c.2);
  }

pub ruleset stays_rules = (Stays-if, Stays-warning, Stays-bind)
