-- ===== src/Session/Reads.antt =====
-- Actions that only read: whatever their outcome, the state is as before.
use supautils.Prelude.{◌≡◌, refl, ◌∙◌, Bool, true, false, Option, none, some, if◌then◌else◌}
use supautils.Statements.{Stmt}
use supautils.Session.{
  Error, Session, Outcome, Action, pure, raise, gets, or_raise, break_if, raise_if, check, when,
  continue, ◌>>=◌,
}

pub record Reads {Db A : Type 0} (m : Action Db A) : Type 0 where
  pub at : (s : Session Db) → (m s).1 ≡ s

module _ {Db A : Type 0} where
  pub Reads-pure : (a : A) → Reads {Db = Db} (pure a)
  unfolding ◌>>=◌
  Reads-pure a = record { at = λ s. refl }

  pub Reads-raise : (e : Error) → Reads {Db = Db} {A = A} (raise e)
  unfolding ◌>>=◌
  Reads-raise e = record { at = λ s. refl }

  pub Reads-gets : (f : Session Db → A) → Reads (gets f)
  unfolding ◌>>=◌
  Reads-gets f = record { at = λ s. refl }

  pub Reads-or_raise : (o : Option A) (e : Error) → Reads {Db = Db} (or_raise o e)
  unfolding ◌>>=◌
  Reads-or_raise none e = record { at = λ s. refl }
  Reads-or_raise (some a) e = record { at = λ s. refl }

  pub Reads-if : (b : Bool) (m n : Action Db A) → Reads m → Reads n → Reads (if b then m else n)
  Reads-if true m n k l = k
  Reads-if false m n k l = l

module _ {Db : Type 0} where
  pub Reads-raise_if : (b : Bool) (e : Error) → Reads {Db = Db} (raise_if b e)
  unfolding ◌>>=◌
  Reads-raise_if b e = record { at = λ s. refl }

  pub Reads-break_if : (b : Bool) (stmt : Stmt) → Reads {Db = Db} (break_if b stmt)
  unfolding ◌>>=◌
  Reads-break_if b stmt = record { at = λ s. refl }

  pub Reads-check : (o : Option Error) → Reads {Db = Db} (check o)
  unfolding ◌>>=◌
  Reads-check none = record { at = λ s. refl }
  Reads-check (some e) = record { at = λ s. refl }

  pub Reads-when : (b : Bool) (m : Action Db Unit) → Reads m → Reads (when b m)
  unfolding ◌>>=◌
  Reads-when true m k = k
  Reads-when false m k = record { at = λ s. refl }

module _ {Db A B : Type 0} where
  continue-Reads :
      (r : Outcome A) (f : A → Action Db B) (t : Session Db)
      → ((a : A) → Reads (f a))
      → (continue r f t).1 ≡ t
  continue-Reads (Outcome.ok a) f t k = (k a).at t
  continue-Reads (Outcome.broke stmt) f t k = refl
  continue-Reads Outcome.returned f t k = refl
  continue-Reads (Outcome.raised e) f t k = refl

  pub Reads-bind :
      (m : Action Db A) (f : A → Action Db B) → Reads m → ((a : A) → Reads (f a)) → Reads (m >>= f)
  unfolding ◌>>=◌
  Reads-bind m f k l = record { at = λ s. continue-Reads (m s).0 f (m s).1 l ∙ k.at s }

pub ruleset reads_rules = (
  Reads-pure, Reads-raise, Reads-gets, Reads-or_raise, Reads-if, Reads-break_if, Reads-raise_if,
  Reads-check, Reads-when, Reads-bind,
)
