-- ===== src/Hook/Escalation/AsUser.antt =====
-- What a case of the hook that runs no statement as another user has done when it is left.
use supautils.Prelude.{
  ltb, ◌&&◌, Bool-cases, inl, inr, ◌≡◌, refl, sym, subst, ◌∷◌, [], ◌++◌, Bool, true, false, arith,
  CString, List,
}
use supautils.Statements.{Stmt, DefElem, create_role}
use supautils.Session.{Session, Outcome, Action, continue, return_from_hook, ◌>>=◌, ◌>>◌}
use supautils.Session.Reads.{Reads, reads_rules}
use supautils.Session.Stays.{Stays}
use supautils.Server.{Server}
use supautils.Config.{Config}
use supautils.Roles.{run_process_utility_hook}
use supautils.Privileges.{has_privileged_role}
use supautils.Hook.RoleStmts.{create_role_stmt, run_create_role}
use supautils.Hook.Escalation.Permits.{may_create_role, is_free_name}
use supautils.Hook.Escalation.Guards.{gather_options-Reads, confirm_specs-Reads}

abbrev pub is_break : Outcome Unit → Bool
is_break (Outcome.broke stmt) = true
is_break _ = false

-- From `s`, this outcome and this state: nothing was run yet, by the same user; or one statement
-- was, as the user of `s`, and the next hook is not called any more.
pub data Plain {Db : Type 0} (s : Session Db) (r : Outcome Unit) (t : Session Db) : Type 0 where
  quiet : t.runs ≡ s.runs → t.user_id ≡ s.user_id → Plain s r t
  ran : (stmt : Stmt) → t.runs ≡ s.runs ++ (s.user_id, stmt) ∷ [] → is_break r ≡ false → Plain s r t

module _ {Db : Type 0} (s : Session Db) where
  pub Plain-Stays : (m : Action Db Unit) → Stays s.db m → Plain s (m s).0 (m s).1
  Plain-Stays m k = let x = k.at s refl in Plain.quiet x.0 x.1

  pub Plain-same : (r : Outcome Unit) (t : Session Db) → t ≡ s → Plain s r t
  Plain-same r t h = Plain.quiet (ground arith) (ground arith)

  module _ {A : Type 0} where
    continue-Plain :
        (r : Outcome A) (f : A → Action Db Unit)
        → ((a : A) → Plain s (f a s).0 (f a s).1)
        → Plain s (continue r f s).0 (continue r f s).1
    continue-Plain (Outcome.ok a) f k = k a
    continue-Plain (Outcome.broke stmt) f k = Plain.quiet refl refl
    continue-Plain Outcome.returned f k = Plain.quiet refl refl
    continue-Plain (Outcome.raised e) f k = Plain.quiet refl refl

    pub Plain-bind :
        (m : Action Db A) (f : A → Action Db Unit)
        → Reads m
        → ((a : A) → Plain s (f a s).0 (f a s).1)
        → Plain s ((m >>= f) s).0 ((m >>= f) s).1
    unfolding ◌>>=◌
    Plain-bind m f k l =
        subst (λ t. Plain s (continue (m s).0 f t).0 (continue (m s).0 f t).1) (sym (k.at s))
          (continue-Plain (m s).0 f l)

module _ (pg : Server) (cfg : Config) (s : Session pg.Db) where
  run_as_user-Plain :
      (stmt : Stmt)
      → let x = (run_process_utility_hook pg stmt >> return_from_hook) s in Plain s x.0 x.1
  unfolding run_process_utility_hook ◌>>=◌
  run_as_user-Plain stmt = Plain.ran stmt (ground arith) (ground arith)

  run_create_role-Plain :
      (stmt : Stmt)
      → (ltb pg.pg_version_num 160000 && has_privileged_role pg cfg s.db s.user_id) ≡ false
      → let x = (run_create_role pg cfg stmt >> return_from_hook) s in Plain s x.0 x.1
  unfolding run_create_role run_process_utility_hook ◌>>=◌
  run_create_role-Plain stmt h = Plain.ran stmt (ground arith) (ground arith)

  -- The name is reserved or not new, or the user a superuser.
  create_stopped :
      (created_role : CString) (options : List DefElem)
      → is_free_name pg cfg created_role s ≡ false
      → (create_role_stmt pg cfg created_role options s).1 ≡ s
  unfolding create_role_stmt ◌>>=◌
  create_stopped created_role options h = ground arith

  create_free :
      (created_role : CString) (options : List DefElem)
      → (ltb pg.pg_version_num 160000 && has_privileged_role pg cfg s.db s.user_id) ≡ false
      → let x = create_role_stmt pg cfg created_role options s in Plain s x.0 x.1
  unfolding create_role_stmt ◌>>=◌
  create_free created_role options h =
      let run = run_create_role-Plain (create_role created_role options) h in
      search (reads_rules, Plain-bind, gather_options-Reads, confirm_specs-Reads) depth 40

  pub create_role_stmt-Plain :
      (created_role : CString) (options : List DefElem)
      → may_create_role pg cfg created_role s ≡ false
      → let x = create_role_stmt pg cfg created_role options s in Plain s x.0 x.1
  unfolding may_create_role
  create_role_stmt-Plain created_role options h =
      elim (Bool-cases (is_free_name pg cfg created_role s)) [
        | inl q ↦ create_free created_role options (ground arith)
        | inr q ↦ Plain-same s _ _ (create_stopped created_role options q)
      ]
