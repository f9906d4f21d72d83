-- ===== src/Hook/Restores/AlterExtension.antt =====
-- The end of ALTER EXTENSION .. UPDATE: a privileged update is run a second time.
use supautils.Prelude.{
  ◌≡◌, refl, sym, false, ap, ap₂, ◌∙◌, ℕ, ◌∷◌, [], ◌++◌, Bool, true, false, some, arith, CString,
  List,
}
use mathlib.Core.Bool.{false≢true}
use supautils.Statements.{Stmt, DefElem, alter_extension}
use supautils.Session.{Session, Outcome, break_if, ◌>>=◌}
use supautils.Server.{Server}
use supautils.Config.{Config}
use supautils.Roles.{
  run_as_superuser, switch_to_superuser, superuser_oid_of, switch_back_unless,
  run_process_utility_hook, run_process_utility_hook_with_cleanup,
}
use supautils.Roles.Switch.{RestrictedStays}
use supautils.Roles.Closes.{run_as_superuser-Keeps}
use supautils.PrivilegedExtensions.{is_extension_privileged}
use supautils.Hook.{chain}
use supautils.Hook.ExtensionStmts.{run_alter_extension}
use supautils.Hook.Escalation.Guards.{is_extension_privileged-Reads}
use supautils.Hook.Restores.Errors.{superuser_role}

module _ (pg : Server) (cfg : Config) (s : Session pg.Db) (oid : ℕ) where
  -- A statement that is run as the superuser, by a user that is not switched, is handed on once,
  -- with the superuser's OID, whatever comes of it.
  pub run_as_superuser-runs :
      (stmt : Stmt)
      → s.is_switched_to_superuser ≡ false
      → superuser_role pg cfg.supautils_superuser s.db ≡ some oid
      → (run_as_superuser pg cfg.supautils_superuser stmt s).1.runs ≡ s.runs ++ (oid, stmt) ∷ []
  unfolding run_as_superuser switch_to_superuser superuser_oid_of run_process_utility_hook
      run_process_utility_hook_with_cleanup switch_back_unless ◌>>=◌
  run_as_superuser-runs stmt f h = ground arith

  module _ (extname : CString) (options : List DefElem) where
    -- A guard that reads and says yes is passed.
    passed :
        (r : Outcome Bool) (t : Session pg.Db)
        → t ≡ s
        → r ≡ Outcome.ok true
        → is_extension_privileged pg extname cfg.privileged_extensions s ≡ (r, t)
        → (run_alter_extension pg cfg extname options s) ≡ (
            (run_as_superuser pg cfg.supautils_superuser (alter_extension extname options) >>= λ u.
            break_if true (alter_extension extname options))
              s)
    unfolding run_alter_extension ◌>>=◌
    passed r t h k e = ground arith

    passed_runs :
        (r : Outcome Unit) (t : Session pg.Db)
        → r ≡ Outcome.ok tt
        → run_as_superuser pg cfg.supautils_superuser (alter_extension extname options) s ≡ (r, t)
        → let x =
            (run_as_superuser pg cfg.supautils_superuser (alter_extension extname options) >>= λ u.
            break_if true (alter_extension extname options))
              s in
          (chain pg cfg x.0 x.1).1.runs
          ≡ t.runs ++ (t.user_id, alter_extension extname options) ∷ []
    unfolding chain run_process_utility_hook ◌>>=◌
    passed_runs r t h k = ground arith

    -- Where Postgres refuses to set the role in a restricted context: for ALTER EXTENSION .. UPDATE
    -- of a privileged extension, by a user that is not switched, where the superuser exists and the run as the superuser succeeds, the statement is handed on twice,
    -- as the superuser and then as the user.
    pub run_alter_extension-twice :
        RestrictedStays pg
        → s.is_switched_to_superuser ≡ false
        → superuser_role pg cfg.supautils_superuser s.db ≡ some oid
        → (is_extension_privileged pg extname cfg.privileged_extensions s).0 ≡ Outcome.ok true
        → (run_as_superuser pg cfg.supautils_superuser (alter_extension extname options) s).0
          ≡ Outcome.ok tt
        → let stmt = alter_extension extname options in
          let x = run_alter_extension pg cfg extname options s in
          (chain pg cfg x.0 x.1).1.runs ≡ (s.runs ++ (oid, stmt) ∷ []) ++ (s.user_id, stmt) ∷ []
    run_alter_extension-twice stays f h k ok_run =
        let stmt = alter_extension extname options in
        let p = passed _ _ ((is_extension_privileged-Reads pg extname _).at s) k refl in
        let same =
          (run_as_superuser-Keeps pg stays stmt cfg.supautils_superuser).at s
            (record { restricted = λ h. absurd (false≢true (sym f ∙ h)) }) (ground arith) in
        ap (λ x. (chain pg cfg x.0 x.1).1.runs) p
        ∙ passed_runs _ _ ok_run refl
        ∙ ap₂ (λ l u. l ++ (u, stmt) ∷ []) (run_as_superuser-runs stmt f h) same.user
