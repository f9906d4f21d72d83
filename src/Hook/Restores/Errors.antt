-- ===== src/Hook/Restores/Errors.antt =====
-- What an error leaves behind.
use supautils.Prelude.{ℕ, ◌≡◌, ◌++◌, ◌∷◌, [], true, false, Option, none, some, arith, CString}
use supautils.Statements.{Stmt}
use supautils.Session.{Error, Session, Outcome, postgres_error, ◌>>=◌}
use supautils.Session.Keeps.{is_normal}
use supautils.Server.{Server}
use supautils.Roles.{
  switch_to_superuser, superuser_oid_of, switch_back_unless, run_as_superuser,
  run_process_utility_hook, run_process_utility_hook_with_cleanup, bootstrap_superuserid,
}
use supautils.Roles.Switch.{SavedRoleStays, switch-SwitchedFrom, with_cleanup_error}

-- The OID of the superuser to switch to, `none` where the setting names no role.
abbrev pub superuser_role : (pg : Server) → Option CString → pg.Db → Option ℕ
superuser_role pg none db = some bootstrap_superuserid
superuser_role pg (some supauser) db = pg.get_role_oid db supauser

module _ (pg : Server) (supauser : Option CString) (stmt : Stmt) where
  switch_found :
      (s : Session pg.Db) (oid : ℕ)
      → superuser_role pg supauser s.db ≡ some oid
      → is_normal (switch_to_superuser pg supauser s).0 ≡ true
  unfolding switch_to_superuser superuser_oid_of ◌>>=◌
  switch_found s oid h = ground arith

  -- Where a statement that raises an error leaves the saved role alone while the role is switched:
  -- if the superuser exists and the role was not switched, an error of the statement that is run
  -- as the superuser comes out with the user and the security context as before, and the role not
  -- switched.
  pub run_as_superuser_error :
      (stays : SavedRoleStays pg) (s : Session pg.Db) (oid : ℕ) (e : Error)
      → s.is_switched_to_superuser ≡ false
      → superuser_role pg supauser s.db ≡ some oid
      → (run_as_superuser pg supauser stmt s).0 ≡ Outcome.raised e
      → let t = (run_as_superuser pg supauser stmt s).1 in
        (t.user_id ≡ s.user_id)
        × (t.sec_context ≡ s.sec_context)
        × (t.is_switched_to_superuser ≡ false)
  unfolding run_as_superuser switch_back_unless ◌>>=◌
  run_as_superuser_error stays s oid e f h r =
      let t = (switch_to_superuser pg supauser s).1 in
      let sw = switch-SwitchedFrom pg supauser s f (switch_found s oid h) in
      ground (arith, sw.0, with_cleanup_error pg stmt stays s t e sw.1)

  -- If the superuser that the setting names does not exist, the switch raises an error, and the
  -- role counts as switched afterwards though it is not. In every state where it
  -- counts as switched, a statement that should run as the superuser runs as the current user.
  pub switch_sticks :
      (s later : Session pg.Db)
      → s.is_switched_to_superuser ≡ false
      → superuser_role pg supauser s.db ≡ none
      → later.is_switched_to_superuser ≡ true
      → let t = (switch_to_superuser pg supauser s).1 in
        ((switch_to_superuser pg supauser s).0 ≡ Outcome.raised postgres_error)
        × (t.user_id ≡ s.user_id)
        × (t.is_switched_to_superuser ≡ true)
        × ((run_as_superuser pg supauser stmt later).1.runs
            ≡ later.runs ++ (later.user_id, stmt) ∷ [])
  unfolding switch_to_superuser superuser_oid_of run_as_superuser run_process_utility_hook
      run_process_utility_hook_with_cleanup switch_back_unless ◌>>=◌
  switch_sticks s later f h k = (ground arith, ground arith, ground arith, ground arith)
