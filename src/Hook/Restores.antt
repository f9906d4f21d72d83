-- ===== src/Hook/Restores.antt =====
-- Whatever statement the hook handles, unless it raises an error it puts the role back.
pub mod RoleCases
pub mod GrantCases
pub mod ExtensionCases
pub mod Errors
pub mod AlterExtension
use supautils.Prelude.{◌≡◌, refl, true, none, arith}
use supautils.Statements.{
  Stmt, alter_role, alter_role_set, create_role, drop_role, grant_role, rename, create_extension,
  alter_extension, alter_object_schema, alter_extension_contents, create_fdw, create_publication,
  alter_publication, create_policy, alter_policy, drop, comment, variable_set, create_event_trig,
  other_stmt,
}
use supautils.Session.{Session, Outcome}
use supautils.Session.Keeps.{SameRole, Sound, is_normal, Keeps, Keeps-break_if}
use supautils.Server.{Server}
use supautils.Config.{Config}
use supautils.Roles.Switch.{RestoresRole}
use supautils.Roles.{run_process_utility_hook}
use supautils.Hook.{dispatch, outcome_error, chain, supautils_hook}
use RoleCases.{
  alter_role_stmt-Keeps, alter_role_set_stmt-Keeps, create_role_stmt-Keeps, drop_role_stmt-Keeps,
  grant_role_stmt-Keeps, rename_stmt-Keeps,
}
use GrantCases.{
  create_policy_stmt-Keeps, alter_policy_stmt-Keeps, drop_stmt-Keeps, create_fdw_stmt-Keeps,
  create_publication_stmt-Keeps, alter_publication_stmt-Keeps, comment_stmt-Keeps,
  variable_set_stmt-Keeps, create_event_trig_stmt-Keeps,
}
use ExtensionCases.{
  create_extension_stmt-Keeps, alter_extension_stmt-Keeps, alter_object_schema_stmt-Keeps,
}

module _ (pg : Server) where
  -- The role is as before; or, last of all, a statement was handed on to the next hook from a state
  -- where the role was as before, and the rest is that hook's.
  pub data Restored (s t : Session pg.Db) : Type 0 where
    as_before : SameRole s t → Restored s t
    handed_on :
        (stmt : Stmt) (u : Session pg.Db)
        → SameRole s u
        → t ≡ (run_process_utility_hook pg stmt u).1
        → Restored s t

module _ (pg : Server) (cfg : Config) (restores : RestoresRole pg) where
  dispatch-Keeps : (stmt : Stmt) → Keeps (dispatch pg cfg stmt)
  unfolding dispatch
  dispatch-Keeps (alter_role role options) = alter_role_stmt-Keeps pg cfg restores role options
  dispatch-Keeps (alter_role_set role name) = alter_role_set_stmt-Keeps pg cfg restores role name
  dispatch-Keeps (create_role role options) = create_role_stmt-Keeps pg cfg restores role options
  dispatch-Keeps (drop_role roles) = drop_role_stmt-Keeps pg cfg restores roles
  dispatch-Keeps (grant_role is_grant granted grantees) =
      grant_role_stmt-Keeps pg cfg restores is_grant granted grantees
  dispatch-Keeps (rename t a b) = rename_stmt-Keeps pg cfg restores t a b
  dispatch-Keeps (create_extension name options) =
      create_extension_stmt-Keeps pg cfg restores name options
  dispatch-Keeps (alter_extension name options) =
      alter_extension_stmt-Keeps pg cfg restores name options
  dispatch-Keeps (alter_object_schema t name) =
      alter_object_schema_stmt-Keeps pg cfg restores t name
  dispatch-Keeps (create_fdw name) = create_fdw_stmt-Keeps pg cfg restores name
  dispatch-Keeps (create_publication name) = create_publication_stmt-Keeps pg cfg restores name
  dispatch-Keeps alter_publication = alter_publication_stmt-Keeps pg cfg restores
  dispatch-Keeps (create_policy table) = create_policy_stmt-Keeps pg cfg restores table
  dispatch-Keeps (alter_policy table) = alter_policy_stmt-Keeps pg cfg restores table
  dispatch-Keeps (drop objects) = drop_stmt-Keeps pg cfg restores objects
  dispatch-Keeps (comment object) = comment_stmt-Keeps pg cfg restores object
  dispatch-Keeps (variable_set name) = variable_set_stmt-Keeps pg cfg restores name
  dispatch-Keeps (create_event_trig name function) =
      create_event_trig_stmt-Keeps pg cfg restores name function
  dispatch-Keeps alter_extension_contents = Keeps-break_if true _
  dispatch-Keeps (other_stmt n) = Keeps-break_if true _

  chain-Restored :
      (s : Session pg.Db) (r : Outcome Unit) (t : Session pg.Db)
      → (is_normal r ≡ true → SameRole s t)
      → outcome_error (chain pg cfg r t).0 ≡ none
      → Restored pg s (chain pg cfg r t).1
  unfolding chain
  chain-Restored s (Outcome.ok u) t k h = as_before (k refl)
  chain-Restored s (Outcome.broke stmt) t k h = handed_on stmt t (k refl) refl
  chain-Restored s Outcome.returned t k h = as_before (k refl)
  chain-Restored s (Outcome.raised e) t k h = cc

  -- Where Postgres refuses to set the role in a restricted context, and CREATE ROLE and CREATE
  -- EXTENSION do not set it either: from a state whose context is restricted if the role is
  -- switched, and for every statement, if the hook returns with no error then it has handed on a
  -- statement at its end, from a state with the user, the security context, the two flags and, where
  -- the role was switched, the saved role as before; or it ends in such a state.
  pub supautils_hook_restores :
      (stmt : Stmt) (s : Session pg.Db)
      → Sound s
      → (supautils_hook pg cfg stmt s).0 ≡ none
      → Restored pg s (supautils_hook pg cfg stmt s).1
  unfolding supautils_hook
  supautils_hook_restores stmt s w h =
      chain-Restored s (dispatch pg cfg stmt s).0 (dispatch pg cfg stmt s).1
        ((dispatch-Keeps stmt).at s w) h
