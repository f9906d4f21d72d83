-- ===== src/Hook.antt =====
-- `supautils_hook` of src/supautils.c, the ProcessUtility hook: one function for each `case` of its
-- `switch`, in the children, and here the `switch` and the call of the next hook at its end.
pub mod RoleStmts
pub mod ExtensionStmts
pub mod GrantStmts
pub mod PrivilegedStmts
pub mod Restores
pub mod Escalation
pub mod Rejects
pub mod Versions
use supautils.Prelude.{true, Option, none, some}
use supautils.Statements.{
  Stmt, alter_role, alter_role_set, create_role, drop_role, grant_role, rename, create_extension,
  alter_extension, alter_object_schema, alter_extension_contents, create_fdw, create_publication,
  alter_publication, create_policy, alter_policy, drop, comment, variable_set, create_event_trig,
  other_stmt,
}
use supautils.Session.{Error, Session, Outcome, Action, Call, break_if}
use supautils.Server.{Server}
use supautils.Config.{Config}
use supautils.Roles.{run_process_utility_hook}
use RoleStmts.{
  alter_role_stmt, alter_role_set_stmt, create_role_stmt, drop_role_stmt, grant_role_stmt,
  rename_stmt,
}
use ExtensionStmts.{create_extension_stmt, alter_extension_stmt, alter_object_schema_stmt}
use GrantStmts.{create_policy_stmt, alter_policy_stmt, drop_stmt}
use PrivilegedStmts.{
  create_fdw_stmt, create_publication_stmt, alter_publication_stmt, comment_stmt, variable_set_stmt,
  create_event_trig_stmt,
}

-- `break` leads to the call at the end of the function, `return` and an error do not.
abbrev pub outcome_error : Outcome Unit → Option Error
outcome_error (Outcome.raised e) = some e
outcome_error _ = none

module _ (pg : Server) (cfg : Config) where
  open pg use {Db}

  -- The `switch`.
  unfoldable pub dispatch : Stmt → Action Db Unit
  dispatch (alter_role role options) = alter_role_stmt pg cfg role options
  dispatch (alter_role_set role setting) = alter_role_set_stmt pg cfg role setting
  dispatch (create_role role options) = create_role_stmt pg cfg role options
  dispatch (drop_role roles) = drop_role_stmt pg cfg roles
  dispatch (grant_role is_grant granted grantees) = grant_role_stmt pg cfg is_grant granted grantees
  dispatch (rename rename_type subname newname) = rename_stmt pg cfg rename_type subname newname
  dispatch (create_extension extname options) = create_extension_stmt pg cfg extname options
  dispatch (alter_extension extname options) = alter_extension_stmt pg cfg extname options
  dispatch (alter_object_schema objtype object) = alter_object_schema_stmt pg cfg objtype object
  dispatch (create_fdw fdwname) = create_fdw_stmt pg cfg fdwname
  dispatch (create_publication pubname) = create_publication_stmt pg cfg pubname
  dispatch alter_publication = alter_publication_stmt pg cfg
  dispatch (create_policy table) = create_policy_stmt pg cfg table
  dispatch (alter_policy table) = alter_policy_stmt pg cfg table
  dispatch (drop objects) = drop_stmt pg cfg objects
  dispatch (comment objtype) = comment_stmt pg cfg objtype
  dispatch (variable_set setting) = variable_set_stmt pg cfg setting
  dispatch (create_event_trig trigname funcname) = create_event_trig_stmt pg cfg trigname funcname
  dispatch alter_extension_contents = break_if true alter_extension_contents
  dispatch (other_stmt n) = break_if true (other_stmt n)

  unfoldable pub chain : Outcome Unit → Action Db Unit
  chain (Outcome.broke stmt) s = run_process_utility_hook pg stmt s
  chain r s = (r, s)

  unfoldable pub supautils_hook : Stmt → Call Db
  unfolding chain
  supautils_hook stmt s =
      let (r, s') = dispatch stmt s in let (r', s'') = chain r s' in (outcome_error r', s'')
