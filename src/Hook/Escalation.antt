-- ===== src/Hook/Escalation.antt =====
-- Which statements the hook runs as another user than the current one: `permitted` says it from
-- the state, with the guards of the hook's cases.
pub mod Guards
pub mod Quiet
pub mod AsUser
pub mod Extensions
pub mod Permits
pub mod Permitted
pub mod Superusers
pub mod Cases
use supautils.Prelude.{◌≡◌, ◌∷◌, [], ◌++◌, ◌&&◌, ◌||◌, not, Bool, List, CString}
use supautils.Statements.{
  Stmt, DropObjects, ObjectType, object_extension, object_role, object_other, drop_extensions,
  drop_policy, drop_trigger, drop_others, CommentObject, RoleSpec, DefElem,
}
use supautils.Session.{Session, Action, break_if}
use supautils.Session.Reads.{Reads, reads_rules}
use supautils.Session.Stays.{Stays-Reads}
use supautils.Server.{Server}
use supautils.Config.{Config}
use supautils.Privileges.{superuser, has_privileged_role}
use supautils.Hook.RoleStmts.{drop_role_stmt, grant_role_stmt, rename_stmt}
use supautils.Hook.ExtensionStmts.{
  alter_extension_stmt, is_privileged_object, alter_object_schema_stmt,
}
use supautils.Hook.GrantStmts.{
  policy_granted, drop_granted, all_but_last, create_policy_stmt, alter_policy_stmt, drop_stmt,
  comment_on_policy, run_if_granted,
}
use supautils.Hook.PrivilegedStmts.{
  comment_stmt, comment_cases, create_fdw_stmt, create_publication_stmt, alter_publication_stmt,
  privileged_only,
}
use Guards.{
  policy_granted-Reads, drop_granted-Reads, is_privileged_object-Reads, grant_role_checks-Reads,
  rename_checks-Reads,
}
use Permits.{
  allows, may_create_trigger, is_offered, all_offered, privileged-offered, all_privileged-offered,
}
use Quiet.{run_if_granted-quiet}
use AsUser.{is_break, Plain-bind}
use Cases.{granted-Plain, extension_schema-Plain, comment_cases-quiet}

-- The statements that are run from `s` to `t`: none, or one as the user of `s`.
pub data RunsAsUser {Db : Type 0} (s t : Session Db) : Type 0 where
  none_run : t.runs ≡ s.runs → RunsAsUser s t
  one_run : (stmt : Stmt) → t.runs ≡ s.runs ++ (s.user_id, stmt) ∷ [] → RunsAsUser s t
