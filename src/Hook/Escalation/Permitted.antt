-- ===== src/Hook/Escalation/Permitted.antt =====
-- Which statements may be run as the superuser, with the guards of the hook's cases.
use supautils.Prelude.{◌&&◌, ◌||◌, not, Bool, true, false}
use supautils.Statements.{
  Stmt, alter_role, alter_role_set, create_role, drop_role, grant_role, rename, create_extension,
  alter_extension, alter_object_schema, alter_extension_contents, create_policy, alter_policy, drop,
  comment, variable_set, create_event_trig, other_stmt, object_extension, drop_extensions,
  on_policy, on_other,
}
use supautils.Session.{Session}
use supautils.Server.{Server}
use supautils.Config.{Config}
use supautils.Privileges.{has_privileged_role}
use supautils.Hook.GrantStmts.{policy_granted, drop_granted, all_but_last}
use supautils.Hook.Escalation.Permits.{
  allows, may_alter_role, may_set, may_set_for, may_create_trigger, may_create_role, is_offered,
  all_offered,
}

module _ (pg : Server) (cfg : Config) where
  -- What a user may who is no superuser: an extension, where it is listed and available; a policy
  -- or a trigger, where the table is granted; a setting, where the administrator lets the
  -- privileged role set it, of a role that is not reserved for it; CREATE ROLE before version 16
  -- only.
  unfoldable pub permitted_user : Stmt → Session pg.Db → Bool
  permitted_user (alter_role role options) s = may_alter_role pg cfg role options s
  permitted_user (alter_role_set role setting) s = may_set_for pg cfg role setting s
  permitted_user (create_role name options) s = may_create_role pg cfg name s
  permitted_user (drop_role roles) s = false
  permitted_user (grant_role is_grant granted grantees) s = false
  permitted_user (rename rename_type subname newname) s = false
  permitted_user alter_extension_contents s = false
  permitted_user (other_stmt n) s = false
  permitted_user (alter_extension extname options) s = is_offered pg cfg s.db extname
  permitted_user (alter_object_schema object_extension object) s = is_offered pg cfg s.db object
  permitted_user (alter_object_schema objtype object) s = false
  permitted_user (create_policy table) s = allows (policy_granted pg cfg table s).0
  permitted_user (alter_policy table) s = allows (policy_granted pg cfg table s).0
  permitted_user (drop (drop_extensions names)) s = all_offered pg cfg s.db names
  permitted_user (drop objects) s = allows (drop_granted pg cfg objects s).0
  permitted_user (comment (on_policy object)) s =
      allows (policy_granted pg cfg (all_but_last object) s).0
  permitted_user (comment on_other) s = false
  permitted_user (variable_set setting) s = may_set pg cfg setting s
  permitted_user (create_extension extname options) s = false
  permitted_user (create_event_trig trigname funcname) s = false
  permitted_user stmt s = has_privileged_role pg cfg s.db s.user_id

  -- CREATE EXTENSION runs its scripts as the superuser for every user; an event trigger is created
  -- so where its function's owner is a superuser just as the user is.
  unfoldable pub permitted_anyone : Stmt → Session pg.Db → Bool
  permitted_anyone (create_extension extname options) s = true
  permitted_anyone (create_event_trig trigname funcname) s = may_create_trigger pg cfg funcname s
  permitted_anyone stmt s = false

  -- May the statement be run as the superuser?
  abbrev pub permitted : Stmt → Session pg.Db → Bool
  permitted stmt s =
      permitted_anyone stmt s || not (pg.superuser_arg s.db s.user_id) && permitted_user stmt s
