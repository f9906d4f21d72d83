-- ===== src/Hook/Restores/RoleCases.antt =====
-- Statements about roles keep the role that runs them.
use supautils.Prelude.{◌≡◌, true, Bool, Option, List, [], ◌∷◌, CString}
use supautils.Statements.{Stmt, RoleSpec, DefElem, ObjectType, object_role}
use supautils.Session.Keeps.{Keeps, Keeps-bind, Keeps-raise_if, keeps_rules}
use supautils.Server.{Server}
use supautils.Config.{Config}
use supautils.Roles.Closes.{run_as_superuser-Keeps}
use supautils.Roles.Switch.{RestoresRole, is_create, run_process_utility_hook-Keeps}
use supautils.Hook.RoleStmts.{
  rolespec_name, alter_role_stmt, alter_role_set_stmt, gather_options, Memberships, confirm,
  confirm_specs, run_create_role, create_role_stmt, drop_role_stmt, confirm_names, check_grantees,
  grant_role_stmt, rename_checks, rename_stmt,
}

module _ (pg : Server) (cfg : Config) (restores : RestoresRole pg) where
  rolespec_name-Keeps : (role : RoleSpec) → Keeps (rolespec_name pg cfg role)
  unfolding rolespec_name
  rolespec_name-Keeps role = search keeps_rules

  pub alter_role_stmt-Keeps :
      (role : RoleSpec) (options : List DefElem) → Keeps (alter_role_stmt pg cfg role options)
  unfolding alter_role_stmt
  alter_role_stmt-Keeps role options =
      search (keeps_rules, run_as_superuser-Keeps pg restores.restricted) depth 30

  pub alter_role_set_stmt-Keeps :
      (role : Option RoleSpec) (setting : Option CString)
      → Keeps (alter_role_set_stmt pg cfg role setting)
  unfolding alter_role_set_stmt
  alter_role_set_stmt-Keeps role setting =
      search (keeps_rules, run_as_superuser-Keeps pg restores.restricted) depth 30

  gather_options-Keeps :
      (options : List DefElem) (m : Memberships) → Keeps (gather_options pg cfg options m)
  unfolding gather_options
  gather_options-Keeps [] m = search keeps_rules
  gather_options-Keeps (defel ∷ options) m =
      search (keeps_rules, gather_options-Keeps options) depth 10

  confirm-Keeps : (target : CString) → Keeps (confirm pg cfg target)
  unfolding confirm
  confirm-Keeps target = search keeps_rules

  confirm_specs-Keeps : (l : List RoleSpec) → Keeps (confirm_specs pg cfg l)
  unfolding confirm_specs
  confirm_specs-Keeps [] = search keeps_rules
  confirm_specs-Keeps (r ∷ l) =
      Keeps-bind _ _ (rolespec_name-Keeps r)
        λ name. Keeps-bind _ _ (confirm-Keeps name) λ _. confirm_specs-Keeps l

  run_create_role-Keeps :
      (stmt : Stmt) → is_create stmt ≡ true → Keeps (run_create_role pg cfg stmt)
  unfolding run_create_role
  run_create_role-Keeps stmt c =
      let k = run_process_utility_hook-Keeps pg restores stmt c in
      search (keeps_rules, run_as_superuser-Keeps pg restores.restricted) depth 10

  pub create_role_stmt-Keeps :
      (role : CString) (options : List DefElem) → Keeps (create_role_stmt pg cfg role options)
  unfolding create_role_stmt
  create_role_stmt-Keeps role options =
      search (keeps_rules, gather_options-Keeps, confirm_specs-Keeps, run_create_role-Keeps) depth
        30

  pub drop_role_stmt-Keeps : (roles : List RoleSpec) → Keeps (drop_role_stmt pg cfg roles)
  unfolding drop_role_stmt
  drop_role_stmt-Keeps roles = search keeps_rules depth 20

  confirm_names-Keeps : (l : List CString) → Keeps (confirm_names pg cfg l)
  unfolding confirm_names
  confirm_names-Keeps [] = search keeps_rules
  confirm_names-Keeps (x ∷ l) = Keeps-bind _ _ (confirm-Keeps x) λ _. confirm_names-Keeps l

  check_grantees-Keeps : (b : Bool) (l : List RoleSpec) → Keeps (check_grantees pg cfg b l)
  unfolding check_grantees
  check_grantees-Keeps b [] = search keeps_rules
  check_grantees-Keeps b (x ∷ l) =
      Keeps-bind _ _ (rolespec_name-Keeps x)
        λ name. Keeps-bind _ _ (Keeps-raise_if _ _) λ _. check_grantees-Keeps b l

  pub grant_role_stmt-Keeps :
      (b : Bool) (granted : List CString) (grantees : List RoleSpec)
      → Keeps (grant_role_stmt pg cfg b granted grantees)
  unfolding grant_role_stmt
  grant_role_stmt-Keeps b granted grantees =
      search (keeps_rules, confirm_names-Keeps, check_grantees-Keeps) depth 20

  rename_checks-Keeps : (t : ObjectType) (a b : CString) → Keeps (rename_checks pg cfg t a b)
  unfolding rename_checks
  rename_checks-Keeps object_role a b = search keeps_rules
  rename_checks-Keeps _ a b = search keeps_rules

  pub rename_stmt-Keeps : (t : ObjectType) (a b : CString) → Keeps (rename_stmt pg cfg t a b)
  rename_stmt-Keeps t a b = unfold rename_stmt in search (keeps_rules, rename_checks-Keeps) depth 20
