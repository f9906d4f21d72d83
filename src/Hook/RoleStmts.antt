-- ===== src/Hook/RoleStmts.antt =====
-- The cases of `supautils_hook` in src/supautils.c for statements about roles.
use supautils.Prelude.{
  ℕ, leb, Bool, true, false, not, ◌&&◌, ◌||◌, Option, none, some, List, [], ◌∷◌, if◌then◌else◌,
  cstr, CString, str_eq,
}
use supautils.Statements.{
  RoleSpec, RoleSpecType, rolespec_cstring, DefElem, DefArg, roles_arg, ObjectType, object_role,
  Stmt,
}
use supautils.Statements
use supautils.Session.{
  Error, Action, reserved_role, reserved_membership, privileged_role_altered, superuser_attribute,
  superuser_attribute_created, postgres_error, null_dereference, pure, gets, or_raise, break_if,
  raise_if, check, when, return_from_hook, ◌>>=◌, ◌>>◌,
}
use supautils.Server.{Server}
use supautils.Config.{Config}
use supautils.Roles.{run_as_superuser, run_process_utility_hook}
use supautils.Privileges.{
  superuser, in_transaction, is_current_role_privileged, is_role_privileged, is_reserved_role,
  confirm_reserved_memberships,
}
use supautils.Utils.{is_string_in_comma_delimited_string}

-- Does a list of options have one of this name?
unfoldable pub has_option : CString → List DefElem → Bool
has_option name [] = false
has_option name (defel ∷ options) = str_eq defel.defname name || has_option name options

-- What the loop over the options of CREATE ROLE gathers.
pub record Memberships : Type 0 where
  pub addroleto : List RoleSpec
  pub hasrolemembers : Bool

abbrev roles_of : DefArg → List RoleSpec
roles_of (roles_arg l) = l
roles_of _ = []

-- `OidIsValid` of an OID looked up with missing_ok
abbrev is_found : Option ℕ → Bool
is_found none = false
is_found (some oid) = true

abbrev pub is_cstring : RoleSpecType → Bool
is_cstring rolespec_cstring = true
is_cstring _ = false

module _ (pg : Server) (cfg : Config) where
  open pg use {Db, get_rolespec_name, get_role_oid, def_get_boolean, pg_version_num}
  open pg use {split_identifier_string}

  unfoldable pub rolespec_name : RoleSpec → Action Db CString
  rolespec_name role = do
    name ← gets (λ s. get_rolespec_name s.db s.user_id role)
    or_raise name postgres_error

  -- ALTER ROLE
  unfoldable pub alter_role_stmt : RoleSpec → List DefElem → Action Db Unit
  unfolding rolespec_name
  alter_role_stmt role options =
      let stmt = Statements.alter_role role options in
      do
        active ← in_transaction pg
        break_if (not active) stmt
        super ← superuser pg
        break_if super stmt
        role_name ← rolespec_name role
        raise_if (is_reserved_role pg cfg role_name false) (reserved_role role_name)
        privileged ← is_current_role_privileged pg cfg
        break_if (not privileged) stmt
        target_privileged ← gets (λ s. is_role_privileged pg cfg role_name s.db)
        raise_if target_privileged privileged_role_altered
        raise_if (has_option (cstr "superuser") options) superuser_attribute
        run_as_superuser pg cfg.supautils_superuser stmt
        return_from_hook

  -- ALTER ROLE .. SET. The role is NULL for ALTER ROLE ALL, and `get_rolespec_name` follows it.
  unfoldable pub alter_role_set_stmt : Option RoleSpec → Option CString → Action Db Unit
  unfolding rolespec_name
  alter_role_set_stmt role setting =
      let stmt = Statements.alter_role_set role setting in
      let allowed =
        is_string_in_comma_delimited_string split_identifier_string setting
          cfg.privileged_role_allowed_configs in
      do
        active ← in_transaction pg
        break_if (not active) stmt
        super ← superuser pg
        break_if super stmt
        role_is_privileged ← is_current_role_privileged pg cfg
        spec ← or_raise role null_dereference
        role_name ← rolespec_name spec
        raise_if (is_reserved_role pg cfg role_name role_is_privileged) (reserved_role role_name)
        break_if (not role_is_privileged) stmt
        break_if (not allowed) stmt
        run_as_superuser pg cfg.supautils_superuser stmt
        return_from_hook

  -- `defGetBoolean(defel)` of the SUPERUSER option, and the error where it holds.
  unfoldable pub forbid_superuser : DefElem → Action Db Unit
  forbid_superuser defel = do
    super ← or_raise (def_get_boolean defel) postgres_error
    raise_if super superuser_attribute_created

  -- The loop over the options of CREATE ROLE.
  unfoldable pub gather_options : List DefElem → Memberships → Action Db Memberships
  unfolding forbid_superuser
  gather_options [] m = pure m
  gather_options (defel ∷ options) m =
      let is = λ (name : CString). str_eq defel.defname name in
      do
        let addroleto = if is (cstr "addroleto") then roles_of defel.arg else m.addroleto
        let members = is (cstr "rolemembers") || is (cstr "adminmembers")
        when (is (cstr "superuser")) (forbid_superuser defel)
        gather_options options
            (record { addroleto = addroleto; hasrolemembers = members || m.hasrolemembers })

  -- `confirm_reserved_memberships`, with the error that it raises.
  unfoldable pub confirm : CString → Action Db Unit
  confirm target = check (elim (confirm_reserved_memberships pg cfg target) [
    | none ↦ none
    | some name ↦ some (reserved_membership name)
  ])

  unfoldable pub confirm_specs : List RoleSpec → Action Db Unit
  confirm_specs [] = pure tt
  confirm_specs (rolemember ∷ addroleto) = do
    name ← rolespec_name rolemember
    confirm name
    confirm_specs addroleto

  -- The end of the case: only before version 16 does a privileged role run it as the superuser.
  unfoldable pub run_create_role : Stmt → Action Db Unit
  run_create_role stmt = if leb 160000 pg_version_num then run_process_utility_hook pg stmt else do
    privileged ← is_current_role_privileged pg cfg
    if privileged
        then run_as_superuser pg cfg.supautils_superuser stmt
        else run_process_utility_hook pg stmt

  -- CREATE ROLE. From version 16 on the statement runs as the current user.
  unfoldable pub create_role_stmt : CString → List DefElem → Action Db Unit
  unfolding confirm run_create_role
  create_role_stmt created_role options =
      let stmt = Statements.create_role created_role options in
      do
        active ← in_transaction pg
        super ← superuser pg
        break_if (not (active && not super)) stmt
        existing ← gets (λ s. get_role_oid s.db created_role)
        break_if (is_found existing) stmt
        raise_if (is_reserved_role pg cfg created_role false) (reserved_role created_role)
        m ← gather_options options (record { addroleto = []; hasrolemembers = false })
        confirm_specs m.addroleto
        when m.hasrolemembers (confirm created_role)
        run_create_role stmt
        return_from_hook

  -- DROP ROLE. The loop ends at the first special role specifier.
  unfoldable pub drop_role_loop : List RoleSpec → Option Error
  drop_role_loop [] = none
  drop_role_loop (role ∷ roles) =
      if not (is_cstring role.roletype)
      then none
      else if is_reserved_role pg cfg role.rolename false
      then some (reserved_role role.rolename)
      else drop_role_loop roles

  unfoldable pub drop_role_stmt : List RoleSpec → Action Db Unit
  drop_role_stmt roles = do
    active ← in_transaction pg
    super ← superuser pg
    when (active && not super) (check (drop_role_loop roles))
    break_if true (Statements.drop_role roles)

  -- GRANT and REVOKE of roles. The loops over the granted roles and the grantees.
  unfoldable pub confirm_names : List CString → Action Db Unit
  confirm_names [] = pure tt
  confirm_names (priv_name ∷ granted_roles) = do confirm priv_name; confirm_names granted_roles

  unfoldable pub check_grantees : Bool → List RoleSpec → Action Db Unit
  check_grantees role_is_privileged [] = pure tt
  check_grantees role_is_privileged (spec ∷ grantee_roles) = do
    role_name ← rolespec_name spec
    raise_if (is_reserved_role pg cfg role_name role_is_privileged) (reserved_role role_name)
    check_grantees role_is_privileged grantee_roles

  -- What GRANT and REVOKE check in a transaction, where the user is no superuser.
  unfoldable pub grant_role_checks : Bool → List CString → List RoleSpec → Action Db Unit
  grant_role_checks is_grant granted_roles grantee_roles = do
    when is_grant (confirm_names granted_roles)
    role_is_privileged ← is_current_role_privileged pg cfg
    check_grantees role_is_privileged grantee_roles

  unfoldable pub grant_role_stmt : Bool → List CString → List RoleSpec → Action Db Unit
  unfolding grant_role_checks
  grant_role_stmt is_grant granted_roles grantee_roles = do
    active ← in_transaction pg
    super ← superuser pg
    when (active && not super) (grant_role_checks is_grant granted_roles grantee_roles)
    break_if true (Statements.grant_role is_grant granted_roles grantee_roles)

  -- RENAME of a role, on the old and the new name.
  unfoldable pub rename_checks : ObjectType → CString → CString → Action Db Unit
  rename_checks object_role subname newname = do
    raise_if (is_reserved_role pg cfg subname false) (reserved_role subname)
    raise_if (is_reserved_role pg cfg newname false) (reserved_role newname)
  rename_checks _ subname newname = pure tt

  unfoldable pub rename_stmt : ObjectType → CString → CString → Action Db Unit
  unfolding rename_checks
  rename_stmt rename_type subname newname = do
    active ← in_transaction pg
    super ← superuser pg
    when (active && not super) (rename_checks rename_type subname newname)
    break_if true (Statements.rename rename_type subname newname)
