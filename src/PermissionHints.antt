-- ===== src/PermissionHints.antt =====
-- src/permission_hints.c: which privilege a failed query lacked.
pub mod Missing
pub mod Executor
pub mod Search
pub mod Hints
use supautils.Prelude.{
  ℕ, zero, suc, ◌+◌, ◌*◌, ◌-◌, ◌/◌, ◌%◌, leb, ltb, ◌&&◌, not, Bool, true, false, List, [], ◌∷◌,
  ◌++◌, ◌==◌, is_nil, CString, cstr, if◌then◌else◌,
}
use supautils.Constrained.{ℤ, pos, negsuc}

-- The privileges of `AclMode`, as Postgres numbers them.
abbrev pub acl_insert : ℕ
acl_insert = 1

abbrev pub acl_select : ℕ
acl_select = 2

abbrev pub acl_update : ℕ
acl_update = 4

abbrev pub acl_delete : ℕ
acl_delete = 8

-- `acl & bit`, at one of the privileges above, as a condition
unfoldable pub has_acl : ℕ → ℕ → Bool
has_acl acl bit = (acl / bit) % 2 == 1

-- `acl & ~bit`, at one of the privileges above
unfoldable pub without_acl : ℕ → ℕ → ℕ
unfolding has_acl
without_acl acl bit = if has_acl acl bit then acl - bit else acl

-- `a & ~b` on numbers of `n` binary digits, lowest digit first
unfoldable pub and_not : ℕ → ℕ → ℕ → ℕ
and_not zero a b = 0
and_not (suc n) a b =
    let rest = and_not n (a / 2) (b / 2) in rest * 2 + (if b % 2 == 1 then 0 else a % 2)

-- One turn of the loop over `privilege_map`.
unfoldable pub append_privilege : ℕ → ℕ → CString → CString → CString
unfolding has_acl
append_privilege missing_acl acl name buf =
    if has_acl missing_acl acl
    then if not (is_nil buf) then buf ++ (cstr ", " ++ name) else buf ++ name
    else buf

unfoldable pub build_privileges_string : CString → ℕ → CString
build_privileges_string buf missing_acl = append_privilege missing_acl acl_delete (cstr "DELETE") (
    append_privilege missing_acl acl_update (cstr "UPDATE") (
      append_privilege missing_acl acl_insert (cstr "INSERT")
        (append_privilege missing_acl acl_select (cstr "SELECT") buf)))

-- The members of `RTEPermissionInfo`, or of `RangeTblEntry` before Postgres 16, that the code
-- reads. A `Bitmapset` is the list of its members in their order, the empty list where it is NULL.
pub record PermissionInfo : Type 0 where
  pub relid : ℕ
  pub check_as_user : ℕ
  pub required_perms : ℕ
  pub selected_cols : List ℕ
  pub inserted_cols : List ℕ
  pub updated_cols : List ℕ

pub record PlannedStmt : Type 0 where
  pub rtable : List PermissionInfo
  pub perm_infos : List PermissionInfo

-- `missing_perm`
pub record MissingPerm : Type 0 where
  pub relid : ℕ
  pub acl : ℕ

-- What Postgres says of the privileges on the catalogs of the moment. The statement has locked its
-- relations by then, so the calls find them and raise no error.
pub record Privileges : Type 0 where
  -- `pg_attribute_aclcheck_all(_, _, _, ACLMASK_ANY) == ACLCHECK_OK` and with `ACLMASK_ALL`
  pub attribute_aclcheck_any : (relid userid perms : ℕ) → Bool
  pub attribute_aclcheck_all : (relid userid perms : ℕ) → Bool
  pub attribute_aclcheck : (relid : ℕ) → ℤ → (userid perms : ℕ) → Bool
  -- `pg_class_aclmask(_, _, _, ACLMASK_ALL)`
  pub class_aclmask : (relid userid perms : ℕ) → ℕ
  -- the constant `FirstLowInvalidHeapAttributeNumber`, which is negative, without its sign
  pub first_low_invalid : ℕ

-- `col + FirstLowInvalidHeapAttributeNumber`. Column numbers of Postgres fit an `AttrNumber`.
unfoldable pub attno : ℕ → ℕ → ℤ
attno first_low_invalid col =
    if leb first_low_invalid col
    then pos (col - first_low_invalid)
    else negsuc (first_low_invalid - col - 1)

abbrev pub is_invalid_attr_number : ℤ → Bool
is_invalid_attr_number (pos n) = n == 0
is_invalid_attr_number (negsuc n) = false

module _ (acls : Privileges) where
  open acls use {
    attribute_aclcheck_any, attribute_aclcheck_all, attribute_aclcheck, class_aclmask,
    first_low_invalid,
  }

  -- The test on one column.
  unfoldable pub column_allowed : ℕ → ℕ → ℕ → ℕ → Bool
  unfolding attno
  column_allowed relid userid required_perms col =
      if is_invalid_attr_number (attno first_low_invalid col) && required_perms == acl_select
      then attribute_aclcheck_all relid userid required_perms
      else attribute_aclcheck relid (attno first_low_invalid col) userid required_perms

  -- The loop over the members, which returns at the first column that is not allowed.
  unfoldable pub columns_allowed : ℕ → ℕ → ℕ → List ℕ → Bool
  unfolding column_allowed
  columns_allowed relid userid required_perms [] = true
  columns_allowed relid userid required_perms (col ∷ cols) =
      let rest = columns_allowed relid userid required_perms cols in
      if not (column_allowed relid userid required_perms col) then false else rest

  unfoldable pub has_column_perms : ℕ → ℕ → List ℕ → ℕ → Bool
  has_column_perms relid userid cols required_perms =
      if is_nil cols
      then attribute_aclcheck_any relid userid required_perms
      else columns_allowed relid userid required_perms cols

  -- One of the three tests that take a privilege out of the missing ones.
  unfoldable pub check_columns : PermissionInfo → ℕ → List ℕ → ℕ → ℕ → ℕ
  unfolding has_acl without_acl
  check_columns info userid cols bit missing_perms =
      if has_acl missing_perms bit && has_column_perms info.relid userid cols bit
      then without_acl missing_perms bit
      else missing_perms

  -- `checkAsUser` where it is a role, the current role otherwise
  unfoldable pub checked_user : PermissionInfo → ℕ → ℕ
  checked_user info current_role_oid =
      if not (info.check_as_user == 0) then info.check_as_user else current_role_oid

  -- `requiredPerms & ~rel_perm`; an `AclMode` has 64 digits, and 32 before Postgres 16.
  unfoldable pub missing_table_perms : PermissionInfo → ℕ → ℕ
  unfolding and_not
  missing_table_perms info userid =
      and_not 64 info.required_perms (class_aclmask info.relid userid info.required_perms)

  unfoldable pub get_missing_aclmode : PermissionInfo → ℕ → ℕ
  unfolding checked_user missing_table_perms check_columns
  get_missing_aclmode info current_role_oid =
      let userid = checked_user info current_role_oid in
      let missing_perms = missing_table_perms info userid in
      let select = check_columns info userid info.selected_cols acl_select missing_perms in
      let insert = check_columns info userid info.inserted_cols acl_insert select in
      check_columns info userid info.updated_cols acl_update insert

  -- The loop, with the `continue` of the versions before Postgres 16, where `skips` is true.
  unfoldable pub first_missing : Bool → List PermissionInfo → ℕ → MissingPerm
  first_missing skips [] current_role_oid = record { relid = 0; acl = 0 }
  first_missing skips (info ∷ infos) current_role_oid =
      let rest = first_missing skips infos current_role_oid in
      if skips && info.relid == 0
      then rest
      else if not (get_missing_aclmode info current_role_oid == 0)
      then record { relid = info.relid; acl = get_missing_aclmode info current_role_oid }
      else rest

  -- `pg_version_num` is that of the build.
  unfoldable pub find_missing_perm : ℕ → PlannedStmt → ℕ → MissingPerm
  unfolding first_missing
  find_missing_perm pg_version_num ps current_role_oid =
      if ltb pg_version_num 160000
      then first_missing true ps.rtable current_role_oid
      else first_missing false ps.perm_infos current_role_oid
