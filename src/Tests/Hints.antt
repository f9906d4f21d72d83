-- ===== src/Tests/Hints.antt =====
-- The hints of permission errors, on a query that selects from a relation without the privilege.
use supautils.Prelude.{
  if◌then◌else◌, refl, ◌≡◌, ◌&&◌, none, some, true, false, [], ◌∷◌, cstr, str_eq,
}
use supautils.Reserved.{is_hint_role, find_name}
use supautils.PermissionHints.{
  Privileges, PermissionInfo, PlannedStmt, has_acl, acl_select, acl_insert, acl_update, acl_delete,
  get_missing_aclmode, find_missing_perm, has_column_perms, columns_allowed,
}
use supautils.PermissionHints.Missing.{
  in_acl, lacks_on_table, lacks_on_columns, get_missing_aclmode-has_acl,
}
use supautils.PermissionHints.Search.{FirstMissing, find_missing_perm-FirstMissing}
use supautils.PermissionHints.Executor.{
  ErrorData, HintServer, Executor, insufficient_privilege, supautils_executor_start,
}
use supautils.PermissionHints.Hints.{
  SameButHint, privileges_of, comma_separated, suggests, suggested,
  build_privileges_string-comma_separated, supautils_executor_start-SameButHint,
  supautils_executor_start-hint,
}
use supautils.PermissionHints.{build_privileges_string}
use supautils.Tests.Demo.{demo, split_from, user}

-- Nobody has a privilege.
abbrev nothing_granted : Privileges
nothing_granted = record {
  attribute_aclcheck_any = λ relid userid perms. false;
  attribute_aclcheck_all = λ relid userid perms. false;
  attribute_aclcheck = λ relid col userid perms. false;
  class_aclmask = λ relid userid perms. 0;
  first_low_invalid = 7;
}

abbrev select_from : PermissionInfo
select_from = record {
  relid = 5;
  check_as_user = 0;
  required_perms = 2;
  selected_cols = 8 ∷ [];
  inserted_cols = [];
  updated_cols = [];
}

abbrev select_stmt : PlannedStmt
select_stmt = record { rtable = select_from ∷ []; perm_infos = [] }

get_missing_aclmode-has_acl_example :
    let table = lacks_on_table nothing_granted select_from 20 in
    let r = get_missing_aclmode nothing_granted select_from 20 in
    (in_acl r acl_select
      ≡ (table acl_select && lacks_on_columns nothing_granted select_from 20 (8 ∷ []) acl_select))
    × (in_acl r acl_insert
        ≡ (table acl_insert && lacks_on_columns nothing_granted select_from 20 [] acl_insert))
    × (in_acl r acl_update
        ≡ (table acl_update && lacks_on_columns nothing_granted select_from 20 [] acl_update))
    × (in_acl r acl_delete ≡ table acl_delete)
get_missing_aclmode-has_acl_example = get_missing_aclmode-has_acl nothing_granted select_from 20

find_missing_perm-FirstMissing_example :
    FirstMissing nothing_granted 20 true
      (select_from ∷ [])
      (find_missing_perm nothing_granted 150000 select_stmt 20)
find_missing_perm-FirstMissing_example =
    find_missing_perm-FirstMissing nothing_granted 20 150000 select_stmt

build_privileges_string-comma_separated_example :
    build_privileges_string [] 3 ≡ comma_separated (privileges_of 3)
build_privileges_string-comma_separated_example = build_privileges_string-comma_separated 3

abbrev denied : ErrorData Unit
denied = record { sqlerrcode = insufficient_privilege; hint = none; rest = tt }

abbrev names : HintServer Unit Unit
names = record {
  privileges = λ db. nothing_granted;
  get_rel_namespace = λ db relid. 2200;
  get_namespace_name = λ db oid. some (cstr "public");
  get_rel_name = λ db relid. some (cstr "secrets");
  quote_qualified_identifier = λ schema name. name;
  role_missing = denied;
}

abbrev fails : Executor demo names
fails ps eflags s = (some denied, s)

supautils_executor_start-SameButHint_example :
    let (e', t') =
      supautils_executor_start demo names (some (cstr "user")) fails select_stmt 0 (user 20) in
    (t' ≡ user 20) × SameButHint demo names e' (some denied)
supautils_executor_start-SameButHint_example =
    supautils_executor_start-SameButHint demo names (some (cstr "user")) fails select_stmt 0
      (user 20) (cstr "user") (cstr "user") refl refl

user_hinted :
    is_hint_role demo.split_identifier_string (some (cstr "user")) (some (cstr "user")) ≡ true
unfolding is_hint_role find_name split_from str_eq
user_hinted = refl

found_missing :
    find_missing_perm nothing_granted 150000 select_stmt 20 ≡ record { relid = 5; acl = 2 }
unfolding find_missing_perm get_missing_aclmode has_column_perms columns_allowed has_acl
found_missing = refl

supautils_executor_start-hint_example :
    let missing = find_missing_perm nothing_granted 150000 select_stmt 20 in
    (supautils_executor_start demo names (some (cstr "user")) fails select_stmt 0 (user 20)).0
    ≡ some (
        if suggests missing
        then suggested demo names denied missing tt (cstr "secrets") (cstr "user")
        else denied)
supautils_executor_start-hint_example =
    supautils_executor_start-hint demo names (some (cstr "user")) fails select_stmt 0 (user 20)
      (cstr "user") (cstr "user") denied (cstr "secrets") refl user_hinted refl refl
      (λ q. (refl, refl))
