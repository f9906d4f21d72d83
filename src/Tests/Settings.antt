-- ===== src/Tests/Settings.antt =====
-- The settings that are read from JSON texts, on concrete values.
use supautils.Prelude.{
  refl, ◌≡◌, ◌≤◌, ◌↔◌, ◌⊎◌, length, first, if◌then◌else◌, is_nil, true, false, none, some, Option,
  List, [], ◌∷◌, Any, CString, cstr, str_eq,
}
use supautils.Json.{
  Json, Reading, whole, object, array, scalar, field, no_fields, item, no_items, json_token_string,
  json_token_number, walk,
}
use supautils.Session.{Outcome, ◌>>=◌}
use supautils.Grants.{is_current_role_granted_table_policy, is_role_granted, is_table_listed}
use supautils.Grants.Parser.{
  parse_policy_grants, sem, push_table, set_role, initial, run_actions, msg_scalar_for_array,
}
use supautils.Grants.Tables.{Grant}
use supautils.Grants.Bounds.{FewTables, parse_policy_grants-overrun}
use supautils.Grants.ReadBack.{IsClean, entries, written}
use supautils.Grants.Setting.{
  GrantsSetting, zeroed, clear_grants, clear_tables, finish_check, policy_grants_check_hook,
}
use supautils.Grants.Setting.Reloads.{
  Reached, at_start, set_to, grants_of_value, policy_grants_check_hook_iff, Reached-IsClean,
  policy_grants_check_hook-entries,
}
use supautils.Grants.Setting.Leak.{half_right, right, rejected_value_leaks}
use supautils.Grants.EndToEnd.{GrantFor, policy_granted_by_document}
use supautils.Constrained.{ℤ, pos, ConstrainedExtension}
use supautils.Constrained.Limits.{limit_cpu, limit_of_scalar}
use supautils.Constrained.Documents.{Constraint}
use supautils.Constrained.Setting.{
  ConstrainedSetting, constrained_extensions_check_hook, constrained_extensions_assign_hook,
}
use supautils.Constrained.Setting.Values as Limits
use supautils.Overrides.{ExtensionParameterOverrides}
use supautils.Overrides.Schemas.{Override}
use supautils.Overrides.Setting.{
  OverridesSetting, extensions_parameter_overrides_check_hook,
  extensions_parameter_overrides_assign_hook,
}
use supautils.Overrides.Setting.Values as Schemas
use supautils.Tests.Demo.{demo, user}

-- { "user" : [ "tables" ] }
abbrev one_table : Json
one_table = object (
    field (cstr "user") (array (item (scalar json_token_string (cstr "tables")) no_items))
      no_fields)

abbrev read_grants : CString → Reading
read_grants s = whole one_table

abbrev one_grant : List Grant
one_grant = (cstr "user", cstr "tables" ∷ []) ∷ []

zeroed-IsClean : IsClean 0 zeroed.pgs
zeroed-IsClean = record { at = λ i h. refl }

parse_policy_grants-overrun_example :
    ((parse_policy_grants read_grants [] zeroed.pgs).overrun ≡ false)
    ↔ ((length one_grant ≤ 100) × FewTables one_grant)
parse_policy_grants-overrun_example =
    parse_policy_grants-overrun read_grants [] zeroed.pgs one_table one_grant zeroed-IsClean refl
      refl

policy_grants_check_hook_iff_example :
    let (e, t) = policy_grants_check_hook read_grants (some []) zeroed in
    ((e ≡ none) ↔ ((gs : List Grant) × (grants_of_value read_grants (some []) ≡ some gs)))
    × ((e ≡ none) ⊎ (t.total_pgs ≡ 0))
policy_grants_check_hook_iff_example = policy_grants_check_hook_iff read_grants (some []) zeroed

value_taken : (policy_grants_check_hook read_grants (some []) zeroed).0 ≡ none
unfolding policy_grants_check_hook finish_check clear_grants clear_tables parse_policy_grants
    run_actions initial sem set_role push_table walk
value_taken = refl

abbrev once_set : GrantsSetting
once_set = (policy_grants_check_hook read_grants (some []) zeroed).1

once_set-Reached : Reached read_grants once_set
once_set-Reached = set_to (some []) at_start value_taken

Reached-IsClean_example : IsClean once_set.total_pgs once_set.pgs
Reached-IsClean_example = Reached-IsClean read_grants once_set-Reached

policy_grants_check_hook-entries_example :
    let t = (policy_grants_check_hook read_grants (some []) once_set).1 in
    entries t.total_pgs t.pgs ≡ written one_grant
policy_grants_check_hook-entries_example =
    policy_grants_check_hook-entries read_grants (some []) one_grant once_set-Reached refl

-- The empty text is the first value, any other one the second.
abbrev read_two : CString → Reading
read_two s =
    if is_nil s
    then half_right (cstr "api") (cstr "secrets") (cstr "anon") (cstr "1")
    else right (cstr "user") (cstr "tables")

rejected_value_leaks_example :
    let before = policy_grants_check_hook read_two (some []) zeroed in
    let after = policy_grants_check_hook read_two (some (cstr "x")) before.1 in
    (before.0 ≡ some msg_scalar_for_array)
    × (after.0 ≡ none)
    × (entries after.1.total_pgs after.1.pgs
        ≡ (some (cstr "user"), some (cstr "secrets") ∷ some (cstr "tables") ∷ []) ∷ [])
rejected_value_leaks_example =
    rejected_value_leaks read_two [] (cstr "x") (cstr "api") (cstr "secrets") (cstr "anon")
      (cstr "1") (cstr "user") (cstr "tables") refl refl

lookup_says_yes :
    let t = (policy_grants_check_hook read_grants (some []) zeroed).1 in
    (is_current_role_granted_table_policy demo (cstr "tables" ∷ []) t.pgs t.total_pgs (user 20)).0
    ≡ Outcome.ok true
unfolding policy_grants_check_hook finish_check clear_grants clear_tables parse_policy_grants
    run_actions initial sem set_role push_table walk is_current_role_granted_table_policy
    is_role_granted is_table_listed str_eq ◌>>=◌
lookup_says_yes = refl

policy_granted_by_document_example : Any (GrantFor demo tt (cstr "user") 1) one_grant
policy_granted_by_document_example =
    policy_granted_by_document demo read_grants (some []) one_grant (user 20) (cstr "tables" ∷ []) 1
      (cstr "user") at_start refl refl refl lookup_says_yes

-- { "vector" : { "cpu" : 2 } }
abbrev pub one_limit : Json
one_limit = object (
    field (cstr "vector")
      (object (field (cstr "cpu") (scalar json_token_number (cstr "2")) no_fields)) no_fields)

abbrev pub read_limits : CString → Reading
read_limits s = whole one_limit

-- Sizes are 512 bytes, and numbers are 2.
abbrev pub two : CString → ℤ
two token = pos 2

abbrev pub half_kb : CString → Option ℤ
half_kb token = some (pos 512)

abbrev pub no_limits : ConstrainedExtension
no_limits = record { name = none; cpu = pos 0; mem = 0; disk = 0 }

abbrev pub cexts_zeroed : ConstrainedSetting
cexts_zeroed = record { cexts = λ i. no_limits; total_cexts = 0; overrun = false }

abbrev pub vector_limits : List Constraint
vector_limits = (cstr "vector", limit_cpu (pos 2) ∷ []) ∷ []

constrained_extensions_check_hook_iff_example :
    ((constrained_extensions_check_hook read_limits two half_kb (some []) cexts_zeroed).0 ≡ none)
    ↔ ((cs : List Constraint) × (Limits.constraints_of_value two half_kb read_limits (some [])
          ≡ some cs))
constrained_extensions_check_hook_iff_example =
    Limits.constrained_extensions_check_hook_iff read_limits two half_kb cexts_zeroed (some [])

pub limits_read : Limits.constraints_of_value two half_kb read_limits (some []) ≡ some vector_limits
unfolding limit_of_scalar str_eq
limits_read = refl

constrained_extensions_assign_hook-first_example :
    let (e, t) =
      constrained_extensions_assign_hook read_limits two half_kb (some []) cexts_zeroed in
    (e ≡ none)
    × (first t.total_cexts t.cexts
        ≡ record { name = some (cstr "vector"); cpu = pos 2; mem = 0; disk = 0 } ∷ [])
constrained_extensions_assign_hook-first_example =
    Limits.constrained_extensions_assign_hook-first read_limits two half_kb cexts_zeroed (some [])
      vector_limits (record { at = λ i h. refl }) limits_read

-- { "hstore" : { "schema" : "extensions" } }
abbrev pub one_schema : Json
one_schema = object (
    field (cstr "hstore")
      (object (field (cstr "schema") (scalar json_token_string (cstr "extensions")) no_fields))
      no_fields)

abbrev pub read_schemas : CString → Reading
read_schemas s = whole one_schema

abbrev pub no_schema : ExtensionParameterOverrides
no_schema = record { name = none; schema = none }

abbrev pub epos_zeroed : OverridesSetting
epos_zeroed = record { epos = λ i. no_schema; total_epos = 0; overrun = false }

abbrev pub hstore_schema : List Override
hstore_schema = (cstr "hstore", cstr "extensions" ∷ []) ∷ []

extensions_parameter_overrides_check_hook_iff_example :
    ((extensions_parameter_overrides_check_hook read_schemas (some []) epos_zeroed).0 ≡ none)
    ↔ ((l : List Override) × (Schemas.overrides_of_value read_schemas (some []) ≡ some l))
extensions_parameter_overrides_check_hook_iff_example =
    Schemas.extensions_parameter_overrides_check_hook_iff read_schemas epos_zeroed (some [])

pub schemas_read : Schemas.overrides_of_value read_schemas (some []) ≡ some hstore_schema
unfolding str_eq
schemas_read = refl

extensions_parameter_overrides_assign_hook-first_example :
    let (e, t) = extensions_parameter_overrides_assign_hook read_schemas (some []) epos_zeroed in
    (e ≡ none)
    × (first t.total_epos t.epos
        ≡ record { name = some (cstr "hstore"); schema = some (cstr "extensions") } ∷ [])
extensions_parameter_overrides_assign_hook-first_example =
    Schemas.extensions_parameter_overrides_assign_hook-first read_schemas epos_zeroed (some [])
      hstore_schema (record { at = λ i h. refl }) schemas_read
