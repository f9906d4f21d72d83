-- ===== src/Grants/Setting/Leak.antt =====
-- What a value that the check hook does not take leaves behind in the arrays.
use supautils.Prelude.{◌≡◌, refl, Option, none, some, [], ◌∷◌, CString}
use supautils.Json.{
  Reading, whole, object, array, scalar, field, no_fields, item, no_items, json_token_string,
  json_token_number, walk,
}
use supautils.Grants.Parser.{
  ErrorMsg, msg_scalar_for_array, parse_policy_grants, sem, push_table, set_role, initial,
  run_actions,
}
use supautils.Grants.ReadBack.{entries}
use supautils.Grants.Setting.{
  GrantsSetting, zeroed, clear_grants, clear_tables, finish_check, policy_grants_check_hook,
}

-- { role : [ table ], other : token }, with a number, which is turned down at its second field
abbrev pub half_right : CString → CString → CString → CString → Reading
half_right role table other token = whole (
    object (
      field role (array (item (scalar json_token_string table) no_items))
        (field other (scalar json_token_number token) no_fields)))

-- { role : [ table ] }
abbrev pub right : CString → CString → Reading
right role table =
    whole (object (field role (array (item (scalar json_token_string table) no_items)) no_fields))

module _ (read_json : CString → Reading) (first_value second_value : CString)
    (role table other token role' table' : CString) where
  abbrev pub rejected : Option ErrorMsg × GrantsSetting
  rejected = policy_grants_check_hook read_json (some first_value) zeroed

  abbrev pub reloaded : Option ErrorMsg × GrantsSetting
  reloaded = policy_grants_check_hook read_json (some second_value) rejected.1

  -- Behind a value that is turned down at its second role, a value that grants one table to a role
  -- is taken; the role is then granted the first value's table too, of whatever role that was.
  pub rejected_value_leaks :
      read_json first_value ≡ half_right role table other token
      → read_json second_value ≡ right role' table'
      → (rejected.0 ≡ some msg_scalar_for_array)
        × (reloaded.0 ≡ none)
        × (entries reloaded.1.total_pgs reloaded.1.pgs
            ≡ (some role', some table ∷ some table' ∷ []) ∷ [])
  unfolding policy_grants_check_hook finish_check clear_grants clear_tables parse_policy_grants
      run_actions initial sem set_role push_table walk
  rejected_value_leaks h k = rw h (rw k (refl, refl, refl))
