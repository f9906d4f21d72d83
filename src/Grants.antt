-- ===== src/Grants.antt =====
-- src/policy_grants.c: the tables whose policies a role may manage though it does not own them.
-- src/drop_trigger_grants.c is the same code under other names (DropTriggerGrants.antt).
pub mod Meaning
pub mod Parser
pub mod Tables
pub mod Documents
pub mod ReadBack
pub mod Bounds
pub mod EndToEnd
pub mod Setting
use supautils.Prelude.{
  ℕ, Bool, true, false, not, Option, none, some, List, [], ◌∷◌, ◌==◌, if◌then◌else◌, first, is_nil,
  CString, str_eq,
}
use supautils.Session.{
  Action, null_dereference, postgres_error, pure, raise, raise_if, gets, or_raise, ◌>>=◌, ◌>>◌,
}
use supautils.Server.{Server}

-- `policy_grants`; a member that was never set is NULL or 0.
pub record PolicyGrants : Type 0 where
  pub role_name : Option CString
  pub table_names : ℕ → Option CString
  pub total_tables : ℕ

module _ (pg : Server) where
  open pg use {Db, get_user_name, make_range_var, string_to_qualified_names, range_var_get_relid}
  open pg use {RangeVar}

  -- `RangeVarGetRelid`; the locks that it takes are not modelled.
  relid_of : RangeVar → Action Db ℕ
  relid_of rv = do db ← gets (λ s. s.db); or_raise (range_var_get_relid db rv) postgres_error

  -- The inner loop. Each `continue` goes on with the rest of the list.
  unfoldable pub is_table_listed : ℕ → List (Option CString) → Action Db Bool
  unfolding relid_of
  is_table_listed target_table_id [] = pure false
  is_table_listed target_table_id (none ∷ table_names) = raise null_dereference
  is_table_listed target_table_id (some table_name ∷ table_names) =
      let rest = is_table_listed target_table_id table_names in
      do
        qual_name_list ← or_raise (string_to_qualified_names table_name) postgres_error
        if is_nil qual_name_list then rest else do
          range_var ← or_raise (make_range_var qual_name_list) postgres_error
          table_id ← relid_of range_var
          if table_id == 0 then rest else if table_id == target_table_id then pure true else rest

  -- The outer loop, over the grants in the array.
  unfoldable pub is_role_granted : ℕ → CString → List PolicyGrants → Action Db Bool
  is_role_granted target_table_id current_role_name [] = pure false
  is_role_granted target_table_id current_role_name (g ∷ pgs) =
      let rest = is_role_granted target_table_id current_role_name pgs in
      do
        role_name ← or_raise g.role_name null_dereference
        if not (str_eq role_name current_role_name) then rest else do
          listed ← is_table_listed target_table_id (first g.total_tables g.table_names)
          if listed then pure true else rest

  unfoldable pub is_current_role_granted_table_policy :
      RangeVar → (ℕ → PolicyGrants) → ℕ → Action Db Bool
  unfolding relid_of
  is_current_role_granted_table_policy table_range_var pgs total_pgs = do
    target_table_id ← relid_of table_range_var
    raise_if (target_table_id == 0) postgres_error
    name ← gets (λ s. get_user_name s.db s.user_id)
    current_role_name ← or_raise name postgres_error
    is_role_granted target_table_id current_role_name (first total_pgs pgs)
