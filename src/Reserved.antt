-- ===== src/Reserved.antt =====
-- src/supautils.c: the role lists of the settings `reserved_roles`, `reserved_memberships` and
-- `hint_roles`. `split` is Postgres's `SplitIdentifierString` at `,`: its flag, and the list that
-- it fills. A setting is `none` where its `char *` is NULL.
pub mod Meaning
use supautils.Prelude.{
  Bool, true, false, ◌&&◌, Option, none, some, List, [], ◌∷◌, if◌then◌else◌, CString, str_eq,
}
use supautils.Utils.{remove_ending_wildcard}

-- The loop of `is_reserved_role`; `continue` goes on with the rest of the list.
unfoldable pub is_reserved_in : CString → Bool → List CString → Bool
is_reserved_in target allow_configurable_roles [] = false
is_reserved_in target allow_configurable_roles (role ∷ reserved_roles_list) =
    let (is_configurable_role, reserved_role) = remove_ending_wildcard role in
    let should_modify_role = is_configurable_role && allow_configurable_roles in
    let rest = is_reserved_in target allow_configurable_roles reserved_roles_list in
    if str_eq target reserved_role then (if should_modify_role then rest else true) else rest

module _ (split : CString → Bool × List CString) where
  unfoldable pub is_reserved_role : Option CString → CString → Bool → Bool
  is_reserved_role none target allow_configurable_roles = false
  is_reserved_role (some reserved_roles) target allow_configurable_roles =
      is_reserved_in target allow_configurable_roles (split reserved_roles).1

-- The loops of `is_hint_role` and `confirm_reserved_memberships`: the element that is equal.
unfoldable pub find_name : CString → List CString → Option CString
find_name target [] = none
find_name target (x ∷ xs) = if str_eq target x then some x else find_name target xs

abbrev pub found : Option CString → Bool
found none = false
found (some x) = true

module _ (split : CString → Bool × List CString) where
  -- Built without `TEST_CORE`.
  unfoldable pub is_hint_role : Option CString → Option CString → Bool
  is_hint_role none target = false
  is_hint_role (some hint_roles) none = false
  is_hint_role (some hint_roles) (some target) = found (find_name target (split hint_roles).1)

  -- The reserved membership that the error names, where there is one.
  unfoldable pub confirm_reserved_memberships : Option CString → CString → Option CString
  confirm_reserved_memberships none target = none
  confirm_reserved_memberships (some reserved_memberships) target =
      find_name target (split reserved_memberships).1

  -- The flag of a parameter check: false where the code raises "must be a comma-separated list".
  unfoldable pub check_parameter : Option CString → Bool
  check_parameter none = true
  check_parameter (some val) = (split val).0
