-- ===== src/Utils.antt =====
-- src/utils.c: the string helpers on the comma-separated settings. `SplitIdentifierString` is
-- Postgres code: these definitions take the list that it returns.
pub mod Wildcard
use supautils.Prelude.{
  ℕ, ◌-◌, Bool, true, false, ◌&&◌, ◌||◌, Option, none, some, List, [], ◌∷◌, ltb, ◌==◌,
  if◌then◌else◌, length, get_or, take, CString, str_eq,
}

-- `strncmp(str, prefix, strlen(prefix)) == 0`
unfoldable pub strstarts : CString → CString → Bool
strstarts str [] = true
strstarts [] (p ∷ prefix) = false
strstarts (c ∷ str) (p ∷ prefix) = c == p && strstarts str prefix

-- The string is changed in place: the result is the flag and the string afterwards. No caller
-- passes NULL.
unfoldable pub remove_ending_wildcard : CString → Bool × CString
remove_ending_wildcard elem =
    let elem_size = length elem in
    if ltb 1 elem_size && get_or elem (elem_size - 1) 0 == b'*'
    then (true, take (elem_size - 1) elem)
    else (false, elem)

-- The body of the loop of `is_string_in_comma_delimited_string`, on one element.
unfoldable pub matches_elem : CString → CString → Bool
matches_elem s1 elem =
    let (wildcard, s2_elem) = remove_ending_wildcard elem in
    (wildcard && strstarts s1 s2_elem) || str_eq s1 s2_elem

-- The loop, which `break`s at the first match.
unfoldable pub is_in_split : CString → List CString → Bool
is_in_split s1 [] = false
is_in_split s1 (elem ∷ split_s2) = if matches_elem s1 elem then true else is_in_split s1 split_s2

-- The list that `SplitIdentifierString` fills is used whether it reports success or not.
unfoldable pub is_string_in_comma_delimited_string :
    (CString → Bool × List CString) → Option CString → Option CString → Bool
is_string_in_comma_delimited_string split none s2 = false
is_string_in_comma_delimited_string split (some s1) none = false
is_string_in_comma_delimited_string split (some s1) (some s2) = is_in_split s1 (split s2).1
