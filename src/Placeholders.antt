-- ===== src/Placeholders.antt =====
-- src/supautils.c: the check hooks of `supautils.placeholders`, of the placeholders that it names,
-- and of the settings that are lists of names. `split` is Postgres's `SplitIdentifierString` at `,`,
-- with its flag and the list that it fills, and `str_tolower` is Postgres's.
pub mod Meaning
use supautils.Prelude.{
  Bool, true, false, not, ◌||◌, ◌==◌, Option, none, some, List, [], ◌∷◌, ◌++◌, if◌then◌else◌,
  is_nil, CString,
}
use supautils.Utils.{strstarts}
use supautils.Reserved.{check_parameter}

-- What a check hook reports with level ERROR.
pub data HookError : Type 0 where
  not_a_list : HookError
  no_placeholder : HookError

-- The result of a check hook: true, false with the disallowed value in the message, or an error.
pub data Checked : Type 0 where
  allowed : Checked
  disallowed : CString → Checked
  refused : HookError → Checked

-- The inner loop over the bytes: does it see GUC_QUALIFIER_SEPARATOR?
unfoldable pub has_separator : CString → Bool
has_separator [] = false
has_separator (p ∷ ps) = p == b'.' || has_separator ps

-- The outer loop, with `saw_sep` at its end.
unfoldable pub saw_sep : List CString → Bool
saw_sep [] = false
saw_sep (cell ∷ cells) = has_separator cell || saw_sep cells

module _ (split : CString → Bool × List CString) where
  unfoldable pub placeholders_check_hook : Option CString → Checked
  placeholders_check_hook none = allowed
  placeholders_check_hook (some val) =
      let (is_list, comma_separated_list) = split val in
      if not is_list
      then refused not_a_list
      else if not (saw_sep comma_separated_list)
      then refused no_placeholder
      else allowed

  -- The check hooks of the lists of names: `reserved_roles_check_hook`,
  -- `reserved_memberships_check_hook`, `placeholders_disallowed_values_check_hook`,
  -- `privileged_extensions_check_hook`, `hint_roles_check_hook` and
  -- `privileged_role_allowed_configs_check_hook`, which differ in the setting's name alone.
  unfoldable pub names_check_hook : Option CString → Checked
  names_check_hook newval = if check_parameter split newval then allowed else refused not_a_list

-- `strsep(&string, ",")` until it returns NULL: the tokens between the commas, empty ones included.
-- `token` is what was passed since the last comma.
unfoldable pub strsep_from : CString → CString → List CString
strsep_from token [] = token ∷ []
strsep_from token (c ∷ string) =
    if c == b',' then token ∷ strsep_from [] string else strsep_from (token ++ c ∷ []) string

-- `strstr(haystack, needle) != NULL`
unfoldable pub strstr : CString → CString → Bool
strstr [] needle = strstarts [] needle
strstr (c ∷ haystack) needle = strstarts (c ∷ haystack) needle || strstr haystack needle

-- The loop over the tokens, which returns at the first one that it finds in the value.
unfoldable pub first_disallowed : CString → List CString → Checked
first_disallowed val [] = allowed
first_disallowed val (token ∷ tokens) =
    if strstr val token then disallowed token else first_disallowed val tokens

-- `disallowed_values` is `none` where it is NULL.
module _ (str_tolower : CString → CString) where
  unfoldable pub restrict_placeholders_check_hook : Option CString → Option CString → Checked
  unfolding first_disallowed strsep_from
  restrict_placeholders_check_hook none newval = allowed
  restrict_placeholders_check_hook (some values) none = allowed
  restrict_placeholders_check_hook (some values) (some newval) =
      if not (is_nil values)
      then first_disallowed (str_tolower newval) (strsep_from [] values)
      else allowed
