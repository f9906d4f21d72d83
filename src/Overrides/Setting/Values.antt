-- ===== src/Overrides/Setting/Values.antt =====
-- Which values of the setting are taken, and what they put into the array.
use supautils.Prelude.{
  ◌≡◌, refl, ap, ◌∙◌, ◌↔◌, ℕ, true, Option, none, some, List, [], map, first, CString, arith,
}
use supautils.Json.{Reading, whole, broken}
use supautils.Json.Objects.{apply_all}
use supautils.Json.Arrays.{IsBlank, apply_all-first}
use supautils.Overrides.{ExtensionParameterOverrides}
use supautils.Overrides.Parser.{
  ParseState, parse_extensions_parameter_overrides, run_actions, initial,
}
use supautils.Overrides.Schemas.{Override, overrides_of, apply_override_of, has_msg, Failed}
use supautils.Overrides.Documents.{started, accepted, rejected, document_run}
use supautils.Overrides.Setting.Entries.{
  entry_of, entry_for, override-Fills, overrides-msg, entries_for,
}
use supautils.Overrides.Setting.{
  OverridesSetting, blank, clear_extensions_parameter_overrides,
  clear_extensions_parameter_overrides_array, finish_assign,
  extensions_parameter_overrides_check_hook, extensions_parameter_overrides_assign_hook,
}

-- The overrides that a value stands for, and `none` where it is no such document; NULL has no
-- overrides.
abbrev pub overrides_of_reading : Reading → Option (List Override)
overrides_of_reading (whole j) = overrides_of j
overrides_of_reading (broken es) = none

abbrev pub overrides_of_value : (CString → Reading) → Option CString → Option (List Override)
overrides_of_value read_json none = some []
overrides_of_value read_json (some val) = overrides_of_reading (read_json val)

-- What the parser makes of a text.
data TextRun (r : Reading) (epos : ℕ → ExtensionParameterOverrides) : Type 0 where
  takes :
      (l : List Override)
      → overrides_of_reading r ≡ some l
      → run_actions r (initial epos) ≡ apply_all apply_override_of l (started epos)
      → (run_actions r (initial epos)).error_msg ≡ none
      → TextRun r epos
  refuses :
      overrides_of_reading r ≡ none
      → has_msg (run_actions r (initial epos)).error_msg ≡ true
      → TextRun r epos

Failed-msg : (p : ParseState) → Failed p → has_msg p.error_msg ≡ true
Failed-msg p h = let k = h.is_failed in ground arith

text_run : (r : Reading) (epos : ℕ → ExtensionParameterOverrides) → TextRun r epos
unfolding run_actions
text_run (broken es) epos = refuses refl refl
text_run (whole j) epos = elim (document_run j epos) [
  | accepted l e w ↦ takes l e w (
      ap (λ (p : ParseState). p.error_msg) w
      ∙ overrides-msg l (started epos)
      ∙ unfold initial in refl)
  | rejected e bad ↦ refuses e (Failed-msg _ bad)
]

finish_ok :
    (p : ParseState) (g : OverridesSetting)
    → p.error_msg ≡ none
    → let (e, t) = finish_assign p g in
      (e ≡ none) × (first t.total_epos t.epos ≡ first p.total_epos p.epos)
unfolding finish_assign
finish_ok p g h = (ground arith, ground arith)

cleared-IsBlank :
    (g : OverridesSetting)
    → IsBlank blank 100 g.epos
    → IsBlank blank 0 (clear_extensions_parameter_overrides g).epos
unfolding clear_extensions_parameter_overrides clear_extensions_parameter_overrides_array
cleared-IsBlank g h = record { at = λ i k. ground (arith, h.at i) }

module _ (read_json : CString → Reading) (g : OverridesSetting) where
  text_checked :
      (val : CString)
      → TextRun (read_json val) (λ i. blank)
      → ((extensions_parameter_overrides_check_hook read_json (some val) g).0 ≡ none)
        ↔ ((l : List Override) × (overrides_of_value read_json (some val) ≡ some l))
  unfolding extensions_parameter_overrides_check_hook parse_extensions_parameter_overrides
  text_checked val (takes l e w ok) = (λ h. (l, e), λ h. ok)
  text_checked val (refuses e r) = (λ h. cc, λ h. cc (h.1))

  -- With an array that has room for the value, the check hook takes it exactly if it is NULL or the
  -- text of a JSON object of objects whose fields are `schema` with a string.
  pub extensions_parameter_overrides_check_hook_iff :
      (value : Option CString)
      → ((extensions_parameter_overrides_check_hook read_json value g).0 ≡ none)
        ↔ ((l : List Override) × (overrides_of_value read_json value ≡ some l))
  unfolding extensions_parameter_overrides_check_hook
  extensions_parameter_overrides_check_hook_iff none = (λ h. ([], refl), λ h. refl)
  extensions_parameter_overrides_check_hook_iff (some val) =
      text_checked val (text_run (read_json val) _)

  text_assigned :
      (val : CString) (l : List Override)
      → IsBlank blank 100 g.epos
      → overrides_of_value read_json (some val) ≡ some l
      → TextRun (read_json val) (clear_extensions_parameter_overrides g).epos
      → let (e, t) = extensions_parameter_overrides_assign_hook read_json (some val) g in
        (e ≡ none) × (first t.total_epos t.epos ≡ map entry_for l)
  unfolding extensions_parameter_overrides_assign_hook parse_extensions_parameter_overrides initial
  text_assigned val l clean h (takes l' e w ok) =
      let cleared = clear_extensions_parameter_overrides g in
      let same : l' ≡ l = ground arith in
      let f = finish_ok (run_actions (read_json val) (initial cleared.epos)) cleared ok in
      let read =
        apply_all-first (λ (p : ParseState). p.epos) (λ p. p.total_epos) apply_override_of entry_of
          override-Fills blank l' (started cleared.epos) (cleared-IsBlank g clean) in
      (
        f.0,
        f.1
            ∙ ap (λ (p : ParseState). first p.total_epos p.epos) w
            ∙ read
            ∙ entries_for l'
            ∙ ap (map entry_for) same,
      )
  text_assigned val l clean h (refuses e r) = cc

  -- With an array that has room for the value, where no entry was written behind the hundred
  -- before: a value that is taken is assigned without an error, and the entries in use are then,
  -- in the order of the document, one for each of its extensions and no others: with the
  -- extension's name and the last of its schemas, or no schema where it has none.
  pub extensions_parameter_overrides_assign_hook-first :
      (value : Option CString) (l : List Override)
      → IsBlank blank 100 g.epos
      → overrides_of_value read_json value ≡ some l
      → let (e, t) = extensions_parameter_overrides_assign_hook read_json value g in
        (e ≡ none) × (first t.total_epos t.epos ≡ map entry_for l)
  unfolding extensions_parameter_overrides_assign_hook clear_extensions_parameter_overrides
  extensions_parameter_overrides_assign_hook-first none l clean h =
      (refl, ap (map entry_for) {x = []} {y = l} (ground arith))
  extensions_parameter_overrides_assign_hook-first (some val) l clean h =
      text_assigned val l clean h (text_run (read_json val) _)
