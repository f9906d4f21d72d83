-- ===== src/Constrained/Setting/Values.antt =====
-- Which values of the setting are taken, and what they put into the array.
use supautils.Prelude.{
  ◌≡◌, refl, ap, ◌∙◌, ◌↔◌, ℕ, Bool, false, true, Option, none, some, List, [], map, first, CString,
  arith,
}
use supautils.Json.{Reading, whole, broken}
use supautils.Json.Objects.{apply_all}
use supautils.Json.Arrays.{IsBlank, apply_all-first}
use supautils.Constrained.{ℤ, ConstrainedExtension}
use supautils.Constrained.Parser.{
  ErrorMsg, ParseState, parse_constrained_extensions, run_actions, initial,
}
use supautils.Constrained.Limits.{Failed}
use supautils.Constrained.Documents.{
  Constraint, constraints_of, apply_constraint, started, accepted, rejected, document_run,
}
use supautils.Constrained.Setting.{
  ConstrainedSetting, SettingError, blank, parse_error, finish_assign, clear_constrained_extensions,
  constrained_extensions_check_hook, constrained_extensions_assign_hook,
}
use supautils.Constrained.Setting.Entries.{
  entry_of, entry_for, entries_for, constraint-Fills, constraints-Quiet,
}

-- Is an error reported?
abbrev pub is_error : Option SettingError → Bool
is_error none = false
is_error (some e) = true

module _ (atoi : CString → ℤ) (pg_size_bytes : CString → Option ℤ) where
  -- The constraints that a value stands for, and `none` where it is no such document; NULL has no
  -- constraints.
  abbrev constraints_of_reading : Reading → Option (List Constraint)
  constraints_of_reading (whole j) = constraints_of atoi pg_size_bytes j
  constraints_of_reading (broken es) = none

  abbrev pub constraints_of_value : (CString → Reading) → Option CString → Option (List Constraint)
  constraints_of_value read_json none = some []
  constraints_of_value read_json (some val) = constraints_of_reading (read_json val)

  -- What the parser makes of a text.
  data TextRun (r : Reading) (cexts : ℕ → ConstrainedExtension) : Type 0 where
    takes :
        (cs : List Constraint)
        → constraints_of_reading r ≡ some cs
        → run_actions atoi pg_size_bytes r (initial cexts)
          ≡ apply_all apply_constraint cs (started atoi pg_size_bytes cexts)
        → TextRun r cexts
    refuses :
        constraints_of_reading r ≡ none
        → is_error (parse_error (run_actions atoi pg_size_bytes r (initial cexts))) ≡ true
        → TextRun r cexts

  Failed-error : (p : ParseState) → Failed p → is_error (parse_error p) ≡ true
  unfolding parse_error
  Failed-error p h = let k = h.is_failed in ground arith

  broken-error :
      (p : ParseState) (m : ErrorMsg) → p.error_msg ≡ some m → is_error (parse_error p) ≡ true
  unfolding parse_error
  broken-error p m h = ground arith

  text_run : (r : Reading) (cexts : ℕ → ConstrainedExtension) → TextRun r cexts
  unfolding run_actions
  text_run (broken es) cexts = refuses refl (broken-error _ _ refl)
  text_run (whole j) cexts = elim (document_run atoi pg_size_bytes j cexts) [
    | accepted cs e w ↦ takes cs e w
    | rejected e bad ↦ refuses e (Failed-error _ bad)
  ]

  module _ (cs : List Constraint) (cexts : ℕ → ConstrainedExtension) where
    taken : ParseState
    taken = apply_all apply_constraint cs (started atoi pg_size_bytes cexts)

    taken-no_error : parse_error taken ≡ none
    unfolding taken parse_error initial
    taken-no_error =
        let k =
          constraints-Quiet cs (started atoi pg_size_bytes cexts)
            (record { no_msg = refl; not_raised = refl }) in
        let m = k.no_msg in let n = k.not_raised in ground arith

    taken-first : IsBlank blank 0 cexts → first taken.total_cexts taken.cexts ≡ map entry_for cs
    unfolding taken initial
    taken-first clean =
        apply_all-first (λ (p : ParseState). p.cexts) (λ p. p.total_cexts) apply_constraint entry_of
          constraint-Fills blank cs (started atoi pg_size_bytes cexts) clean
        ∙ entries_for cs

finish_ok :
    (p : ParseState) (g : ConstrainedSetting)
    → parse_error p ≡ none
    → let (e, t) = finish_assign p g in
      (e ≡ none) × (first t.total_cexts t.cexts ≡ first p.total_cexts p.cexts)
unfolding finish_assign parse_error
finish_ok p g h = (ground arith, ground arith)

cleared-IsBlank :
    (g : ConstrainedSetting)
    → IsBlank blank 100 g.cexts
    → IsBlank blank 0 (clear_constrained_extensions g).cexts
unfolding clear_constrained_extensions
cleared-IsBlank g h = record { at = λ i k. ground (arith, h.at i) }

module _ (read_json : CString → Reading) (atoi : CString → ℤ) (pg_size_bytes : CString → Option ℤ)
    (g : ConstrainedSetting) where
  abbrev checked : Option CString → Option SettingError
  checked value = (constrained_extensions_check_hook read_json atoi pg_size_bytes value g).0

  text_checked :
      (val : CString)
      → TextRun atoi pg_size_bytes (read_json val) (λ i. blank)
      → (checked (some val) ≡ none) ↔ (
          (cs : List Constraint) × (constraints_of_value atoi pg_size_bytes read_json (some val)
            ≡ some cs))
  unfolding constrained_extensions_check_hook parse_constrained_extensions
  text_checked val (takes cs e w) = (
    λ h. (cs, e),
    λ h. ap parse_error w ∙ unfold taken in taken-no_error atoi pg_size_bytes cs (λ i. blank),
  )
  text_checked val (refuses e r) = (λ h. cc, λ h. cc (h.1))

  -- With an array that has room for the value, the check hook takes it exactly if it is NULL or the
  -- text of a JSON object of objects whose fields are `cpu` with a number, and `mem` and `disk`
  -- with strings that have a size.
  pub constrained_extensions_check_hook_iff :
      (value : Option CString)
      → ((constrained_extensions_check_hook read_json atoi pg_size_bytes value g).0 ≡ none) ↔ (
          (cs : List Constraint) × (constraints_of_value atoi pg_size_bytes read_json value
            ≡ some cs))
  unfolding constrained_extensions_check_hook
  constrained_extensions_check_hook_iff none = (λ h. ([], refl), λ h. refl)
  constrained_extensions_check_hook_iff (some val) =
      text_checked val (text_run atoi pg_size_bytes (read_json val) (λ i. blank))

  text_assigned :
      (val : CString) (cs : List Constraint)
      → IsBlank blank 100 g.cexts
      → constraints_of_value atoi pg_size_bytes read_json (some val) ≡ some cs
      → TextRun atoi pg_size_bytes (read_json val) (clear_constrained_extensions g).cexts
      → let (e, t) = constrained_extensions_assign_hook read_json atoi pg_size_bytes (some val) g in
        (e ≡ none) × (first t.total_cexts t.cexts ≡ map entry_for cs)
  unfolding constrained_extensions_assign_hook parse_constrained_extensions taken
  text_assigned val cs clean h (takes cs' e w) =
      let cleared = clear_constrained_extensions g in
      let same : cs' ≡ cs = ground arith in
      let ok = taken-no_error atoi pg_size_bytes cs' cleared.cexts in
      let read = taken-first atoi pg_size_bytes cs' cleared.cexts (cleared-IsBlank g clean) in
      let f =
        finish_ok (run_actions atoi pg_size_bytes (read_json val) (initial cleared.cexts)) cleared
          (ap parse_error w ∙ ok) in
      (
        f.0,
        f.1
            ∙ ap (λ (p : ParseState). first p.total_cexts p.cexts) w
            ∙ read
            ∙ ap (map entry_for) same,
      )
  text_assigned val cs clean h (refuses e r) = cc

  -- With an array that has room for the value, where no entry was written behind the hundred
  -- before: a value that is taken is assigned without an error, and the entries in use are then,
  -- in the order of the document, one for each of its extensions and no others: with the
  -- extension's name, the last of its CPU numbers, and the last of its memory and of its disk sizes
  -- modulo 2 ^ 64, or 0 where it has none.
  pub constrained_extensions_assign_hook-first :
      (value : Option CString) (cs : List Constraint)
      → IsBlank blank 100 g.cexts
      → constraints_of_value atoi pg_size_bytes read_json value ≡ some cs
      → let (e, t) = constrained_extensions_assign_hook read_json atoi pg_size_bytes value g in
        (e ≡ none) × (first t.total_cexts t.cexts ≡ map entry_for cs)
  unfolding constrained_extensions_assign_hook clear_constrained_extensions
  constrained_extensions_assign_hook-first none cs clean h =
      (refl, ap (map entry_for) {x = []} {y = cs} (ground arith))
  constrained_extensions_assign_hook-first (some val) cs clean h =
      text_assigned val cs clean h (text_run atoi pg_size_bytes (read_json val) _)
