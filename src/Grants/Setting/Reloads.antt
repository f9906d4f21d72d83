-- ===== src/Grants/Setting/Reloads.antt =====
-- The grants in use after the setting was given values.
use supautils.Prelude.{
  ◌≡◌, refl, ap, ap₂, ◌∙◌, ◌↔◌, ℕ, true, Option, none, some, List, [], ◌∷◌, CString, arith, ◌⊎◌,
  inl, inr,
}
use supautils.Json.{Reading, whole, broken}
use supautils.Grants.{PolicyGrants}
use supautils.Grants.Parser.{
  ParseState, push_table, set_role, parse_policy_grants, run_actions, initial,
}
use supautils.Grants.Tables.{Grant, grants_of, has_msg, push_tables}
use supautils.Grants.Documents.{
  accepted, rejected, walk-DocumentRun, add_grants, open_grant, started,
}
use supautils.Grants.ReadBack.{IsClean, entries, written, with_grant, add_grants-entries}
use supautils.Grants.Setting.{
  GrantsSetting, zeroed, clear_grants, finish_check, policy_grants_check_hook,
}

-- The grants that a value stands for, and `none` where it is no such document; NULL has no grants.
abbrev pub grants_of_reading : Reading → Option (List Grant)
grants_of_reading (whole j) = grants_of j
grants_of_reading (broken es) = none

abbrev pub grants_of_value : (CString → Reading) → Option CString → Option (List Grant)
grants_of_value read_json none = some []
grants_of_value read_json (some val) = grants_of_reading (read_json val)

module _ (g : GrantsSetting) where
  clear-IsClean : IsClean g.total_pgs g.pgs → IsClean 0 (clear_grants g).pgs
  unfolding clear_grants
  clear-IsClean clean = record { at = λ i h. ground (arith, clean.at i) }

-- What the parser has done with a text.
pub data TextRun (r : Reading) (pgs : ℕ → PolicyGrants) : Type 0 where
  takes :
      (gs : List Grant)
      → grants_of_reading r ≡ some gs
      → run_actions r (initial pgs) ≡ add_grants gs (started pgs)
      → TextRun r pgs
  refuses :
      grants_of_reading r ≡ none
      → has_msg (run_actions r (initial pgs)).error_msg ≡ true
      → TextRun r pgs

run_actions-TextRun : (r : Reading) (pgs : ℕ → PolicyGrants) → TextRun r pgs
unfolding run_actions
run_actions-TextRun (broken es) pgs = refuses refl refl
run_actions-TextRun (whole j) pgs = elim (walk-DocumentRun j pgs) [
  | accepted gs e w ↦ takes gs e w
  | rejected e r ↦ refuses e r.reported
]

push_table-error : (t : CString) (p : ParseState) → (push_table t p).error_msg ≡ p.error_msg
unfolding push_table
push_table-error t p = refl

set_role-error : (role : CString) (p : ParseState) → (set_role role p).error_msg ≡ p.error_msg
unfolding set_role
set_role-error role p = refl

push_tables-error :
    (ts : List CString) (p : ParseState) → (push_tables ts p).error_msg ≡ p.error_msg
push_tables-error [] p = refl
push_tables-error (t ∷ ts) p = push_tables-error ts (push_table t p) ∙ push_table-error t p

add_grants-error : (gs : List Grant) (p : ParseState) → (add_grants gs p).error_msg ≡ p.error_msg
add_grants-error [] p = refl
add_grants-error ((role, ts) ∷ gs) p =
    add_grants-error gs (with_grant role ts p)
    ∙ push_tables-error ts (open_grant role p)
    ∙ set_role-error role p

module _ (read_json : CString → Reading) (val : CString) (g : GrantsSetting) where
  hook_takes :
      (gs : List Grant)
      → let cleared = clear_grants g in
        let p = add_grants gs (started cleared.pgs) in
        run_actions (read_json val) (initial cleared.pgs) ≡ p
        → let (e, t) = policy_grants_check_hook read_json (some val) g in
          (e ≡ none) × (t.pgs ≡ p.pgs) × (t.total_pgs ≡ p.total_pgs)
  unfolding policy_grants_check_hook finish_check parse_policy_grants
  hook_takes gs h =
      let none_reported = add_grants-error gs (started (clear_grants g).pgs) in
      (ground arith, ground arith, ground arith)

  hook_refuses :
      has_msg (run_actions (read_json val) (initial (clear_grants g).pgs)).error_msg ≡ true
      → let (e, t) = policy_grants_check_hook read_json (some val) g in
        (has_msg e ≡ true) × (t.total_pgs ≡ 0)
  unfolding policy_grants_check_hook finish_check parse_policy_grants clear_grants
  hook_refuses h = (ground arith, ground arith)

module _ (read_json : CString → Reading) where
  -- What the check hook makes of a value.
  pub data ValueRun (value : Option CString) (g : GrantsSetting) : Type 0 where
    in_use :
        (gs : List Grant)
        → grants_of_value read_json value ≡ some gs
        → (policy_grants_check_hook read_json value g).0 ≡ none
        → (IsClean g.total_pgs g.pgs
            → (let t = (policy_grants_check_hook read_json value g).1 in
                (entries t.total_pgs t.pgs ≡ written gs) × IsClean t.total_pgs t.pgs))
        → ValueRun value g
    turned_down :
        grants_of_value read_json value ≡ none
        → has_msg (policy_grants_check_hook read_json value g).0 ≡ true
        → (policy_grants_check_hook read_json value g).1.total_pgs ≡ 0
        → ValueRun value g

  no_value : (g : GrantsSetting) → ValueRun none g
  unfolding policy_grants_check_hook clear_grants
  no_value g = in_use [] refl refl λ clean. (refl, clear-IsClean g clean)

  text_taken :
      (val : CString) (g : GrantsSetting) (gs : List Grant)
      → grants_of_value read_json (some val) ≡ some gs
      → let cleared = clear_grants g in
        run_actions (read_json val) (initial cleared.pgs) ≡ add_grants gs (started cleared.pgs)
        → ValueRun (some val) g
  text_taken val g gs e w =
      let p = started (clear_grants g).pgs in
      let (ok, arrays, totals) = hook_takes read_json val g gs w in
      in_use gs e ok λ clean.
        let (read, clean') = add_grants-entries gs p (unfold initial in clear-IsClean g clean) in
        (ap₂ entries totals arrays ∙ read ∙ unfold initial in refl, rw totals (rw arrays clean'))

  text_cases :
      (val : CString) (g : GrantsSetting)
      → TextRun (read_json val) (clear_grants g).pgs
      → ValueRun (some val) g
  text_cases val g (takes gs e w) = text_taken val g gs e w
  text_cases val g (refuses e r) =
      let (h, total) = hook_refuses read_json val g r in turned_down e h total

  value_run : (value : Option CString) (g : GrantsSetting) → ValueRun value g
  value_run none g = no_value g
  value_run (some val) g =
      text_cases val g (run_actions-TextRun (read_json val) (clear_grants g).pgs)

  -- With arrays that have room for the value, the check hook takes it exactly if it is NULL or the
  -- text of a JSON object whose values are arrays of strings; where it does not, no grant is in use
  -- any more.
  pub policy_grants_check_hook_iff :
      (value : Option CString) (g : GrantsSetting)
      → let (e, t) = policy_grants_check_hook read_json value g in
        ((e ≡ none) ↔ ((gs : List Grant) × (grants_of_value read_json value ≡ some gs)))
        × ((e ≡ none) ⊎ (t.total_pgs ≡ 0))
  policy_grants_check_hook_iff value g = elim (value_run value g) [
    | in_use gs e ok read ↦ ((λ h. (gs, e), λ h. ok), inl ok)
    | turned_down e h total ↦ ((λ k. cc, λ k. cc (k.1)), inr total)
  ]

  -- The states that values which the check hook took lead to, from the zeroed arrays.
  pub data Reached : GrantsSetting → Type 0 where
    at_start : Reached zeroed
    set_to :
        {g : GrantsSetting} (value : Option CString)
        → Reached g
        → (policy_grants_check_hook read_json value g).0 ≡ none
        → Reached (policy_grants_check_hook read_json value g).1

  -- With arrays that have room for every value: while every value was taken, no table is left
  -- behind the grants in use.
  pub Reached-IsClean : {g : GrantsSetting} → Reached g → IsClean g.total_pgs g.pgs
  Reached-IsClean at_start = record { at = λ i h. refl }
  Reached-IsClean (set_to {g} value r ok) = elim (value_run value g) [
    | in_use gs e ok' read ↦ (read (Reached-IsClean r)).1
    | turned_down e h total ↦ cc
  ]

  -- With arrays that have room for every value: while every value was taken, the grants in use
  -- after the next value that is taken are those of its document and no others, with the same roles
  -- and tables in the same order.
  pub policy_grants_check_hook-entries :
      {g : GrantsSetting}
      → (value : Option CString) (gs : List Grant) → Reached g
      → grants_of_value read_json value ≡ some gs
      → let t = (policy_grants_check_hook read_json value g).1 in
        entries t.total_pgs t.pgs ≡ written gs
  policy_grants_check_hook-entries {g} value gs r h = elim (value_run value g) [
    | in_use gs' e ok read ↦ (read (Reached-IsClean r)).0 ∙ ap written (ground arith)
    | turned_down e k total ↦ cc
  ]
