-- ===== src/Grants/Bounds.antt =====
-- When the parser of the grants stays within its arrays.
use supautils.Prelude.{
  ◌≡◌, refl, ap, ◌∙◌, ◌↔◌, ℕ, ◌+◌, ◌≤◌, ◌<◌, leb, true, false, List, [], ◌∷◌, All, length, CString,
  arith, some, Bool-cases, inl, inr,
}
use supautils.Json.{Json, Reading, whole}
use supautils.Grants.{PolicyGrants}
use supautils.Grants.Parser.{
  ParseState, push_table, set_role, initial, run_actions, parse_policy_grants,
}
use supautils.Grants.Tables.{Grant, grants_of, push_tables}
use supautils.Grants.Documents.{
  open_grant, add_grants, started, accepted, rejected, walk-DocumentRun,
}
use supautils.Grants.ReadBack.{
  IsClean, with_grant, with_grant-total, with_grant-IsClean, push_table-total, opened-here,
  opened-total,
}

push_table-overrun :
    (t : CString) (p : ParseState)
    → ((push_table t p).overrun ≡ false)
      ↔ ((p.overrun ≡ false) × (p.total_pgs < 100) × ((p.pgs p.total_pgs).total_tables < 100))
unfolding push_table
push_table-overrun t p =
    (λ h. (ground arith, ground arith, ground arith), λ h. ground (arith, h.0, h.1, h.2))

-- Once past an end, the flag stays.
push_tables-past :
    (ts : List CString) (p : ParseState) → p.overrun ≡ true → (push_tables ts p).overrun ≡ true
push_tables-past [] p h = h
push_tables-past (t ∷ ts) p h =
    push_tables-past ts (push_table t p) (unfold push_table in ground arith)

push_table-tables :
    (t : CString) (p : ParseState) (n k : ℕ)
    → p.total_pgs ≡ n
    → (p.pgs n).total_tables ≡ k
    → ((push_table t p).pgs n).total_tables ≡ k + 1
unfolding push_table
push_table-tables t p n k h x = ground arith

push_table-full :
    (t : CString) (p : ParseState) (n : ℕ)
    → p.total_pgs ≡ n
    → 100 ≤ (p.pgs n).total_tables
    → (push_table t p).overrun ≡ true
unfolding push_table
push_table-full t p n h x = ground arith

-- The length of a list of tables in the array of one grant.
push_tables-overrun :
    (ts : List CString) (p : ParseState) (n k : ℕ)
    → p.total_pgs ≡ n
    → (p.pgs n).total_tables ≡ k
    → n < 100
    → k ≤ 100
    → ((push_tables ts p).overrun ≡ false) ↔ ((p.overrun ≡ false) × (k + length ts ≤ 100))
push_tables-overrun [] p n k h x b c = (λ o. (o, omega arith), λ o. o.0)
push_tables-overrun (t ∷ ts) p n k h x b c =
    let one = push_table-overrun t p in
    let tables : (p.pgs p.total_pgs).total_tables ≡ k = ap (λ i. (p.pgs i).total_tables) h ∙ x in
    elim (Bool-cases (leb 100 k)) [
      | inl full ↦
          let past =
            push_tables-past ts (push_table t p) (push_table-full t p n h (ground arith)) in
          let big : 100 ≤ k = ground arith in (λ o. cc, λ o. absurd (omega (arith, o.1)))
      | inr room ↦
          let k' : k + 1 ≤ 100 = ground arith in
          let rest =
            push_tables-overrun ts (push_table t p) n (k + 1) (push_table-total t p ∙ h)
              (push_table-tables t p n k h x) b k' in
          (
            λ o. let r = rest.0 o in ((one.0 r.0).0, omega (arith, r.1)),
            λ o. rest.1 (one.1 (o.0, rw h b, ground arith), omega (arith, o.1)),
          )
    ]

set_role-overrun :
    (role : CString) (p : ParseState)
    → ((set_role role p).overrun ≡ false) ↔ ((p.overrun ≡ false) × (p.total_pgs < 100))
unfolding set_role
set_role-overrun role p = (λ h. (ground arith, ground arith), λ h. ground (arith, h.0, h.1))

opened-tables :
    (role : CString) (ts : List CString) (p : ParseState)
    → IsClean p.total_pgs p.pgs
    → ((open_grant role p).pgs p.total_pgs).total_tables ≡ 0
opened-tables role ts p clean =
    ap (λ (g : PolicyGrants). g.total_tables) (opened-here role ts p)
    ∙ clean.at p.total_pgs (omega arith)

-- One grant stays within both arrays exactly if it is among the first hundred and has at most a
-- hundred tables.
with_grant-overrun :
    (role : CString) (ts : List CString) (p : ParseState)
    → IsClean p.total_pgs p.pgs
    → ((with_grant role ts p).overrun ≡ false)
      ↔ ((p.overrun ≡ false) × (p.total_pgs < 100) × (length ts ≤ 100))
with_grant-overrun role ts p clean =
    let o = open_grant role p in
    let role_set = set_role-overrun role p in
    let total : o.total_pgs ≡ p.total_pgs = opened-total role ts p in
    elim (Bool-cases o.overrun) [
      | inl past ↦
          let stays = push_tables-past ts o past in (λ h. cc, λ h. cc (role_set.1 (h.0, h.1)))
      | inr within ↦
          let b = role_set.0 within in
          let pushed =
            push_tables-overrun ts o p.total_pgs 0 total (opened-tables role ts p clean) b.1
              (omega arith) in
          (
            λ h. let k = (pushed.0 h).1 in (b.0, b.1, omega arith),
            λ h. pushed.1 (within, omega (arith, h.2)),
          )
    ]

add_grants-past :
    (gs : List Grant) (p : ParseState) → p.overrun ≡ true → (add_grants gs p).overrun ≡ true
add_grants-past [] p h = h
add_grants-past ((role, ts) ∷ gs) p h =
    add_grants-past gs (with_grant role ts p)
      (push_tables-past ts (open_grant role p) (unfold set_role in ground arith))

-- Every grant has at most a hundred tables.
abbrev pub FewTables : List Grant → Type 0
FewTables gs = All (λ g. length g.1 ≤ 100) gs

grants_overrun :
    (gs : List Grant) (p : ParseState)
    → IsClean p.total_pgs p.pgs
    → p.total_pgs ≤ 100
    → ((add_grants gs p).overrun ≡ false)
      ↔ ((p.overrun ≡ false) × (p.total_pgs + length gs ≤ 100) × FewTables gs)
grants_overrun [] p clean b = (λ h. (h, omega arith, tt), λ h. h.0)
grants_overrun ((role, ts) ∷ gs) p clean b =
    let q = with_grant role ts p in
    let one = with_grant-overrun role ts p clean in
    let total = with_grant-total role ts p in
    elim (Bool-cases q.overrun) [
      | inl past ↦
          let stays = add_grants-past gs q past in
          (λ h. cc, λ h. cc (one.1 (h.0, omega (arith, h.1), h.2.0)))
      | inr within ↦
          let k = one.0 within in
          let rest =
            grants_overrun gs q (with_grant-IsClean role ts p clean) (omega (arith, total, k.1)) in
          (
            λ h. let r = rest.0 h in (k.0, omega (arith, total, r.1), (k.2, r.2)),
            λ h. rest.1 (within, omega (arith, total, h.1), h.2.1),
          )
    ]

started_overrun :
    (gs : List Grant) (pgs : ℕ → PolicyGrants)
    → let p = started pgs in
      ((add_grants gs p).overrun ≡ false)
        ↔ ((p.overrun ≡ false) × (p.total_pgs + length gs ≤ 100) × FewTables gs)
      → ((add_grants gs p).overrun ≡ false) ↔ ((length gs ≤ 100) × FewTables gs)
unfolding initial
started_overrun gs pgs k =
    (λ h. let r = k.0 h in (omega (arith, r.1), r.2), λ h. k.1 (refl, omega (arith, h.0), h.1))

-- From a clean array, the parser stays within the arrays on a document of grants exactly if it has
-- at most a hundred roles, with at most a hundred tables each.
pub parse_policy_grants-overrun :
    (read_json : CString → Reading) (str : CString) (pgs : ℕ → PolicyGrants) (j : Json)
    (gs : List Grant)
    → IsClean 0 pgs
    → read_json str ≡ whole j
    → grants_of j ≡ some gs
    → ((parse_policy_grants read_json str pgs).overrun ≡ false) ↔ ((length gs ≤ 100) × FewTables gs)
unfolding parse_policy_grants run_actions
parse_policy_grants-overrun read_json str pgs j gs clean h e = elim (walk-DocumentRun j pgs) [
  | rejected none_of r ↦ cc
  | accepted gs' e' w ↦
      let same : gs' ≡ gs = ground arith in
      let k =
        grants_overrun gs (started pgs) (unfold initial in clean) (unfold initial in omega arith) in
      let result =
        ap (λ (p : ParseState). p.overrun) (w ∙ ap (λ l. add_grants l (started pgs)) same) in
      rw h (rw result (started_overrun gs pgs k))
]
