-- ===== src/Grants/ReadBack.antt =====
-- Reading the grants of a document back from the array.
use supautils.Prelude.{
  ◌≡◌, refl, ap, ap₂, sym, ◌∙◌, ℕ, suc, ◌+◌, ◌≤◌, false, Option, some, List, [], ◌∷◌, ◌++◌, map,
  CString, arith, first, first_ext, first-suc, update, ◌==◌, append_assoc, append-nil,
}
use supautils.Grants.{PolicyGrants}
use supautils.Grants.Parser.{ParseState, push_table, add_table, set_role}
use supautils.Grants.Tables.{Grant, push_tables}
use supautils.Grants.Documents.{open_grant, close_grant, add_grants}

-- A grant as the lookup goes through it.
abbrev pub Entry : Type 0
Entry = Option CString × List (Option CString)

abbrev pub entry : PolicyGrants → Entry
entry g = (g.role_name, first g.total_tables g.table_names)

abbrev pub entries : ℕ → (ℕ → PolicyGrants) → List Entry
entries n pgs = first n (λ i. entry (pgs i))

abbrev pub written : List Grant → List Entry
written [] = []
written ((role, ts) ∷ gs) = (some role, map some ts) ∷ written gs

-- No table is left in the array behind the grants in use.
pub record IsClean (n : ℕ) (pgs : ℕ → PolicyGrants) : Type 0 where
  pub at : (i : ℕ) → n ≤ i → (pgs i).total_tables ≡ 0

abbrev add_tables : List CString → PolicyGrants → PolicyGrants
add_tables [] x = x
add_tables (t ∷ ts) x = add_tables ts (add_table t x)

pub push_table-total : (t : CString) (p : ParseState) → (push_table t p).total_pgs ≡ p.total_pgs
unfolding push_table
push_table-total t p = refl

push_tables-total :
    (ts : List CString) (p : ParseState) → (push_tables ts p).total_pgs ≡ p.total_pgs
push_tables-total [] p = refl
push_tables-total (t ∷ ts) p = push_tables-total ts (push_table t p) ∙ push_table-total t p

push_table-other :
    (t : CString) (p : ParseState) (i : ℕ)
    → (p.total_pgs == i) ≡ false
    → (push_table t p).pgs i ≡ p.pgs i
unfolding push_table
push_table-other t p i h = ground arith

push_tables-other :
    (ts : List CString) (p : ParseState) (i : ℕ)
    → (p.total_pgs == i) ≡ false
    → (push_tables ts p).pgs i ≡ p.pgs i
push_tables-other [] p i h = refl
push_tables-other (t ∷ ts) p i h =
    push_tables-other ts (push_table t p) i (unfold push_table in h) ∙ push_table-other t p i h

pub push_table-here :
    (t : CString) (p : ParseState) (n : ℕ)
    → p.total_pgs ≡ n
    → (push_table t p).pgs n ≡ add_table t (p.pgs n)
unfolding push_table
push_table-here t p n h = ground arith

push_tables-here :
    (ts : List CString) (p : ParseState) (n : ℕ)
    → p.total_pgs ≡ n
    → (push_tables ts p).pgs n ≡ add_tables ts (p.pgs n)
push_tables-here [] p n h = refl
push_tables-here (t ∷ ts) p n h =
    push_tables-here ts (push_table t p) n (push_table-total t p ∙ h)
    ∙ ap (add_tables ts) (push_table-here t p n h)

first-update :
    (f : ℕ → Option CString) (n : ℕ) (a : Option CString)
    → first (n + 1) (update f n a) ≡ first n f ++ a ∷ []
first-update f n a =
    ap (λ k. first k (update f n a)) {y = suc n} (omega arith)
    ∙ first-suc n (update f n a)
    ∙ ap₂ (λ xs x. xs ++ x ∷ []) (first_ext n _ _ λ i h. ground arith) (ground arith)

entry-add_tables :
    (ts : List CString) (x : PolicyGrants)
    → entry (add_tables ts x) ≡ (x.role_name, first x.total_tables x.table_names ++ map some ts)
entry-add_tables [] x = ap (λ l. (x.role_name, l)) (sym (append-nil _))
entry-add_tables (t ∷ ts) x =
    entry-add_tables ts (add_table t x)
    ∙ ap (λ l. (x.role_name, l))
        (ap (λ l. l ++ map some ts) (first-update x.table_names x.total_tables (some t))
          ∙ append_assoc (first x.total_tables x.table_names) (some t ∷ []) (map some ts))

-- One grant more.
module _ (role : CString) (ts : List CString) (p : ParseState) where
  abbrev pub opened : ParseState
  opened = open_grant role p

  pub opened-total : opened.total_pgs ≡ p.total_pgs
  unfolding set_role
  opened-total = refl

  pub opened-here : opened.pgs p.total_pgs ≡ record (p.pgs p.total_pgs) { role_name = some role }
  unfolding set_role
  opened-here = ground arith

  opened-other : (i : ℕ) → (p.total_pgs == i) ≡ false → opened.pgs i ≡ p.pgs i
  unfolding set_role
  opened-other i h = ground arith

  -- The state behind the grant, and what it has in the array.
  abbrev pub with_grant : ParseState
  with_grant = close_grant (push_tables ts opened)

  pub with_grant-total : with_grant.total_pgs ≡ p.total_pgs + 1
  with_grant-total = ap (λ n. n + 1) (push_tables-total ts opened ∙ opened-total)

  with_grant-other : (i : ℕ) → (p.total_pgs == i) ≡ false → with_grant.pgs i ≡ p.pgs i
  with_grant-other i h =
      push_tables-other ts opened i (ap (λ n. n == i) opened-total ∙ h) ∙ opened-other i h

  with_grant-here :
      IsClean p.total_pgs p.pgs → entry (with_grant.pgs p.total_pgs) ≡ (some role, map some ts)
  with_grant-here clean =
      ap entry
        (push_tables-here ts opened p.total_pgs opened-total ∙ ap (add_tables ts) opened-here)
      ∙ entry-add_tables ts _
      ∙ ap (λ n. (some role, first n (p.pgs p.total_pgs).table_names ++ map some ts))
          (clean.at p.total_pgs (omega arith))

  pub with_grant-IsClean : IsClean p.total_pgs p.pgs → IsClean with_grant.total_pgs with_grant.pgs
  with_grant-IsClean clean = record {
    at = λ i h.
        let k : p.total_pgs + 1 ≤ i = omega (arith, with_grant-total) in
        ap (λ (g : PolicyGrants). g.total_tables) (with_grant-other i (ground arith))
        ∙ clean.at i (omega arith);
  }

  with_grant-entries :
      IsClean p.total_pgs p.pgs
      → entries with_grant.total_pgs with_grant.pgs
        ≡ entries p.total_pgs p.pgs ++ (some role, map some ts) ∷ []
  with_grant-entries clean =
      ap (λ n. entries n with_grant.pgs) {y = suc p.total_pgs} (with_grant-total ∙ omega arith)
      ∙ first-suc p.total_pgs (λ i. entry (with_grant.pgs i))
      ∙ ap₂ (λ xs x. xs ++ x ∷ [])
          (first_ext p.total_pgs _ _ λ i h. ap entry (with_grant-other i (ground arith)))
          (with_grant-here clean)

-- From a clean array the grants are read back behind those that were there, and the array is clean.
pub add_grants-entries :
    (gs : List Grant) (p : ParseState)
    → IsClean p.total_pgs p.pgs
    → (entries (add_grants gs p).total_pgs (add_grants gs p).pgs
        ≡ entries p.total_pgs p.pgs ++ written gs)
      × IsClean (add_grants gs p).total_pgs (add_grants gs p).pgs
add_grants-entries [] p clean = (sym (append-nil _), clean)
add_grants-entries ((role, ts) ∷ gs) p clean =
    let (e, c) =
      add_grants-entries gs (with_grant role ts p) (with_grant-IsClean role ts p clean) in
    (
      e
          ∙ ap (λ l. l ++ written gs) (with_grant-entries role ts p clean)
          ∙ append_assoc (entries p.total_pgs p.pgs) ((some role, map some ts) ∷ []) (written gs),
      c,
    )
