-- ===== src/Json/Arrays.antt =====
-- An array that is filled one entry at a time, behind the entries in use.
use supautils.Prelude.{
  ◌≡◌, ap, ap₂, sym, ◌∙◌, ℕ, suc, ◌+◌, ◌≤◌, false, List, [], ◌∷◌, ◌++◌, map, first, first_ext,
  first-suc, ◌==◌, append-nil, append_assoc, arith,
}
use supautils.Json.Objects.{apply_all}

-- The entries behind those in use are blank.
pub record IsBlank {E : Type 0} (blank : E) (n : ℕ) (f : ℕ → E) : Type 0 where
  pub at : (i : ℕ) → n ≤ i → f i ≡ blank

-- `apply a` fills the entry behind those in use and counts it; `value a` is what it makes of it.
pub record Fills {S A E : Type 0} (array : S → ℕ → E) (total : S → ℕ) (apply : A → S → S)
    (value : A → E → E) : Type 0 where
  pub counted : (a : A) (s : S) → total (apply a s) ≡ total s + 1
  pub here : (a : A) (s : S) → array (apply a s) (total s) ≡ value a (array s (total s))
  pub other : (a : A) (s : S) (i : ℕ) → (total s == i) ≡ false → array (apply a s) i ≡ array s i

module _ {S A E : Type 0} (array : S → ℕ → E) (total : S → ℕ) (apply : A → S → S)
    (value : A → E → E) (fills : Fills array total apply value) (blank : E) where
  filled_IsBlank :
      (a : A) (s : S)
      → IsBlank blank (total s) (array s)
      → IsBlank blank (total (apply a s)) (array (apply a s))
  filled_IsBlank a s clean = record {
    at = λ i h.
        let k : total s + 1 ≤ i = omega (arith, fills.counted a s) in
        fills.other a s i (ground arith) ∙ clean.at i (omega arith);
  }

  filled_first :
      (a : A) (s : S)
      → IsBlank blank (total s) (array s)
      → first (total (apply a s)) (array (apply a s))
        ≡ first (total s) (array s) ++ value a blank ∷ []
  filled_first a s clean =
      ap (λ n. first n (array (apply a s))) {y = suc (total s)} (fills.counted a s ∙ omega arith)
      ∙ first-suc (total s) (array (apply a s))
      ∙ ap₂ (λ xs x. xs ++ x ∷ []) (first_ext (total s) _ _ λ i h. fills.other a s i (ground arith))
          (fills.here a s ∙ ap (value a) (clean.at (total s) (omega arith)))

  -- The entries are read back behind those that were there.
  pub apply_all-first :
      (xs : List A) (s : S)
      → IsBlank blank (total s) (array s)
      → first (total (apply_all apply xs s)) (array (apply_all apply xs s))
        ≡ first (total s) (array s) ++ map (λ a. value a blank) xs
  apply_all-first [] s clean = sym (append-nil _)
  apply_all-first (a ∷ xs) s clean =
      apply_all-first xs (apply a s) (filled_IsBlank a s clean)
      ∙ ap (λ l. l ++ map (λ b. value b blank) xs) (filled_first a s clean)
      ∙ append_assoc (first (total s) (array s)) (value a blank ∷ []) (map (λ b. value b blank) xs)
