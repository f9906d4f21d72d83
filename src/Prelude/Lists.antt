-- ===== src/Prelude/Lists.antt =====
-- Lists measured and indexed by native numbers, and predicates on their elements.
use Prim.Native.Nat.{ℕ, zero, suc, ◌+◌, ◌<◌}
use mathlib.Core.Path.{◌≡◌, refl, ap, ap₂}
use mathlib.Core.List.{List, [], ◌∷◌, ◌++◌}
use mathlib.Core.Logic.{◌⊎◌}
use mathlib.Core.Bool.{Bool, true, false}
use native.Mathlib.Omega.{arith}
use supautils.Prelude.Tests.{◌==◌, if◌then◌else◌}

module _ {ℓ} {A : Type ℓ} where
  abbrev pub length : List A → ℕ
  length [] = 0
  length (x ∷ xs) = suc (length xs)

  abbrev pub get_or : List A → ℕ → A → A
  get_or [] i d = d
  get_or (x ∷ xs) zero d = x
  get_or (x ∷ xs) (suc i) d = get_or xs i d

  abbrev pub take : ℕ → List A → List A
  take zero xs = []
  take (suc n) [] = []
  take (suc n) (x ∷ xs) = x ∷ take n xs

  abbrev pub is_nil : List A → Bool
  is_nil [] = true
  is_nil (x ∷ xs) = false

  -- Some element satisfies `P`; the proof says which.
  abbrev pub Any : (A → Type 0) → List A → Type 0
  Any P [] = ⊥
  Any P (x ∷ xs) = P x ⊎ Any P xs

  -- Every element satisfies `P`.
  abbrev pub All : (A → Type 0) → List A → Type 0
  All P [] = Unit
  All P (x ∷ xs) = P x × All P xs

module _ {ℓ} {A : Type ℓ} where
  pub length-append : (xs ys : List A) → length (xs ++ ys) ≡ length xs + length ys
  length-append [] ys = omega arith
  length-append (x ∷ xs) ys = omega (arith, length-append xs ys)

-- The first `n` elements of an array, in order: what `for (i = 0; i < n; i++)` goes through.
abbrev pub first {ℓ} : {A : Type ℓ} → ℕ → (ℕ → A) → List A
first zero f = []
first (suc n) f = f 0 ∷ first n (λ i. f (suc i))

-- An assignment to one element of an array.
abbrev pub update {ℓ} : {A : Type ℓ} → (ℕ → A) → ℕ → A → ℕ → A
update f i a j = if i == j then a else f j

-- The first elements of two arrays that agree below `n`.
pub first_ext {ℓ} :
    {A : Type ℓ} (n : ℕ) (f g : ℕ → A) → ((i : ℕ) → i < n → f i ≡ g i) → first n f ≡ first n g
first_ext zero f g h = refl
first_ext (suc n) f g h =
    ap₂ (λ x xs. x ∷ xs) (h 0 (omega arith)) (first_ext n _ _ λ i k. h (suc i) (omega arith))

pub first-suc {ℓ} : {A : Type ℓ} (n : ℕ) (f : ℕ → A) → first (suc n) f ≡ first n f ++ f n ∷ []
first-suc zero f = refl
first-suc (suc n) f = ap (λ xs. f 0 ∷ xs) (first-suc n λ i. f (suc i))
