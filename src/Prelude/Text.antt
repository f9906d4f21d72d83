-- ===== src/Prelude/Text.antt =====
-- C strings: a `char *` that is not NULL is the list of its bytes before the terminator, and one
-- that may be NULL is an `Option` of it.
use Prim.Native.Char.{code}
use Prim.Native.Nat.{ℕ}
use Prim.Native.String.{String}
use mathlib.Core.Path.{◌≡◌, refl}
use mathlib.Core.Logic.{◌↔◌}
use mathlib.Core.Bool.{Bool, true, false, ◌&&◌}
use mathlib.Core.List.{List, [], ◌∷◌}
use native.Mathlib.Omega.{arith}
use supautils.Prelude.Tests.{◌==◌}

abbrev pub CString : Type 0
CString = List ℕ

-- A string literal of the source.
abbrev pub cstr : String → CString
cstr String.[] = []
cstr (String.◌∷◌ c s) = code c ∷ cstr s

-- `strcmp(a, b) == 0`
unfoldable pub str_eq : CString → CString → Bool
str_eq [] [] = true
str_eq (x ∷ xs) (y ∷ ys) = x == y && str_eq xs ys
str_eq _ _ = false

pub str_eq_iff : (a b : CString) → (str_eq a b ≡ true) ↔ (a ≡ b)
unfolding str_eq
str_eq_iff [] [] = ground arith
str_eq_iff [] (y ∷ ys) = ground arith
str_eq_iff (x ∷ xs) [] = ground arith
str_eq_iff (x ∷ xs) (y ∷ ys) = ground (arith, str_eq_iff xs ys)

pub str_eq_refl : (a : CString) → str_eq a a ≡ true
str_eq_refl a = (str_eq_iff a a).1 refl
