-- ===== src/Utils/Wildcard.antt =====
-- What the wildcard of a comma-separated setting means: an element that ends in `*` stands for
-- every string with the prefix before it, any other element for itself.
use supautils.Prelude.{
  ℕ, ◌-◌, ◌≡◌, refl, ap, sym, ◌∙◌, ◌↔◌, inl, inr, Bool, true, false, ◌||◌, List, some, [], ◌∷◌,
  ◌++◌, arith, ◌==◌, ==_iff, Bool-cases, or_iff, str_eq_refl, if◌then◌else◌, length, get_or, take,
  Any, CString, str_eq, str_eq_iff, length-append,
}
use mathlib.Core.Bool.{false≢true}
use supautils.Utils.{
  strstarts, remove_ending_wildcard, matches_elem, is_in_split, is_string_in_comma_delimited_string,
}

take-length : (p r : CString) → take (length p) (p ++ r) ≡ p
take-length [] r = refl
take-length (x ∷ p) r = ap (λ t. x ∷ t) (take-length p r)

get_or-length : (p : CString) (c : ℕ) → get_or (p ++ c ∷ []) (length p) 0 ≡ c
get_or-length [] c = refl
get_or-length (x ∷ p) c = get_or-length p c

length-concat : (p : CString) (c : ℕ) → length (p ++ c ∷ []) - 1 ≡ length p
length-concat p c = omega (arith, length-append p (c ∷ []))

-- A non-empty string is what stands before its last byte, and that byte.
data Snoc : CString → Type 0 where
  empty : Snoc []
  snoc : (p : CString) (c : ℕ) → Snoc (p ++ c ∷ [])

Snoc-cons : (x : ℕ) {s : CString} → Snoc s → Snoc (x ∷ s)
Snoc-cons x empty = snoc [] x
Snoc-cons x (snoc p c) = snoc (x ∷ p) c

to_snoc : (s : CString) → Snoc s
to_snoc [] = empty
to_snoc (x ∷ s) = Snoc-cons x (to_snoc s)

remove_one : (c : ℕ) → remove_ending_wildcard (c ∷ []) ≡ (false, c ∷ [])
unfolding remove_ending_wildcard
remove_one c = refl

remove_snoc :
    (x : ℕ) (p : CString) (c : ℕ)
    → remove_ending_wildcard (x ∷ (p ++ c ∷ []))
      ≡ (if c == b'*' then (true, x ∷ p) else (false, x ∷ (p ++ c ∷ [])))
unfolding remove_ending_wildcard
remove_snoc x p c =
    rw (length-concat (x ∷ p) c, get_or-length (x ∷ p) c, take-length (x ∷ p), length-append p)
      (ground arith)

-- What an element of a setting stands for: itself, and with a `*` behind a non-empty prefix, every
-- string that begins with the prefix.
pub data Covers (e s : CString) : Type 0 where
  exact : e ≡ s → Covers e s
  below : (x : ℕ) (p rest : CString) → e ≡ x ∷ (p ++ b'*' ∷ []) → s ≡ x ∷ (p ++ rest) → Covers e s

-- What `remove_ending_wildcard` makes of an element.
pub data Pattern (e : CString) (r : Bool × CString) : Type 0 where
  literal : r ≡ (false, e) → Pattern e r
  wildcard : (x : ℕ) (p : CString) → e ≡ x ∷ (p ++ b'*' ∷ []) → r ≡ (true, x ∷ p) → Pattern e r

remove-Snoc : {e : CString} → Snoc e → Pattern e (remove_ending_wildcard e)
remove-Snoc empty = literal (unfold remove_ending_wildcard in refl)
remove-Snoc (snoc [] c) = literal (remove_one c)
remove-Snoc (snoc (x ∷ p) c) = elim (Bool-cases (c == b'*')) [
  | inl e ↦
      wildcard x p (ap (λ t. x ∷ (p ++ t ∷ [])) ((==_iff c b'*').0 e)) (rw (remove_snoc x p c, e))
  | inr e ↦ literal (rw (remove_snoc x p c, e))
]

pub remove-Pattern : (e : CString) → Pattern e (remove_ending_wildcard e)
remove-Pattern e = remove-Snoc (to_snoc e)

pub remove_star :
    (x : ℕ) (p : CString) → remove_ending_wildcard (x ∷ (p ++ b'*' ∷ [])) ≡ (true, x ∷ p)
remove_star x p = remove_snoc x p b'*'

pub strstarts_rest : (s p : CString) → strstarts s p ≡ true → (rest : CString) × (s ≡ p ++ rest)
unfolding strstarts
strstarts_rest s [] h = (s, refl)
strstarts_rest [] (y ∷ p) h = cc
strstarts_rest (c ∷ s) (y ∷ p) h =
    let (rest, e) = strstarts_rest s p (ground arith) in (rest, ground arith)

pub strstarts-append : (p rest : CString) → strstarts (p ++ rest) p ≡ true
unfolding strstarts
strstarts-append [] [] = refl
strstarts-append [] (x ∷ r) = refl
strstarts-append (y ∷ p) rest = ground (arith, strstarts-append p rest)

matches_literal :
    (s e : CString) → remove_ending_wildcard e ≡ (false, e) → matches_elem s e ≡ str_eq s e
unfolding matches_elem
matches_literal s e r = rw r

matches_wildcard :
    (s e p : CString)
    → remove_ending_wildcard e ≡ (true, p)
    → matches_elem s e ≡ (strstarts s p || str_eq s p)
unfolding matches_elem
matches_wildcard s e p r = rw r

strstarts_self : (p : CString) → strstarts p p ≡ true
unfolding strstarts
strstarts_self [] = refl
strstarts_self (y ∷ p) = ground (arith, strstarts_self p)

starts_or_eq-strstarts :
    (s p : CString) → (strstarts s p || str_eq s p) ≡ true → strstarts s p ≡ true
starts_or_eq-strstarts s p h = elim (Bool-cases (strstarts s p)) [
  | inl e ↦ e
  | inr e ↦ rw ((str_eq_iff s p).0 (rw e at h)) (strstarts_self p)
]

matches_prefix :
    (s e : CString) (x : ℕ) (p rest : CString)
    → e ≡ x ∷ (p ++ b'*' ∷ [])
    → s ≡ x ∷ (p ++ rest)
    → matches_elem s e ≡ true
matches_prefix s e x p rest q eq =
    matches_wildcard s e (x ∷ p) (rw q (remove_star x p))
    ∙ rw eq (rw (strstarts-append (x ∷ p) rest))

matches_self : (e : CString) → Pattern e (remove_ending_wildcard e) → matches_elem e e ≡ true
matches_self e (literal r) = matches_literal e e r ∙ str_eq_refl e
matches_self e (wildcard x p q r) = matches_prefix e e x p (b'*' ∷ []) q q

matches→Covers :
    (s e : CString) → Pattern e (remove_ending_wildcard e) → matches_elem s e ≡ true → Covers e s
matches→Covers s e (literal r) h =
    exact (sym ((str_eq_iff s e).0 (sym (matches_literal s e r) ∙ h)))
matches→Covers s e (wildcard x p q r) h =
    let (rest, eq) =
      strstarts_rest s (x ∷ p)
        (starts_or_eq-strstarts s (x ∷ p) (sym (matches_wildcard s e (x ∷ p) r) ∙ h)) in
    below x p rest q eq

Covers→matches : (s e : CString) → Covers e s → matches_elem s e ≡ true
Covers→matches s e (exact q) = rw (← q) (matches_self e (remove-Pattern e))
Covers→matches s e (below x p rest q eq) = matches_prefix s e x p rest q eq

-- The test of one element decides what the element stands for.
pub matches_iff : (s e : CString) → (matches_elem s e ≡ true) ↔ Covers e s
matches_iff s e = (matches→Covers s e (remove-Pattern e), Covers→matches s e)

is_in_split_step :
    (s e : CString) (l : List CString)
    → is_in_split s (e ∷ l) ≡ (matches_elem s e || is_in_split s l)
unfolding is_in_split
is_in_split_step s e l = ground arith

is_in_split_iff :
    (s : CString) (l : List CString) → (is_in_split s l ≡ true) ↔ Any (λ e. Covers e s) l
is_in_split_iff s [] = (λ h. absurd (false≢true (unfold is_in_split in h)), λ h. elim h [ ])
is_in_split_iff s (e ∷ l) =
    rw (is_in_split_step s e l) (or_iff _ _ (matches_iff s e) (is_in_split_iff s l))

-- A string is in a comma-separated setting exactly if an element of the list that
-- `SplitIdentifierString` makes of the setting covers it: the element is the string, or it is a
-- non-empty prefix of the string followed by `*`.
pub is_string_in_comma_delimited_string_iff :
    (split : CString → Bool × List CString) (s1 s2 : CString)
    → (is_string_in_comma_delimited_string split (some s1) (some s2) ≡ true)
      ↔ Any (λ e. Covers e s1) (split s2).1
unfolding is_string_in_comma_delimited_string
is_string_in_comma_delimited_string_iff split s1 s2 = is_in_split_iff s1 (split s2).1
