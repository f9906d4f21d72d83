-- ===== src/Overrides/SchemaOption.antt =====
-- The schema among the options of CREATE EXTENSION, and the search for it.
use supautils.Prelude.{
  ◌≡◌, refl, ℕ, ◌+◌, Bool, true, false, not, Option, none, some, List, [], ◌∷◌, ◌++◌, cstr, CString,
  str_eq, arith, if◌then◌else◌, Bool-cases, inl, inr, ◌&&◌,
}
use supautils.Statements.{DefElem, string_arg}
use supautils.Overrides.{find_schema, delete_at}

abbrev pub is_schema : DefElem → Bool
is_schema d = str_eq d.defname (cstr "schema")

-- The other options, in their order.
abbrev pub without_schema : List DefElem → List DefElem
without_schema [] = []
without_schema (d ∷ l) = if is_schema d then without_schema l else d ∷ without_schema l

abbrev pub no_schema : List DefElem → Bool
no_schema [] = true
no_schema (d ∷ l) = not (is_schema d) && no_schema l

abbrev pub at_most_one_schema : List DefElem → Bool
at_most_one_schema [] = true
at_most_one_schema (d ∷ l) = if is_schema d then no_schema l else at_most_one_schema l

abbrev pub schema_option : CString → DefElem
schema_option schema = record { defname = cstr "schema"; arg = string_arg schema }

pub schema_option-is_schema : (schema : CString) → is_schema (schema_option schema) ≡ true
unfolding str_eq
schema_option-is_schema schema = refl

pub none_found :
    (l : List DefElem) (i : ℕ) (o : Option ℕ) → no_schema l ≡ true → find_schema l i o ≡ some o
unfolding find_schema
none_found [] i o h = refl
none_found (d ∷ l) i o h = ground (arith, none_found l (i + 1) o)

pub none_dropped : (l : List DefElem) → no_schema l ≡ true → without_schema l ≡ l
none_dropped [] h = refl
none_dropped (d ∷ l) h = ground (arith, none_dropped l)

-- What the search finds: no schema option, or the one at this position, or two of them.
pub data Found (l : List DefElem) (i : ℕ) : Type 0 where
  nothing : find_schema l i none ≡ some none → without_schema l ≡ l → Found l i
  one :
      (j : ℕ)
      → find_schema l i none ≡ some (some (i + j))
      → delete_at l j ≡ without_schema l
      → Found l i

behind_other :
    (d : DefElem) (l : List DefElem) (i : ℕ)
    → is_schema d ≡ false
    → Found l (i + 1)
    → Found (d ∷ l) i
unfolding find_schema delete_at
behind_other d l i h (nothing e w) = nothing (ground arith) (ground arith)
behind_other d l i h (one j e w) =
    let same : i + 1 + j ≡ i + (j + 1) = omega arith in
    one (j + 1) (ground (arith, same)) (ground arith)

at_head :
    (d : DefElem) (l : List DefElem) (i : ℕ)
    → is_schema d ≡ true
    → no_schema l ≡ true
    → Found (d ∷ l) i
unfolding find_schema delete_at
at_head d l i h k =
    let same : i + 0 ≡ i = omega arith in
    one 0 (ground (arith, none_found l (i + 1) (some i) k, same)) (ground (arith, none_dropped l k))

pub find_schema-Found : (l : List DefElem) (i : ℕ) → at_most_one_schema l ≡ true → Found l i
find_schema-Found [] i h = nothing (unfold find_schema in refl) refl
find_schema-Found (d ∷ l) i h = elim (Bool-cases (is_schema d)) [
  | inl q ↦ at_head d l i q (ground arith)
  | inr q ↦ behind_other d l i q (find_schema-Found l (i + 1) (ground arith))
]

-- Setting the schema again replaces it.
pub without_schema-no_schema : (l : List DefElem) → no_schema (without_schema l) ≡ true
without_schema-no_schema [] = refl
without_schema-no_schema (d ∷ l) = ground (arith, without_schema-no_schema l)

pub without_schema-append :
    (l : List DefElem) (d : DefElem)
    → is_schema d ≡ true
    → without_schema (l ++ d ∷ []) ≡ without_schema l
without_schema-append [] d h = ground arith
without_schema-append (x ∷ l) d h = ground (arith, without_schema-append l d h)

pub at_most_one-append :
    (l : List DefElem) (d : DefElem) → no_schema l ≡ true → at_most_one_schema (l ++ d ∷ []) ≡ true
at_most_one-append [] d h = ground arith
at_most_one-append (x ∷ l) d h = ground (arith, at_most_one-append l d)
