-- ===== src/Grants/Tables.antt =====
-- What the parser of the grants makes of the array of tables of a role.
use supautils.Prelude.{
  ◌≡◌, refl, ap, sym, subst, ◌∙◌, Bool, true, false, Option, none, some, List, [], ◌∷◌, CString,
  arith,
}
use supautils.Json.{
  Json, Items, Fields, scalar, array, object, no_items, item, no_fields, field, Event, object_start,
  object_end, array_start, array_end, object_field_start, scalar_token, json_token_string,
  json_token_number, json_token_true, json_token_false, json_token_null, walk, walk_items,
}
use supautils.Json.Laws.{Stuck, walk_items-Stuck, walk_fields-Stuck}
use supautils.Grants.Parser.{
  ParseState, SemanticState, ErrorMsg, expect_table, unexpected_array, unexpected_scalar,
  unexpected_object, unexpected_table_value, sem, push_table,
}

-- A grant of a document: a role with its tables.
abbrev pub Grant : Type 0
Grant = CString × List CString

-- An array of strings.
abbrev pub strings_of : Items → Option (List CString)
strings_of no_items = some []
strings_of (item (scalar json_token_string token) xs) = elim (strings_of xs) [
  | none ↦ none
  | some ts ↦ some (token ∷ ts)
]
strings_of (item _ xs) = none

-- Fields whose values are arrays of strings.
abbrev pub grants_of_fields : Fields → Option (List Grant)
grants_of_fields no_fields = some []
grants_of_fields (field role (array xs) fs) = elim (strings_of xs) [
  | none ↦ none
  | some ts ↦ elim (grants_of_fields fs) [ none ↦ none | some gs ↦ some ((role, ts) ∷ gs) ]
]
grants_of_fields (field role _ fs) = none

-- The grants that a document stands for: those of an object of arrays of strings.
abbrev pub grants_of : Json → Option (List Grant)
grants_of (object fs) = grants_of_fields fs
grants_of _ = none

abbrev pub is_unexpected : SemanticState → Bool
is_unexpected unexpected_array = true
is_unexpected unexpected_scalar = true
is_unexpected unexpected_object = true
is_unexpected unexpected_table_value = true
is_unexpected _ = false

abbrev pub has_msg : Option ErrorMsg → Bool
has_msg none = false
has_msg (some msg) = true

-- The parser has stopped with an error.
pub record Rejected (parse : ParseState) : Type 0 where
  pub stopped : is_unexpected parse.state ≡ true
  pub reported : has_msg parse.error_msg ≡ true

sem-unexpected :
    (parse : ParseState) (e : Event) → is_unexpected parse.state ≡ true → sem e parse ≡ parse
unfolding sem
sem-unexpected parse object_start h = ground arith
sem-unexpected parse object_end h = refl
sem-unexpected parse array_start h = ground arith
sem-unexpected parse array_end h = ground arith
sem-unexpected parse (object_field_start fname) h = ground arith
sem-unexpected parse (scalar_token t token) h = ground arith

pub Rejected-Stuck : (parse : ParseState) → Rejected parse → Stuck sem parse
Rejected-Stuck parse h = record { at = λ e. sem-unexpected parse e h.stopped }

-- The tables of an array, one after the other.
abbrev pub push_tables : List CString → ParseState → ParseState
push_tables [] parse = parse
push_tables (t ∷ ts) parse = push_tables ts (push_table t parse)

-- An array in the parser: its strings are added, or it is rejected.
pub data ItemsRun (xs : Items) (parse : ParseState) : Type 0 where
  taken :
      (ts : List CString)
      → strings_of xs ≡ some ts
      → walk_items sem xs parse ≡ push_tables ts parse
      → ItemsRun xs parse
  refused : strings_of xs ≡ none → Rejected (walk_items sem xs parse) → ItemsRun xs parse

refuses :
    (j : Json) (xs : Items) (parse : ParseState)
    → strings_of (item j xs) ≡ none
    → Rejected (walk sem j parse)
    → ItemsRun (item j xs) parse
unfolding walk
refuses j xs parse h r =
    refused h (subst Rejected (sym (walk_items-Stuck sem _ (Rejected-Stuck _ r) xs)) r)

-- The actions at the front of a value that is no string.
abbrev is_element : Event → Bool
is_element array_start = true
is_element object_start = true
is_element (scalar_token json_token_string token) = false
is_element (scalar_token _ token) = true
is_element _ = false

pub array-Rejected :
    (ys : Items) (parse : ParseState)
    → Rejected (sem array_start parse)
    → Rejected (walk sem (array ys) parse)
unfolding walk
array-Rejected ys parse r =
    let k = Rejected-Stuck _ r in
    subst Rejected (sym (ap (sem array_end) (walk_items-Stuck sem _ k ys) ∙ k.at array_end)) r

pub object-Rejected :
    (fs : Fields) (parse : ParseState)
    → Rejected (sem object_start parse)
    → Rejected (walk sem (object fs) parse)
unfolding walk
object-Rejected fs parse r =
    let k = Rejected-Stuck _ r in
    subst Rejected (sym (ap (sem object_end) (walk_fields-Stuck sem _ k fs) ∙ k.at object_end)) r

-- An element that is no string, inside the array of the tables.
module _ (parse : ParseState) (inside : parse.state ≡ expect_table) where
  element-Rejected : (e : Event) → is_element e ≡ true → Rejected (sem e parse)
  unfolding sem
  element-Rejected array_start h = ground arith
  element-Rejected object_start h = ground arith
  element-Rejected (scalar_token json_token_number token) h = ground arith
  element-Rejected (scalar_token json_token_true token) h = ground arith
  element-Rejected (scalar_token json_token_false token) h = ground arith
  element-Rejected (scalar_token json_token_null token) h = ground arith
  element-Rejected _ h = cc

  push_table-state : (token : CString) → (push_table token parse).state ≡ expect_table
  unfolding push_table
  push_table-state token = inside

  string-push_table :
      (token : CString) → sem (scalar_token json_token_string token) parse ≡ push_table token parse
  unfolding sem
  string-push_table token = ground arith

pushes :
    (token : CString) (xs : Items) (parse : ParseState)
    → parse.state ≡ expect_table
    → ItemsRun xs (push_table token parse)
    → ItemsRun (item (scalar json_token_string token) xs) parse
unfolding walk
pushes token xs parse h (taken ts e w) =
    taken (token ∷ ts) (ground arith) (ap (walk_items sem xs) (string-push_table parse h token) ∙ w)
pushes token xs parse h (refused e r) =
    refused (ground arith)
      (subst Rejected (sym (ap (walk_items sem xs) (string-push_table parse h token))) r)

pub walk_items-ItemsRun :
    (xs : Items) (parse : ParseState) → parse.state ≡ expect_table → ItemsRun xs parse
unfolding walk
walk_items-ItemsRun no_items parse h = taken [] refl refl
walk_items-ItemsRun (item (scalar json_token_string token) xs) parse h =
    pushes token xs parse h
      (walk_items-ItemsRun xs (push_table token parse) (push_table-state parse h token))
walk_items-ItemsRun (item (array ys) xs) parse h =
    refuses _ _ _ refl (array-Rejected ys parse (element-Rejected parse h array_start refl))
walk_items-ItemsRun (item (object fs) xs) parse h =
    refuses _ _ _ refl (object-Rejected fs parse (element-Rejected parse h object_start refl))
walk_items-ItemsRun (item (scalar _ token) xs) parse h =
    refuses _ _ _ refl (element-Rejected parse h _ refl)
