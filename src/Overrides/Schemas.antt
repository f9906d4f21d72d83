-- ===== src/Overrides/Schemas.antt =====
-- What the documents of the overrides stand for, and what the parser makes of one field.
use supautils.Prelude.{
  ◌≡◌, refl, ◌+◌, Bool, true, false, ◌&&◌, Option, none, some, List, CString, cstr, str_eq, arith,
  if◌then◌else◌, Bool-cases, inl, inr,
}
use supautils.Json.{
  Json, scalar, array, object, Event, object_start, object_end, array_start, array_end,
  object_field_start, scalar_token, JsonTokenType, json_token_string, json_token_number,
  json_token_true, json_token_false, json_token_null, walk,
}
use supautils.Json.Laws.{Invariant, walk_items-Invariant, walk_fields-Invariant}
use supautils.Json.Objects.{all_fields, apply_all, FieldRun, taken, refused}
use supautils.Overrides.Parser.{
  ParseState, SemanticState, ErrorMsg, expect_toplevel_field, expect_parameter_overrides_start,
  unexpected_field, unexpected_array, unexpected_scalar, unexpected_object, unexpected_schema_value,
  sem, set_entry, set_name, set_schema, json_array_start,
}

-- The schema that a field of an extension's object overrides.
abbrev pub schema_of : CString → Json → Option CString
schema_of fname (scalar json_token_string token) =
    if str_eq fname (cstr "schema") then some token else none
schema_of fname _ = none

-- An extension of a document, with its schemas in their order.
abbrev pub Override : Type 0
Override = CString × List CString

abbrev pub override_of : CString → Json → Option Override
override_of name (object fs) = elim (all_fields schema_of fs) [
  | none ↦ none
  | some schemas ↦ some (name, schemas)
]
override_of name _ = none

-- The overrides that a document stands for: those of an object of objects.
abbrev pub overrides_of : Json → Option (List Override)
overrides_of (object fs) = all_fields override_of fs
overrides_of _ = none

abbrev pub is_unexpected : SemanticState → Bool
is_unexpected unexpected_field = true
is_unexpected unexpected_array = true
is_unexpected unexpected_scalar = true
is_unexpected unexpected_object = true
is_unexpected unexpected_schema_value = true
is_unexpected _ = false

abbrev pub has_msg : Option ErrorMsg → Bool
has_msg none = false
has_msg (some msg) = true

-- The parser has stopped with an error.
pub record Failed (parse : ParseState) : Type 0 where
  pub is_failed : (is_unexpected parse.state && has_msg parse.error_msg) ≡ true

sem-Failed :
    (e : Event) (p : ParseState)
    → (is_unexpected p.state && has_msg p.error_msg) ≡ true
    → let q = sem e p in (is_unexpected q.state && has_msg q.error_msg) ≡ true
unfolding sem
sem-Failed object_start p h = ground arith
sem-Failed object_end p h = ground arith
sem-Failed array_start p h = ground arith
sem-Failed array_end p h = ground arith
sem-Failed (object_field_start fname) p h = ground arith
sem-Failed (scalar_token t token) p h = ground arith

pub keeps : Invariant sem Failed
keeps = record { at = λ e p h. record { is_failed = sem-Failed e p h.is_failed } }

-- Inside the object of an extension, and between the extensions.
pub record Inside (parse : ParseState) : Type 0 where
  pub inside : parse.state ≡ expect_parameter_overrides_start

pub record Between (parse : ParseState) : Type 0 where
  pub between : parse.state ≡ expect_toplevel_field

abbrev pub apply_schema : CString → ParseState → ParseState
apply_schema schema parse = record (set_entry (set_schema schema) parse) {
  state = expect_parameter_overrides_start;
}

abbrev pub open_entry : CString → ParseState → ParseState
open_entry name parse = record (set_entry (set_name name) parse) {
  state = expect_parameter_overrides_start;
}

abbrev pub close_entry : ParseState → ParseState
close_entry parse = record parse {
  state = expect_toplevel_field;
  total_epos = parse.total_epos + 1;
}

abbrev pub apply_override_of : Override → ParseState → ParseState
apply_override_of (name, schemas) parse =
    close_entry (apply_all apply_schema schemas (open_entry name parse))

abbrev pub SchemaRun : CString → Json → ParseState → Type 0
SchemaRun = FieldRun sem schema_of apply_schema Failed

abbrev pub OverrideRun : CString → Json → ParseState → Type 0
OverrideRun = FieldRun sem override_of apply_override_of Failed

pub array_start-Failed : (p : ParseState) → Failed (sem array_start p)
unfolding sem json_array_start
array_start-Failed p = record { is_failed = refl }

module _ (fname : CString) (p : ParseState) (h : p.state ≡ expect_parameter_overrides_start) where
  scalar-SchemaRun : (t : JsonTokenType) (token : CString) → SchemaRun fname (scalar t token) p
  unfolding walk sem
  scalar-SchemaRun json_token_string token = elim (Bool-cases (str_eq fname (cstr "schema"))) [
    | inl q ↦ taken token (ground arith) (ground arith)
    | inr q ↦ refused (ground arith) (record { is_failed = ground arith })
  ]
  scalar-SchemaRun json_token_number token = refused refl (record { is_failed = ground arith })
  scalar-SchemaRun json_token_true token = refused refl (record { is_failed = ground arith })
  scalar-SchemaRun json_token_false token = refused refl (record { is_failed = ground arith })
  scalar-SchemaRun json_token_null token = refused refl (record { is_failed = ground arith })

  object_start-Failed : Failed (sem object_start (sem (object_field_start fname) p))
  unfolding sem
  object_start-Failed = record { is_failed = ground arith }

pub schema_run : (fname : CString) (x : Json) (p : ParseState) → Inside p → SchemaRun fname x p
unfolding walk
schema_run fname (scalar t token) p h = scalar-SchemaRun fname p h.inside t token
schema_run fname (array xs) p h =
    refused refl (keeps.at _ _ (walk_items-Invariant sem Failed keeps xs _ (array_start-Failed _)))
schema_run fname (object fs) p h = refused refl (
    keeps.at _ _
      (walk_fields-Invariant sem Failed keeps fs _ (object_start-Failed fname p h.inside)))
