-- ===== src/Overrides/Documents.antt =====
-- Which texts the parser of the overrides takes, and what it makes of them.
use supautils.Prelude.{◌≡◌, refl, ap, sym, subst, ◌∙◌, ℕ, none, some, List, [], ◌∷◌, CString, arith}
use supautils.Json.{
  Json, Fields, scalar, array, object, object_start, object_end, object_field_start, scalar_token,
  JsonTokenType, json_token_string, json_token_number, json_token_true, json_token_false,
  json_token_null, walk, walk_fields,
}
use supautils.Json.Laws.{walk_items-Invariant}
use supautils.Json.Objects.{
  apply_all, taken, refused, FieldsRun, all_taken, one_refused, fields_run,
}
use supautils.Overrides.{ExtensionParameterOverrides}
use supautils.Overrides.Parser.{
  ParseState, expect_toplevel_field, expect_parameter_overrides_start, sem, initial,
}
use supautils.Overrides.Schemas.{
  Override, schema_of, override_of, overrides_of, Failed, keeps, Inside, Between, apply_schema,
  apply_override_of, open_entry, close_entry, OverrideRun, array_start-Failed, schema_run,
}

apply_all-Inside :
    (l : List CString) (p : ParseState) → Inside p → Inside (apply_all apply_schema l p)
apply_all-Inside [] p h = h
apply_all-Inside (x ∷ l) p h = apply_all-Inside l _ (record { inside = refl })

module _ (name : CString) (p : ParseState) (h : Between p) where
  named : sem (object_field_start name) p ≡ open_entry name p
  unfolding sem
  named = let k = h.between in ground arith

  opened : (q : ParseState) → Inside q → sem object_start q ≡ q
  unfolding sem
  opened q k = let i = k.inside in ground arith

  closed : (q : ParseState) → Inside q → sem object_end q ≡ close_entry q
  unfolding sem
  closed q k = let i = k.inside in ground arith

  scalar-Failed :
      (t : JsonTokenType) (token : CString) (q : ParseState)
      → q.state ≡ expect_parameter_overrides_start
      → Failed (sem (scalar_token t token) q)
  unfolding sem
  scalar-Failed json_token_string token q i = record { is_failed = ground arith }
  scalar-Failed json_token_number token q i = record { is_failed = ground arith }
  scalar-Failed json_token_true token q i = record { is_failed = ground arith }
  scalar-Failed json_token_false token q i = record { is_failed = ground arith }
  scalar-Failed json_token_null token q i = record { is_failed = ground arith }

  object_run :
      (fs : Fields)
      → FieldsRun sem schema_of apply_schema Failed fs (open_entry name p)
      → OverrideRun name (object fs) p
  unfolding walk
  object_run fs (all_taken l e w) =
      taken (name, l) (ground arith)
        (ap (λ q. sem object_end (walk_fields sem fs (sem object_start q))) named
          ∙ ap (λ q. sem object_end (walk_fields sem fs q)) (opened _ (record { inside = refl }))
          ∙ ap (sem object_end) w
          ∙ closed _ (apply_all-Inside l _ (record { inside = refl })))
  object_run fs (one_refused e bad) = refused (ground arith) (
      subst (λ q. Failed (sem object_end (walk_fields sem fs (sem object_start q)))) (sym named)
        (subst (λ q. Failed (sem object_end (walk_fields sem fs q)))
          (sym (opened _ (record { inside = refl }))) (keeps.at _ _ bad)))

  override_run : (x : Json) → OverrideRun name x p
  unfolding walk
  override_run (scalar t token) = refused refl (
      subst (λ q. Failed (sem (scalar_token t token) q)) (sym named) (scalar-Failed t token _ refl))
  override_run (array xs) =
      refused refl
        (keeps.at _ _ (walk_items-Invariant sem Failed keeps xs _ (array_start-Failed _)))
  override_run (object fs) = object_run fs (
      fields_run sem schema_of apply_schema Failed Inside keeps
        (λ schema q k. record { inside = refl }) schema_run fs _ (record { inside = refl }))

-- The state behind the opening brace.
abbrev pub started : (ℕ → ExtensionParameterOverrides) → ParseState
started epos = record (initial epos) { state = expect_toplevel_field }

pub data DocumentRun (j : Json) (epos : ℕ → ExtensionParameterOverrides) : Type 0 where
  accepted :
      (l : List Override)
      → overrides_of j ≡ some l
      → walk sem j (initial epos) ≡ apply_all apply_override_of l (started epos)
      → DocumentRun j epos
  rejected : overrides_of j ≡ none → Failed (walk sem j (initial epos)) → DocumentRun j epos

top_closed : (q : ParseState) → Between q → sem object_end q ≡ q
unfolding sem
top_closed q k = let i = k.between in ground arith

apply_all-Between :
    (l : List Override) (q : ParseState) → Between q → Between (apply_all apply_override_of l q)
apply_all-Between [] q h = h
apply_all-Between (x ∷ l) q h = apply_all-Between l _ (record { between = refl })

document :
    (fs : Fields) (epos : ℕ → ExtensionParameterOverrides)
    → FieldsRun sem override_of apply_override_of Failed fs (started epos)
    → DocumentRun (object fs) epos
unfolding walk sem initial
document fs epos (all_taken l e w) = accepted l e (
    ap (sem object_end) w
    ∙ top_closed _ (apply_all-Between l (started epos) (record { between = refl })))
document fs epos (one_refused e bad) =
    rejected e (keeps.at object_end (walk_fields sem fs (started epos)) bad)

top_scalar-Failed :
    (t : JsonTokenType) (token : CString) (epos : ℕ → ExtensionParameterOverrides)
    → Failed (sem (scalar_token t token) (initial epos))
unfolding sem initial
top_scalar-Failed json_token_string token epos = record { is_failed = refl }
top_scalar-Failed json_token_number token epos = record { is_failed = refl }
top_scalar-Failed json_token_true token epos = record { is_failed = refl }
top_scalar-Failed json_token_false token epos = record { is_failed = refl }
top_scalar-Failed json_token_null token epos = record { is_failed = refl }

pub document_run : (j : Json) (epos : ℕ → ExtensionParameterOverrides) → DocumentRun j epos
unfolding walk
document_run (scalar t token) epos = rejected refl (top_scalar-Failed t token epos)
document_run (array xs) epos =
    rejected refl (keeps.at _ _ (walk_items-Invariant sem Failed keeps xs _ (array_start-Failed _)))
document_run (object fs) epos = document fs epos (
    fields_run sem override_of apply_override_of Failed Between keeps
      (λ x q k. record { between = refl }) (λ name x q k. override_run name q k x) fs _
      (record { between = refl }))
