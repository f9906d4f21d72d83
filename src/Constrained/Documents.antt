-- ===== src/Constrained/Documents.antt =====
-- Which texts the parser of the constraints takes, and what it makes of them.
use supautils.Prelude.{
  ◌≡◌, refl, ap, sym, subst, ◌∙◌, ℕ, ◌+◌, false, Option, none, some, List, [], ◌∷◌, CString, arith,
}
use supautils.Json.{
  Json, Fields, scalar, array, object, Event, object_start, object_end, object_field_start,
  scalar_token, JsonTokenType, json_token_string, json_token_number, json_token_true,
  json_token_false, json_token_null, walk, walk_fields,
}
use supautils.Json.Laws.{walk_items-Invariant}
use supautils.Json.Objects.{
  all_fields, apply_all, FieldRun, taken, refused, FieldsRun, all_taken, one_refused, fields_run,
}
use supautils.Constrained.{ℤ, ConstrainedExtension}
use supautils.Constrained.Parser.{
  ParseState, expect_toplevel_field, expect_constraints_start, sem, action, set_entry, set_name,
  initial,
}
use supautils.Constrained.Limits.{
  Limit, limit_of, apply_limit, apply_limit-Inside, Inside, Failed, Failed-Invariant, step,
}
use supautils.Constrained.LimitRuns.{limit_run, array_start-Failed}

-- An extension of a document, with its constraints in their order.
abbrev pub Constraint : Type 0
Constraint = CString × List Limit

abbrev pub open_entry : CString → ParseState → ParseState
open_entry name parse = record (set_entry (set_name name) parse) {
  state = expect_constraints_start;
}

abbrev pub close_entry : ParseState → ParseState
close_entry parse = record parse {
  state = expect_toplevel_field;
  total_cexts = parse.total_cexts + 1;
}

abbrev pub apply_constraint : Constraint → ParseState → ParseState
apply_constraint (name, ls) parse = close_entry (apply_all apply_limit ls (open_entry name parse))

-- Between the extensions.
pub record Between (parse : ParseState) : Type 0 where
  pub state_is : parse.state ≡ expect_toplevel_field
  pub not_raised : parse.raised ≡ false

open_entry-Inside :
    (name : CString) (parse : ParseState) → Between parse → Inside (open_entry name parse)
unfolding set_entry
open_entry-Inside name parse h = record { state_is = refl; not_raised = h.not_raised }

apply_all-Inside :
    (ls : List Limit) (parse : ParseState) → Inside parse → Inside (apply_all apply_limit ls parse)
apply_all-Inside [] parse h = h
apply_all-Inside (l ∷ ls) parse h = apply_all-Inside ls _ (apply_limit-Inside l parse h)

apply_constraint-Between :
    (c : Constraint) (parse : ParseState) → Between parse → Between (apply_constraint c parse)
apply_constraint-Between (name, ls) parse h = record {
  state_is = refl;
  not_raised = (apply_all-Inside ls _ (open_entry-Inside name parse h)).not_raised;
}

module _ (atoi : CString → ℤ) (pg_size_bytes : CString → Option ℤ) where
  abbrev pub constraint_of : CString → Json → Option Constraint
  constraint_of name (object fs) = elim (all_fields (limit_of atoi pg_size_bytes) fs) [
    | none ↦ none
    | some ls ↦ some (name, ls)
  ]
  constraint_of name _ = none

  -- The constraints that a document stands for: those of an object of objects.
  abbrev pub constraints_of : Json → Option (List Constraint)
  constraints_of (object fs) = all_fields constraint_of fs
  constraints_of _ = none

  abbrev act : Event → ParseState → ParseState
  act = step atoi pg_size_bytes

  abbrev ConstraintRun : CString → Json → ParseState → Type 0
  ConstraintRun = FieldRun act constraint_of apply_constraint Failed

  -- At the name of an extension, and at the braces of its object.
  module _ (name : CString) (parse : ParseState) (h : Between parse) where
    named : act (object_field_start name) parse ≡ open_entry name parse
    unfolding sem action
    named = ground arith

    opened : (p : ParseState) → Inside p → act object_start p ≡ p
    unfolding sem action
    opened p k = ground arith

    closed : (p : ParseState) → Inside p → act object_end p ≡ close_entry p
    unfolding sem action
    closed p k = ground arith

    not_object :
        (e : Event) (f : ParseState → ParseState)
        → Failed (f (open_entry name parse))
        → Failed (f (act (object_field_start name) parse))
    not_object e f k = subst (λ p. Failed (f p)) (sym named) k

    scalar-Failed :
        (t : JsonTokenType) (token : CString) (p : ParseState)
        → Inside p
        → Failed (act (scalar_token t token) p)
    unfolding sem action
    scalar-Failed json_token_string token p k = record { is_failed = ground arith }
    scalar-Failed json_token_number token p k = record { is_failed = ground arith }
    scalar-Failed json_token_true token p k = record { is_failed = ground arith }
    scalar-Failed json_token_false token p k = record { is_failed = ground arith }
    scalar-Failed json_token_null token p k = record { is_failed = ground arith }

    object_run :
        (fs : Fields)
        → FieldsRun act (limit_of atoi pg_size_bytes) apply_limit Failed fs (open_entry name parse)
        → ConstraintRun name (object fs) parse
    unfolding walk
    object_run fs (all_taken ls e w) =
        let inside = open_entry-Inside name parse h in
        taken (name, ls) (ground arith)
          (ap (λ p. act object_end (walk_fields act fs (act object_start p))) named
            ∙ ap (λ p. act object_end (walk_fields act fs p)) (opened _ inside)
            ∙ ap (act object_end) w
            ∙ closed _ (apply_all-Inside ls _ inside))
    object_run fs (one_refused e bad) =
        let inside = open_entry-Inside name parse h in
        refused (ground arith) (
          subst (λ p. Failed (act object_end (walk_fields act fs (act object_start p)))) (sym named)
            (subst (λ p. Failed (act object_end (walk_fields act fs p))) (sym (opened _ inside))
              ((Failed-Invariant atoi pg_size_bytes).at _ _ bad)))

    constraint_run : (x : Json) → ConstraintRun name x parse
    unfolding walk
    constraint_run (scalar t token) = refused refl (
        subst (λ p. Failed (act (scalar_token t token) p)) (sym named)
          (scalar-Failed t token _ (open_entry-Inside name parse h)))
    constraint_run (array xs) =
        let keeps = Failed-Invariant atoi pg_size_bytes in
        refused refl (
          keeps.at _ _
            (walk_items-Invariant act Failed keeps xs _ (array_start-Failed atoi pg_size_bytes _)))
    constraint_run (object fs) = object_run fs (
        fields_run act (limit_of atoi pg_size_bytes) apply_limit Failed Inside
          (Failed-Invariant atoi pg_size_bytes) apply_limit-Inside (limit_run atoi pg_size_bytes) fs
          _ (open_entry-Inside name parse h))

  -- The state behind the opening brace.
  abbrev pub started : (ℕ → ConstrainedExtension) → ParseState
  started cexts = record (initial cexts) { state = expect_toplevel_field }

  pub data DocumentRun (j : Json) (cexts : ℕ → ConstrainedExtension) : Type 0 where
    accepted :
        (cs : List Constraint)
        → constraints_of j ≡ some cs
        → walk act j (initial cexts) ≡ apply_all apply_constraint cs (started cexts)
        → DocumentRun j cexts
    rejected : constraints_of j ≡ none → Failed (walk act j (initial cexts)) → DocumentRun j cexts

  top_closed : (p : ParseState) → Between p → act object_end p ≡ p
  unfolding sem action
  top_closed p k = ground arith

  apply_all-Between :
      (cs : List Constraint) (p : ParseState)
      → Between p
      → Between (apply_all apply_constraint cs p)
  apply_all-Between [] p h = h
  apply_all-Between (c ∷ cs) p h = apply_all-Between cs _ (apply_constraint-Between c p h)

  started-Between : (cexts : ℕ → ConstrainedExtension) → Between (started cexts)
  unfolding initial
  started-Between cexts = record { state_is = refl; not_raised = refl }

  document :
      (fs : Fields) (cexts : ℕ → ConstrainedExtension)
      → FieldsRun act constraint_of apply_constraint Failed fs (started cexts)
      → DocumentRun (object fs) cexts
  unfolding walk sem action initial
  document fs cexts (all_taken cs e w) = accepted cs e (
      ap (act object_end) w
      ∙ top_closed _ (apply_all-Between cs (started cexts) (started-Between cexts)))
  document fs cexts (one_refused e bad) =
      rejected e (
        (Failed-Invariant atoi pg_size_bytes).at object_end (walk_fields act fs (started cexts))
          bad)

  top_scalar-Failed :
      (t : JsonTokenType) (token : CString) (cexts : ℕ → ConstrainedExtension)
      → Failed (act (scalar_token t token) (initial cexts))
  unfolding sem action initial
  top_scalar-Failed json_token_string token cexts = record { is_failed = refl }
  top_scalar-Failed json_token_number token cexts = record { is_failed = refl }
  top_scalar-Failed json_token_true token cexts = record { is_failed = refl }
  top_scalar-Failed json_token_false token cexts = record { is_failed = refl }
  top_scalar-Failed json_token_null token cexts = record { is_failed = refl }

  pub document_run : (j : Json) (cexts : ℕ → ConstrainedExtension) → DocumentRun j cexts
  unfolding walk
  document_run (scalar t token) cexts = rejected refl (top_scalar-Failed t token cexts)
  document_run (array xs) cexts =
      let keeps = Failed-Invariant atoi pg_size_bytes in
      rejected refl (
        keeps.at _ _
          (walk_items-Invariant act Failed keeps xs _ (array_start-Failed atoi pg_size_bytes _)))
  document_run (object fs) cexts = document fs cexts (
      fields_run act constraint_of apply_constraint Failed Between
        (Failed-Invariant atoi pg_size_bytes) apply_constraint-Between
        (λ name x p h. constraint_run name p h x) fs _ (started-Between cexts))
