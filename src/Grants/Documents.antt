-- ===== src/Grants/Documents.antt =====
-- Which texts the parser of the grants takes, and what it makes of them.
use supautils.Prelude.{
  ◌≡◌, refl, ap, sym, subst, ◌∙◌, ℕ, ◌+◌, none, some, List, [], ◌∷◌, CString, arith,
}
use supautils.Json.{
  Json, Items, Fields, scalar, array, object, no_fields, field, object_start, array_start,
  array_end, object_field_start, scalar_token, walk, walk_items, walk_fields, JsonTokenType,
  json_token_string, json_token_number, json_token_true, json_token_false, json_token_null,
}
use supautils.Json.Laws.{walk_fields-Stuck}
use supautils.Grants.{PolicyGrants}
use supautils.Grants.Parser.{
  ParseState, push_table, expect_toplevel_field, expect_tables_start, expect_table, sem, push_table,
  set_role, initial,
}
use supautils.Grants.Tables.{
  Grant, strings_of, grants_of_fields, grants_of, Rejected, Rejected-Stuck, push_tables, taken,
  refused, array-Rejected, object-Rejected, walk_items-ItemsRun,
}

-- A grant of the document is written behind those before it.
abbrev pub open_grant : CString → ParseState → ParseState
open_grant role parse = record (set_role role parse) { state = expect_table }

abbrev pub close_grant : ParseState → ParseState
close_grant parse = record parse { state = expect_toplevel_field; total_pgs = parse.total_pgs + 1 }

abbrev pub add_grants : List Grant → ParseState → ParseState
add_grants [] parse = parse
add_grants ((role, ts) ∷ gs) parse =
    add_grants gs (close_grant (push_tables ts (open_grant role parse)))

pub data FieldsRun (fs : Fields) (parse : ParseState) : Type 0 where
  accepted :
      (gs : List Grant)
      → grants_of_fields fs ≡ some gs
      → walk_fields sem fs parse ≡ add_grants gs parse
      → FieldsRun fs parse
  rejected : grants_of_fields fs ≡ none → Rejected (walk_fields sem fs parse) → FieldsRun fs parse

push_tables-state :
    (ts : List CString) (parse : ParseState)
    → parse.state ≡ expect_table
    → (push_tables ts parse).state ≡ expect_table
push_tables-state [] parse h = h
push_tables-state (t ∷ ts) parse h =
    push_tables-state ts (push_table t parse) (unfold push_table in h)

-- A value that is no array, behind the name of a role.
module _ (role : CString) (parse : ParseState) (top : parse.state ≡ expect_toplevel_field) where
  named : ParseState
  named = sem (object_field_start role) parse

  named-state : named.state ≡ expect_tables_start
  unfolding named sem
  named-state = ground arith

  scalar-Rejected :
      (t : JsonTokenType) (token : CString) → Rejected (sem (scalar_token t token) named)
  unfolding sem
  scalar-Rejected json_token_string token = ground (arith, named-state)
  scalar-Rejected json_token_number token = ground (arith, named-state)
  scalar-Rejected json_token_true token = ground (arith, named-state)
  scalar-Rejected json_token_false token = ground (arith, named-state)
  scalar-Rejected json_token_null token = ground (arith, named-state)

  object_start-Rejected : Rejected (sem object_start named)
  unfolding sem
  object_start-Rejected = ground (arith, named-state)

  opened : sem array_start named ≡ open_grant role parse
  unfolding named sem
  opened = ground arith

  closed : (p : ParseState) → p.state ≡ expect_table → sem array_end p ≡ close_grant p
  unfolding sem
  closed p h = ground arith

  -- A value that is rejected ends the walk.
  refuses :
      (x : Json) (fs : Fields)
      → grants_of_fields (field role x fs) ≡ none
      → Rejected (walk sem x named)
      → FieldsRun (field role x fs) parse
  unfolding walk named
  refuses x fs h r =
      rejected h (subst Rejected (sym (walk_fields-Stuck sem _ (Rejected-Stuck _ r) fs)) r)

  grant_closed : List CString → ParseState
  grant_closed ts = close_grant (push_tables ts (open_grant role parse))

  -- An array of strings is a grant.
  walk-grant :
      (xs : Items) (ts : List CString)
      → walk_items sem xs (open_grant role parse) ≡ push_tables ts (open_grant role parse)
      → walk sem (array xs) named ≡ grant_closed ts
  unfolding walk grant_closed
  walk-grant xs ts w =
      ap (λ p. sem array_end (walk_items sem xs p)) opened
      ∙ ap (sem array_end) w
      ∙ closed _ (push_tables-state ts (open_grant role parse) refl)

  adds :
      (xs : Items) (fs : Fields) (ts : List CString)
      → strings_of xs ≡ some ts
      → walk sem (array xs) named ≡ grant_closed ts
      → FieldsRun fs (grant_closed ts)
      → FieldsRun (field role (array xs) fs) parse
  unfolding walk grant_closed named
  adds xs fs ts h w (accepted gs e v) =
      accepted ((role, ts) ∷ gs) (ground arith) (ap (walk_fields sem fs) w ∙ v)
  adds xs fs ts h w (rejected e r) =
      rejected (ground arith) (subst Rejected (sym (ap (walk_fields sem fs) w)) r)

  not_strings :
      (xs : Items) (fs : Fields)
      → strings_of xs ≡ none
      → Rejected (walk_items sem xs (open_grant role parse))
      → FieldsRun (field role (array xs) fs) parse
  unfolding walk
  not_strings xs fs h r =
      let k = Rejected-Stuck _ r in
      refuses (array xs) fs (ground arith) (
        subst Rejected (sym (ap (λ p. sem array_end (walk_items sem xs p)) opened ∙ k.at array_end))
          r)

walk_fields-FieldsRun :
    (fs : Fields) (parse : ParseState) → parse.state ≡ expect_toplevel_field → FieldsRun fs parse
unfolding walk
walk_fields-FieldsRun no_fields parse h = accepted [] refl refl
walk_fields-FieldsRun (field role (scalar t token) fs) parse h =
    refuses role parse h _ fs refl (scalar-Rejected role parse h t token)
walk_fields-FieldsRun (field role (object gs) fs) parse h =
    refuses role parse h _ fs refl (object-Rejected gs _ (object_start-Rejected role parse h))
walk_fields-FieldsRun (field role (array xs) fs) parse h =
    elim (walk_items-ItemsRun xs (open_grant role parse) refl) [
      | taken ts e w ↦
          adds role parse h xs fs ts e (walk-grant role parse h xs ts w)
            (walk_fields-FieldsRun fs (grant_closed role parse h ts) (unfold grant_closed in refl))
      | refused e r ↦ not_strings role parse h xs fs e r
    ]

-- The state behind the opening brace.
abbrev pub started : (ℕ → PolicyGrants) → ParseState
started pgs = record (initial pgs) { state = expect_toplevel_field }

pub data DocumentRun (j : Json) (pgs : ℕ → PolicyGrants) : Type 0 where
  accepted :
      (gs : List Grant)
      → grants_of j ≡ some gs
      → walk sem j (initial pgs) ≡ add_grants gs (started pgs)
      → DocumentRun j pgs
  rejected : grants_of j ≡ none → Rejected (walk sem j (initial pgs)) → DocumentRun j pgs

document :
    (fs : Fields) (pgs : ℕ → PolicyGrants)
    → FieldsRun fs (started pgs)
    → DocumentRun (object fs) pgs
unfolding walk sem initial
document fs pgs (accepted gs e w) = accepted gs e w
document fs pgs (rejected e r) = rejected e r

top-Rejected :
    (pgs : ℕ → PolicyGrants) (t : JsonTokenType) (token : CString)
    → Rejected (sem (scalar_token t token) (initial pgs))
unfolding sem initial
top-Rejected pgs json_token_string token = ground arith
top-Rejected pgs json_token_number token = ground arith
top-Rejected pgs json_token_true token = ground arith
top-Rejected pgs json_token_false token = ground arith
top-Rejected pgs json_token_null token = ground arith

top_array-Rejected : (pgs : ℕ → PolicyGrants) → Rejected (sem array_start (initial pgs))
unfolding sem initial
top_array-Rejected pgs = ground arith

pub walk-DocumentRun : (j : Json) (pgs : ℕ → PolicyGrants) → DocumentRun j pgs
unfolding walk
walk-DocumentRun (object fs) pgs = document fs pgs (walk_fields-FieldsRun fs (started pgs) refl)
walk-DocumentRun (scalar t token) pgs = rejected refl (top-Rejected pgs t token)
walk-DocumentRun (array xs) pgs = rejected refl (array-Rejected xs _ (top_array-Rejected pgs))
