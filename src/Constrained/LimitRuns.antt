-- ===== src/Constrained/LimitRuns.antt =====
-- What the parser of the constraints makes of one constraint.
use supautils.Prelude.{
  ◌≡◌, refl, sym, subst, ◌∙◌, true, false, Option, none, CString, cstr, str_eq, arith, Bool-cases,
  Option-cases, inl, inr,
}
use supautils.Json.{
  Json, scalar, array, object, object_start, array_start, object_field_start, JsonTokenType,
  json_token_string, json_token_number, json_token_true, json_token_false, json_token_null, walk,
}
use supautils.Json.Laws.{walk_items-Invariant, walk_fields-Invariant}
use supautils.Json.Objects.{taken, refused}
use supautils.Constrained.{ℤ}
use supautils.Constrained.Parser.{
  ParseState, unexpected_field, sem, action, constraint_field, json_array_start, json_object_start,
  assign, reject, msg_field, expect_cpu, expect_mem, expect_disk,
}
use supautils.Constrained.Limits.{
  limit_of_scalar, limit_cpu, limit_mem, limit_disk, Failed, Failed-Invariant, Inside, LimitRun,
  step,
}

module _ (atoi : CString → ℤ) (pg_size_bytes : CString → Option ℤ) where
  -- What a field's name leads to.
  data FieldKind (fname : CString) (parse : ParseState) : Type 0 where
    cpu_field :
        str_eq fname (cstr "cpu") ≡ true
        → constraint_field fname parse ≡ record parse { state = expect_cpu }
        → FieldKind fname parse
    mem_field :
        str_eq fname (cstr "cpu") ≡ false
        → str_eq fname (cstr "mem") ≡ true
        → constraint_field fname parse ≡ record parse { state = expect_mem }
        → FieldKind fname parse
    disk_field :
        str_eq fname (cstr "cpu") ≡ false
        → str_eq fname (cstr "mem") ≡ false
        → str_eq fname (cstr "disk") ≡ true
        → constraint_field fname parse ≡ record parse { state = expect_disk }
        → FieldKind fname parse
    other_field :
        str_eq fname (cstr "cpu") ≡ false
        → str_eq fname (cstr "mem") ≡ false
        → str_eq fname (cstr "disk") ≡ false
        → constraint_field fname parse ≡ reject unexpected_field msg_field parse
        → FieldKind fname parse

  kind : (fname : CString) (parse : ParseState) → FieldKind fname parse
  unfolding constraint_field
  kind fname parse = elim (Bool-cases (str_eq fname (cstr "cpu"))) [
    | inl c ↦ cpu_field c (ground arith)
    | inr c ↦ elim (Bool-cases (str_eq fname (cstr "mem"))) [
      | inl m ↦ mem_field c m (ground arith)
      | inr m ↦ elim (Bool-cases (str_eq fname (cstr "disk"))) [
        | inl d ↦ disk_field c m d (ground arith)
        | inr d ↦ other_field c m d (ground arith)
      ]
    ]
  ]

  named :
      (fname : CString) (parse : ParseState)
      → Inside parse
      → step atoi pg_size_bytes (object_field_start fname) parse ≡ constraint_field fname parse
  unfolding sem action
  named fname parse h = ground arith

  -- A scalar, behind the field's name.
  cpu-scalar :
      (t : JsonTokenType) (fname token : CString) (parse : ParseState)
      → Inside parse
      → str_eq fname (cstr "cpu") ≡ true
      → step atoi pg_size_bytes (object_field_start fname) parse
        ≡ record parse { state = expect_cpu }
      → LimitRun atoi pg_size_bytes fname (scalar t token) parse
  unfolding walk sem action limit_of_scalar
  cpu-scalar json_token_number fname token parse h q e =
      taken (limit_cpu (atoi token)) (ground arith) (ground arith)
  cpu-scalar json_token_string fname token parse h q e =
      refused (ground arith) (record { is_failed = ground arith })
  cpu-scalar json_token_true fname token parse h q e =
      refused refl (record { is_failed = ground arith })
  cpu-scalar json_token_false fname token parse h q e =
      refused refl (record { is_failed = ground arith })
  cpu-scalar json_token_null fname token parse h q e =
      refused refl (record { is_failed = ground arith })

  mem-scalar :
      (t : JsonTokenType) (fname token : CString) (parse : ParseState)
      → Inside parse
      → str_eq fname (cstr "cpu") ≡ false
      → str_eq fname (cstr "mem") ≡ true
      → step atoi pg_size_bytes (object_field_start fname) parse
        ≡ record parse { state = expect_mem }
      → LimitRun atoi pg_size_bytes fname (scalar t token) parse
  unfolding walk sem action limit_of_scalar assign
  mem-scalar json_token_string fname token parse h c m e =
      elim (Option-cases (pg_size_bytes token)) [
        | inl n ↦ refused (ground arith) (record { is_failed = ground arith })
        | inr (n, s) ↦ taken (limit_mem n) (ground arith) (ground arith)
      ]
  mem-scalar json_token_number fname token parse h c m e =
      refused (ground arith) (record { is_failed = ground arith })
  mem-scalar json_token_true fname token parse h c m e =
      refused refl (record { is_failed = ground arith })
  mem-scalar json_token_false fname token parse h c m e =
      refused refl (record { is_failed = ground arith })
  mem-scalar json_token_null fname token parse h c m e =
      refused refl (record { is_failed = ground arith })

  disk-scalar :
      (t : JsonTokenType) (fname token : CString) (parse : ParseState)
      → Inside parse
      → str_eq fname (cstr "cpu") ≡ false
      → str_eq fname (cstr "mem") ≡ false
      → str_eq fname (cstr "disk") ≡ true
      → step atoi pg_size_bytes (object_field_start fname) parse
        ≡ record parse { state = expect_disk }
      → LimitRun atoi pg_size_bytes fname (scalar t token) parse
  unfolding walk sem action limit_of_scalar assign
  disk-scalar json_token_string fname token parse h c m d e =
      elim (Option-cases (pg_size_bytes token)) [
        | inl n ↦ refused (ground arith) (record { is_failed = ground arith })
        | inr (n, s) ↦ taken (limit_disk n) (ground arith) (ground arith)
      ]
  disk-scalar json_token_number fname token parse h c m d e =
      refused (ground arith) (record { is_failed = ground arith })
  disk-scalar json_token_true fname token parse h c m d e =
      refused refl (record { is_failed = ground arith })
  disk-scalar json_token_false fname token parse h c m d e =
      refused refl (record { is_failed = ground arith })
  disk-scalar json_token_null fname token parse h c m d e =
      refused refl (record { is_failed = ground arith })

  limit_of_other :
      (t : JsonTokenType) (fname token : CString)
      → str_eq fname (cstr "cpu") ≡ false
      → str_eq fname (cstr "mem") ≡ false
      → str_eq fname (cstr "disk") ≡ false
      → limit_of_scalar atoi pg_size_bytes fname t token ≡ none
  unfolding limit_of_scalar
  limit_of_other json_token_string fname token c m d = ground arith
  limit_of_other json_token_number fname token c m d = ground arith
  limit_of_other json_token_true fname token c m d = refl
  limit_of_other json_token_false fname token c m d = refl
  limit_of_other json_token_null fname token c m d = refl

  scalar-LimitRun :
      (t : JsonTokenType) (fname token : CString) (parse : ParseState)
      → Inside parse
      → LimitRun atoi pg_size_bytes fname (scalar t token) parse
  unfolding walk
  scalar-LimitRun t fname token parse h = elim (kind fname parse) [
    | cpu_field c e ↦ cpu-scalar t fname token parse h c (named fname parse h ∙ e)
    | mem_field c m e ↦ mem-scalar t fname token parse h c m (named fname parse h ∙ e)
    | disk_field c m d e ↦ disk-scalar t fname token parse h c m d (named fname parse h ∙ e)
    | other_field c m d e ↦ refused (limit_of_other t fname token c m d) (
        (Failed-Invariant atoi pg_size_bytes).at _ _
          (subst Failed (sym (named fname parse h ∙ e)) (record { is_failed = ground arith })))
  ]

  -- An array or an object for a constraint.
  pub array_start-Failed : (parse : ParseState) → Failed (step atoi pg_size_bytes array_start parse)
  unfolding sem action json_array_start
  array_start-Failed parse = record { is_failed = ground arith }

  object-Failed :
      (fname : CString) (parse : ParseState)
      → Inside parse
      → Failed (
          step atoi pg_size_bytes object_start
            (step atoi pg_size_bytes (object_field_start fname) parse))
  unfolding sem action json_object_start
  object-Failed fname parse h = elim (kind fname parse) [
    | cpu_field c e ↦ let k = named fname parse h ∙ e in record { is_failed = ground arith }
    | mem_field c m e ↦ let k = named fname parse h ∙ e in record { is_failed = ground arith }
    | disk_field c m d e ↦ let k = named fname parse h ∙ e in record { is_failed = ground arith }
    | other_field c m d e ↦ let k = named fname parse h ∙ e in record { is_failed = ground arith }
  ]

  pub limit_run :
      (fname : CString) (x : Json) (parse : ParseState)
      → Inside parse
      → LimitRun atoi pg_size_bytes fname x parse
  unfolding walk
  limit_run fname (scalar t token) parse h = scalar-LimitRun t fname token parse h
  limit_run fname (array xs) parse h = refused refl (
      (Failed-Invariant atoi pg_size_bytes).at _ _ (
        walk_items-Invariant (step atoi pg_size_bytes) Failed (Failed-Invariant atoi pg_size_bytes)
          xs _ (array_start-Failed _)))
  limit_run fname (object fs) parse h = refused refl (
      (Failed-Invariant atoi pg_size_bytes).at _ _ (
        walk_fields-Invariant (step atoi pg_size_bytes) Failed (Failed-Invariant atoi pg_size_bytes)
          fs _ (object-Failed fname parse h)))
