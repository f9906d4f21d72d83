-- ===== src/Constrained/Limits.antt =====
-- What one constraint of a document stands for, and when the parser of the constraints has failed.
use supautils.Prelude.{
  ◌≡◌, refl, Bool, true, false, ◌||◌, ◌&&◌, Option, none, some, CString, cstr, str_eq, arith,
  if◌then◌else◌,
}
use supautils.Json.{
  Json, scalar, Event, object_start, object_end, array_start, array_end, object_field_start,
  scalar_token, JsonTokenType, json_token_string, json_token_number,
}
use supautils.Json.Laws.{Invariant}
use supautils.Json.Objects.{FieldRun}
use supautils.Constrained.{ℤ, ConstrainedExtension}
use supautils.Constrained.Parser.{
  ParseState, SemanticState, ErrorMsg, expect_constraints_start, unexpected_field, unexpected_array,
  unexpected_scalar, unexpected_object, unexpected_cpu_value, unexpected_mem_value,
  unexpected_disk_value, sem, action, set_entry, set_cpu, set_mem, set_disk,
}

-- A constraint of a document.
pub data Limit : Type 0 where
  limit_cpu limit_mem limit_disk : ℤ → Limit

abbrev pub set_limit : Limit → ConstrainedExtension → ConstrainedExtension
set_limit (limit_cpu n) = set_cpu n
set_limit (limit_mem n) = set_mem n
set_limit (limit_disk n) = set_disk n

abbrev size : (ℤ → Limit) → Option ℤ → Option Limit
size limit none = none
size limit (some n) = some (limit n)

module _ (atoi : CString → ℤ) (pg_size_bytes : CString → Option ℤ) where
  -- CPUs are a number; memory and disk are strings that have a size.
  unfoldable pub limit_of_scalar : CString → JsonTokenType → CString → Option Limit
  limit_of_scalar fname json_token_number token =
      if str_eq fname (cstr "cpu") then some (limit_cpu (atoi token)) else none
  limit_of_scalar fname json_token_string token =
      if str_eq fname (cstr "cpu")
      then none
      else if str_eq fname (cstr "mem")
      then size limit_mem (pg_size_bytes token)
      else if str_eq fname (cstr "disk")
      then size limit_disk (pg_size_bytes token)
      else none
  limit_of_scalar fname _ token = none

  abbrev pub limit_of : CString → Json → Option Limit
  limit_of fname (scalar tokentype token) = limit_of_scalar fname tokentype token
  limit_of fname _ = none

abbrev pub is_unexpected : SemanticState → Bool
is_unexpected unexpected_field = true
is_unexpected unexpected_array = true
is_unexpected unexpected_scalar = true
is_unexpected unexpected_object = true
is_unexpected unexpected_cpu_value = true
is_unexpected unexpected_mem_value = true
is_unexpected unexpected_disk_value = true
is_unexpected _ = false

abbrev pub has_msg : Option ErrorMsg → Bool
has_msg none = false
has_msg (some msg) = true

-- The parser has stopped with an error.
abbrev pub failed : ParseState → Bool
failed parse = parse.raised || (is_unexpected parse.state && has_msg parse.error_msg)

pub record Failed (parse : ParseState) : Type 0 where
  pub is_failed : failed parse ≡ true

-- Inside an object of constraints.
pub record Inside (parse : ParseState) : Type 0 where
  pub state_is : parse.state ≡ expect_constraints_start
  pub not_raised : parse.raised ≡ false

abbrev pub apply_limit : Limit → ParseState → ParseState
apply_limit l parse = record (set_entry (set_limit l) parse) { state = expect_constraints_start }

pub apply_limit-Inside :
    (l : Limit) (parse : ParseState) → Inside parse → Inside (apply_limit l parse)
unfolding set_entry
apply_limit-Inside l parse h = record { state_is = refl; not_raised = h.not_raised }

module _ (atoi : CString → ℤ) (pg_size_bytes : CString → Option ℤ) where
  abbrev pub step : Event → ParseState → ParseState
  step = sem atoi pg_size_bytes

  sem-Failed : (e : Event) (parse : ParseState) → failed parse ≡ true → failed (step e parse) ≡ true
  unfolding sem action
  sem-Failed object_start parse h = ground arith
  sem-Failed object_end parse h = ground arith
  sem-Failed array_start parse h = ground arith
  sem-Failed array_end parse h = ground arith
  sem-Failed (object_field_start fname) parse h = ground arith
  sem-Failed (scalar_token t token) parse h = ground arith

  pub Failed-Invariant : Invariant step Failed
  Failed-Invariant = record {
    at = λ e parse h. record { is_failed = sem-Failed e parse h.is_failed };
  }

  -- One constraint: it is set, or the parser fails.
  abbrev pub LimitRun : CString → Json → ParseState → Type 0
  LimitRun = FieldRun step (limit_of atoi pg_size_bytes) apply_limit Failed
