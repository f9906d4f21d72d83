-- ===== src/Constrained/Parser.antt =====
-- src/constrained_extensions.c: the parser of the setting `supautils.constrained_extensions`. The
-- array of 100 entries is a function of the index, and `overrun` says that a write was past its
-- end: the code has no test there. `atoi` is the C library's, and `pg_size_bytes` is Postgres's,
-- which raises an error where it has no result; `raised` says that it did.
use supautils.Prelude.{
  ℕ, ◌+◌, ◌-◌, ◌%◌, ◌^◌, leb, ◌||◌, Bool, true, false, Option, none, some, CString, cstr, str_eq,
  update, if◌then◌else◌,
}
use supautils.Json.{
  Event, object_start, object_end, array_start, array_end, object_field_start, scalar_token,
  JsonTokenType, json_token_string, json_token_number, Reading, whole, broken, walk, walk_events,
}
use supautils.Constrained.{ℤ, pos, negsuc, ConstrainedExtension}

-- MAX_CONSTRAINED_EXTENSIONS of src/supautils.c
abbrev pub max_constrained_extensions : ℕ
max_constrained_extensions = 100

-- `json_constrained_extension_semantic_state`
pub data SemanticState : Type 0 where
  expect_toplevel_start expect_toplevel_field expect_constraints_start : SemanticState
  expect_cpu expect_mem expect_disk : SemanticState
  unexpected_field unexpected_array unexpected_scalar unexpected_object : SemanticState
  unexpected_cpu_value unexpected_mem_value unexpected_disk_value : SemanticState

-- The texts of `error_msg`.
pub data ErrorMsg : Type 0 where
  msg_array msg_object msg_field msg_scalar msg_invalid_json : ErrorMsg
  msg_cpu_value msg_mem_value msg_disk_value : ErrorMsg

-- `json_constrained_extension_parse_state`
pub record ParseState : Type 0 where
  pub state : SemanticState
  pub error_msg : Option ErrorMsg
  pub total_cexts : ℕ
  pub cexts : ℕ → ConstrainedExtension
  pub overrun : Bool
  pub raised : Bool

abbrev pub reject : SemanticState → ErrorMsg → ParseState → ParseState
reject state msg parse = record parse { state = state; error_msg = some msg }

-- An assignment to a member of `parse->cexts[parse->total_cexts]`.
unfoldable pub set_entry : (ConstrainedExtension → ConstrainedExtension) → ParseState → ParseState
set_entry f parse = record parse {
  cexts = update parse.cexts parse.total_cexts (f (parse.cexts parse.total_cexts));
  overrun = leb max_constrained_extensions parse.total_cexts || parse.overrun;
}

-- Every array is an error, in every state.
unfoldable pub json_array_start : ParseState → ParseState
json_array_start parse = reject unexpected_array msg_array parse

unfoldable pub json_object_start : SemanticState → ParseState → ParseState
json_object_start expect_toplevel_start parse = record parse { state = expect_toplevel_field }
json_object_start expect_cpu parse = reject unexpected_object msg_object parse
json_object_start expect_mem parse = reject unexpected_object msg_object parse
json_object_start expect_disk parse = reject unexpected_object msg_object parse
json_object_start _ parse = parse

unfoldable pub json_object_end : SemanticState → ParseState → ParseState
json_object_end expect_constraints_start parse = record parse {
  state = expect_toplevel_field;
  total_cexts = parse.total_cexts + 1;
}
json_object_end _ parse = parse

-- The names of the constraints, at a field inside an extension's object.
unfoldable pub constraint_field : CString → ParseState → ParseState
constraint_field fname parse =
    if str_eq fname (cstr "cpu")
    then record parse { state = expect_cpu }
    else if str_eq fname (cstr "mem")
    then record parse { state = expect_mem }
    else if str_eq fname (cstr "disk")
    then record parse { state = expect_disk }
    else reject unexpected_field msg_field parse

abbrev pub set_name : CString → ConstrainedExtension → ConstrainedExtension
set_name fname x = record x { name = some fname }

unfoldable pub json_object_field_start : CString → SemanticState → ParseState → ParseState
unfolding set_entry constraint_field
json_object_field_start fname expect_toplevel_field parse =
    record (set_entry (set_name fname) parse) { state = expect_constraints_start }
json_object_field_start fname expect_constraints_start parse = constraint_field fname parse
json_object_field_start fname _ parse = parse

-- A signed 64-bit number as `uint64`.
abbrev pub to_uint64 : ℤ → ℕ
to_uint64 (pos n) = n % 2 ^ 64
to_uint64 (negsuc n) = 2 ^ 64 - 1 - n % 2 ^ 64

abbrev pub set_cpu : ℤ → ConstrainedExtension → ConstrainedExtension
set_cpu cpu x = record x { cpu = cpu }

abbrev pub set_mem : ℤ → ConstrainedExtension → ConstrainedExtension
set_mem bytes x = record x { mem = to_uint64 bytes }

abbrev pub set_disk : ℤ → ConstrainedExtension → ConstrainedExtension
set_disk bytes x = record x { disk = to_uint64 bytes }

-- An assignment whose value may not come to be, and the next state.
unfoldable pub assign :
    (ℤ → ConstrainedExtension → ConstrainedExtension) → Option ℤ → ParseState → ParseState
unfolding set_entry
assign set none parse = record parse { raised = true }
assign set (some value) parse = record (set_entry (set value) parse) {
  state = expect_constraints_start;
}

module _ (atoi : CString → ℤ) (pg_size_bytes : CString → Option ℤ) where
  unfoldable pub json_scalar : JsonTokenType → CString → SemanticState → ParseState → ParseState
  unfolding assign
  json_scalar json_token_number token expect_cpu parse = assign set_cpu (some (atoi token)) parse
  json_scalar tokentype token expect_cpu parse = reject unexpected_cpu_value msg_cpu_value parse
  json_scalar json_token_string token expect_mem parse = assign set_mem (pg_size_bytes token) parse
  json_scalar tokentype token expect_mem parse = reject unexpected_mem_value msg_mem_value parse
  json_scalar json_token_string token expect_disk parse =
      assign set_disk (pg_size_bytes token) parse
  json_scalar tokentype token expect_disk parse = reject unexpected_disk_value msg_disk_value parse
  json_scalar tokentype token expect_toplevel_start parse =
      reject unexpected_scalar msg_scalar parse
  json_scalar tokentype token expect_constraints_start parse =
      reject unexpected_scalar msg_scalar parse
  json_scalar tokentype token _ parse = parse

  -- The actions in the `JsonSemAction`; there is none at the end of an array.
  unfoldable pub action : Event → ParseState → ParseState
  unfolding json_array_start json_object_start json_object_end json_object_field_start json_scalar
  action object_start parse = json_object_start parse.state parse
  action object_end parse = json_object_end parse.state parse
  action array_start parse = json_array_start parse
  action array_end parse = parse
  action (object_field_start fname) parse = json_object_field_start fname parse.state parse
  action (scalar_token tokentype token) parse = json_scalar tokentype token parse.state parse

  -- Behind an error nothing is called any more.
  unfoldable pub sem : Event → ParseState → ParseState
  unfolding action
  sem e parse = if parse.raised then parse else action e parse

  unfoldable pub run_actions : Reading → ParseState → ParseState
  run_actions (whole j) parse = walk sem j parse
  run_actions (broken es) parse = record (walk_events sem es parse) {
    error_msg = some msg_invalid_json;
  }

unfoldable pub initial : (ℕ → ConstrainedExtension) → ParseState
initial cexts = record {
  state = expect_toplevel_start;
  error_msg = none;
  total_cexts = 0;
  cexts = cexts;
  overrun = false;
  raised = false;
}

module _ (read_json : CString → Reading) (atoi : CString → ℤ)
    (pg_size_bytes : CString → Option ℤ) where
  unfoldable pub parse_constrained_extensions : CString → (ℕ → ConstrainedExtension) → ParseState
  unfolding initial run_actions
  parse_constrained_extensions str cexts =
      run_actions atoi pg_size_bytes (read_json str) (initial cexts)
