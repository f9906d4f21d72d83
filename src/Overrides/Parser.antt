-- ===== src/Overrides/Parser.antt =====
-- src/extensions_parameter_overrides.c: the parser of the setting
-- `supautils.extensions_parameter_overrides`. The array of 100 entries is a function of the index,
-- and `overrun` says that a write was past its end: the code has no test there.
use supautils.Prelude.{
  ℕ, ◌+◌, leb, ◌||◌, Bool, false, Option, none, some, CString, cstr, str_eq, update, if◌then◌else◌,
}
use supautils.Json.{
  Event, object_start, object_end, array_start, array_end, object_field_start, scalar_token,
  JsonTokenType, json_token_string, Reading, whole, broken, walk, walk_events,
}
use supautils.Overrides.{ExtensionParameterOverrides}

-- MAX_EXTENSIONS_PARAMETER_OVERRIDES of src/supautils.c
abbrev pub max_extensions_parameter_overrides : ℕ
max_extensions_parameter_overrides = 100

-- `json_extension_parameter_overrides_semantic_state`
pub data SemanticState : Type 0 where
  expect_toplevel_start expect_toplevel_field expect_parameter_overrides_start expect_schema :
      SemanticState
  unexpected_field unexpected_array unexpected_scalar unexpected_object : SemanticState
  unexpected_schema_value : SemanticState

-- The texts of `error_msg`.
pub data ErrorMsg : Type 0 where
  msg_array msg_object msg_field msg_scalar msg_schema_value msg_invalid_json : ErrorMsg

-- `json_extension_parameter_overrides_parse_state`
pub record ParseState : Type 0 where
  pub state : SemanticState
  pub error_msg : Option ErrorMsg
  pub total_epos : ℕ
  pub epos : ℕ → ExtensionParameterOverrides
  pub overrun : Bool

abbrev pub reject : SemanticState → ErrorMsg → ParseState → ParseState
reject state msg parse = record parse { state = state; error_msg = some msg }

-- An assignment to a member of `parse->epos[parse->total_epos]`.
unfoldable pub set_entry :
    (ExtensionParameterOverrides → ExtensionParameterOverrides) → ParseState → ParseState
set_entry f parse = record parse {
  epos = update parse.epos parse.total_epos (f (parse.epos parse.total_epos));
  overrun = leb max_extensions_parameter_overrides parse.total_epos || parse.overrun;
}

-- Every array is an error, in every state.
unfoldable pub json_array_start : ParseState → ParseState
json_array_start parse = reject unexpected_array msg_array parse

unfoldable pub json_object_start : SemanticState → ParseState → ParseState
json_object_start expect_toplevel_start parse = record parse { state = expect_toplevel_field }
json_object_start expect_schema parse = reject unexpected_object msg_object parse
json_object_start _ parse = parse

unfoldable pub json_object_end : SemanticState → ParseState → ParseState
json_object_end expect_parameter_overrides_start parse = record parse {
  state = expect_toplevel_field;
  total_epos = parse.total_epos + 1;
}
json_object_end _ parse = parse

-- A field inside an extension's object.
unfoldable pub override_field : CString → ParseState → ParseState
override_field fname parse =
    if str_eq fname (cstr "schema")
    then record parse { state = expect_schema }
    else reject unexpected_field msg_field parse

abbrev pub set_name : CString → ExtensionParameterOverrides → ExtensionParameterOverrides
set_name fname x = record x { name = some fname }

abbrev pub set_schema : CString → ExtensionParameterOverrides → ExtensionParameterOverrides
set_schema token x = record x { schema = some token }

unfoldable pub json_object_field_start : CString → SemanticState → ParseState → ParseState
unfolding set_entry override_field
json_object_field_start fname expect_toplevel_field parse =
    record (set_entry (set_name fname) parse) { state = expect_parameter_overrides_start }
json_object_field_start fname expect_parameter_overrides_start parse = override_field fname parse
json_object_field_start fname _ parse = parse

unfoldable pub json_scalar : JsonTokenType → CString → SemanticState → ParseState → ParseState
unfolding set_entry
json_scalar json_token_string token expect_schema parse =
    record (set_entry (set_schema token) parse) { state = expect_parameter_overrides_start }
json_scalar tokentype token expect_schema parse =
    reject unexpected_schema_value msg_schema_value parse
json_scalar tokentype token expect_toplevel_start parse = reject unexpected_scalar msg_scalar parse
json_scalar tokentype token expect_parameter_overrides_start parse =
    reject unexpected_scalar msg_scalar parse
json_scalar tokentype token _ parse = parse

-- The actions in the `JsonSemAction`; there is none at the end of an array.
unfoldable pub sem : Event → ParseState → ParseState
unfolding json_array_start json_object_start json_object_end json_object_field_start json_scalar
sem object_start parse = json_object_start parse.state parse
sem object_end parse = json_object_end parse.state parse
sem array_start parse = json_array_start parse
sem array_end parse = parse
sem (object_field_start fname) parse = json_object_field_start fname parse.state parse
sem (scalar_token tokentype token) parse = json_scalar tokentype token parse.state parse

unfoldable pub initial : (ℕ → ExtensionParameterOverrides) → ParseState
initial epos = record {
  state = expect_toplevel_start;
  error_msg = none;
  total_epos = 0;
  epos = epos;
  overrun = false;
}

unfoldable pub run_actions : Reading → ParseState → ParseState
run_actions (whole j) parse = walk sem j parse
run_actions (broken es) parse = record (walk_events sem es parse) {
  error_msg = some msg_invalid_json;
}

unfoldable pub parse_extensions_parameter_overrides :
    (CString → Reading) → CString → (ℕ → ExtensionParameterOverrides) → ParseState
unfolding initial run_actions
parse_extensions_parameter_overrides read_json str epos = run_actions (read_json str) (initial epos)
