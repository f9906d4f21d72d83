-- ===== src/Grants/Parser.antt =====
-- src/policy_grants.c: the parser of the setting `supautils.policy_grants`. The arrays of 100 grants
-- and of 100 tables each are functions of the index, and `overrun` says that a write was past an
-- end: the code has no test there.
use supautils.Prelude.{ℕ, ◌+◌, leb, ◌||◌, Bool, false, Option, none, some, CString, update}
use supautils.Json.{
  Event, object_start, object_end, array_start, array_end, object_field_start, scalar_token,
  JsonTokenType, json_token_string, Reading, whole, broken, walk, walk_events,
}
use supautils.Grants.{PolicyGrants}

-- MAX_POLICY_GRANTS of src/supautils.c and MAX_POLICY_GRANT_TABLES
abbrev pub max_policy_grants : ℕ
max_policy_grants = 100

abbrev pub max_policy_grant_tables : ℕ
max_policy_grant_tables = 100

-- `json_policy_grants_semantic_state`
pub data SemanticState : Type 0 where
  expect_toplevel_start expect_toplevel_field expect_tables_start expect_table : SemanticState
  unexpected_array unexpected_scalar unexpected_object unexpected_table_value : SemanticState

-- The texts of `error_msg`.
pub data ErrorMsg : Type 0 where
  msg_array : ErrorMsg
  msg_object_for_tables : ErrorMsg
  msg_object_for_table : ErrorMsg
  msg_table_value : ErrorMsg
  msg_scalar_for_object : ErrorMsg
  msg_scalar_for_array : ErrorMsg
  msg_invalid_json : ErrorMsg

-- `json_policy_grants_parse_state`
pub record ParseState : Type 0 where
  pub state : SemanticState
  pub error_msg : Option ErrorMsg
  pub total_pgs : ℕ
  pub pgs : ℕ → PolicyGrants
  pub overrun : Bool

-- `parse->state = ..; parse->error_msg = ..;`
abbrev pub reject : SemanticState → ErrorMsg → ParseState → ParseState
reject state msg parse = record parse { state = state; error_msg = some msg }

unfoldable pub json_array_start : SemanticState → ParseState → ParseState
json_array_start expect_tables_start parse = record parse { state = expect_table }
json_array_start expect_toplevel_start parse = reject unexpected_array msg_array parse
json_array_start expect_table parse = reject unexpected_array msg_array parse
json_array_start _ parse = parse

unfoldable pub json_array_end : SemanticState → ParseState → ParseState
json_array_end expect_table parse = record parse {
  state = expect_toplevel_field;
  total_pgs = parse.total_pgs + 1;
}
json_array_end _ parse = parse

unfoldable pub json_object_start : SemanticState → ParseState → ParseState
json_object_start expect_toplevel_start parse = record parse { state = expect_toplevel_field }
json_object_start expect_tables_start parse = reject unexpected_object msg_object_for_tables parse
json_object_start expect_table parse = reject unexpected_object msg_object_for_table parse
json_object_start _ parse = parse

-- `x->role_name = ..`, at the grant behind the last one.
unfoldable pub set_role : CString → ParseState → ParseState
set_role fname parse = record parse {
  pgs =
      update parse.pgs parse.total_pgs
        (record (parse.pgs parse.total_pgs) { role_name = some fname });
  overrun = leb max_policy_grants parse.total_pgs || parse.overrun;
}

unfoldable pub json_object_field_start : CString → SemanticState → ParseState → ParseState
unfolding set_role
json_object_field_start fname expect_toplevel_field parse = record (set_role fname parse) {
  state = expect_tables_start;
}
json_object_field_start fname _ parse = parse

abbrev pub add_table : CString → PolicyGrants → PolicyGrants
add_table token x = record x {
  table_names = update x.table_names x.total_tables (some token);
  total_tables = x.total_tables + 1;
}

-- `x->table_names[x->total_tables] = ..; x->total_tables++;`
unfoldable pub push_table : CString → ParseState → ParseState
push_table token parse = record parse {
  pgs = update parse.pgs parse.total_pgs (add_table token (parse.pgs parse.total_pgs));
  overrun =
      leb max_policy_grants parse.total_pgs
      || leb max_policy_grant_tables (parse.pgs parse.total_pgs).total_tables
      || parse.overrun;
}

unfoldable pub json_scalar : JsonTokenType → CString → SemanticState → ParseState → ParseState
unfolding push_table
json_scalar json_token_string token expect_table parse = push_table token parse
json_scalar tokentype token expect_table parse = reject unexpected_table_value msg_table_value parse
json_scalar tokentype token expect_toplevel_start parse =
    reject unexpected_scalar msg_scalar_for_object parse
json_scalar tokentype token expect_tables_start parse =
    reject unexpected_scalar msg_scalar_for_array parse
json_scalar tokentype token _ parse = parse

-- The actions in the `JsonSemAction`; there is none at the end of an object.
unfoldable pub sem : Event → ParseState → ParseState
unfolding json_array_start json_array_end json_object_start json_object_field_start json_scalar
sem object_start parse = json_object_start parse.state parse
sem object_end parse = parse
sem array_start parse = json_array_start parse.state parse
sem array_end parse = json_array_end parse.state parse
sem (object_field_start fname) parse = json_object_field_start fname parse.state parse
sem (scalar_token tokentype token) parse = json_scalar tokentype token parse.state parse

unfoldable pub initial : (ℕ → PolicyGrants) → ParseState
initial pgs = record {
  state = expect_toplevel_start;
  error_msg = none;
  total_pgs = 0;
  pgs = pgs;
  overrun = false;
}

unfoldable pub run_actions : Reading → ParseState → ParseState
run_actions (whole j) parse = walk sem j parse
run_actions (broken es) parse = record (walk_events sem es parse) {
  error_msg = some msg_invalid_json;
}

-- `read_json` is what `pg_parse_json` makes of a text.
unfoldable pub parse_policy_grants : (CString → Reading) → CString → (ℕ → PolicyGrants) → ParseState
unfolding initial run_actions
parse_policy_grants read_json str pgs = run_actions (read_json str) (initial pgs)
