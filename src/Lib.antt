-- ===== src/Lib.antt =====
-- supautils is a Postgres extension that lets a managed service give users rights of a superuser
-- without making them superusers. It hooks the handling of utility statements: the hook rejects
-- statements that touch reserved roles, and runs some statements as the superuser when the settings
-- say that the current user may.
--
-- The parts and their files here:
-- - src/utils.c: the tests of comma-separated settings (Utils, with their meaning in
--   Utils/Wildcard), and the switch to the superuser and back (Roles). Roles also has the two macros
--   of src/pg_prelude.h that hand a statement on, as `run_process_utility_hook` and
--   `run_process_utility_hook_with_cleanup`, and `run_as_superuser`, the sequence of switch, run and
--   switch back that the hook's cases repeat.
-- - src/supautils.c: the role lists (Reserved), the questions about the current role (Privileges),
--   the settings (Config) and `supautils_hook` (Hook). Each case of its `switch` is a function of
--   its own in Hook/RoleStmts, Hook/ExtensionStmts, Hook/GrantStmts and Hook/PrivilegedStmts;
--   `dispatch` is the `switch` and `chain` the call of the next hook behind it.
-- - the settings that are JSON texts: Json has the order in which `pg_parse_json` calls the semantic
--   actions, with what the parsers share, in Json/Laws, Json/Objects and Json/Arrays. Each of the
--   three parsers is a module of its own, and so are the check and assign hooks of src/supautils.c
--   that run it on the static arrays:
--   - src/policy_grants.c: Grants/Parser, Grants/Setting, and the lookup in the grants (Grants).
--     Grants/Documents reads the parser as a function on the document, Grants/ReadBack reads the
--     arrays back, and Grants/EndToEnd goes from the text of the setting to the lookup's answer.
--     src/drop_trigger_grants.c is the same code with other names (DropTriggerGrants).
--   - src/constrained_extensions.c: Constrained/Parser, Constrained/Setting, and the test of an
--     extension's needs against the host (Constrained).
--   - src/extensions_parameter_overrides.c: Overrides/Parser, Overrides/Setting, and the overridden
--     options (Overrides).
-- - src/privileged_extensions.c: the privileged extensions (PrivilegedExtensions).
-- - src/extension_custom_scripts.c: the scripts around CREATE EXTENSION (Scripts).
-- - src/event_triggers.c: the attributes of a function and the change of a call (EventTriggers), and
--   the fmgr hook of src/supautils.c that uses them (FmgrHook).
-- - src/permission_hints.c: the search for the privilege that a query lacked (PermissionHints), and
--   the ExecutorStart hook of src/supautils.c that puts it into a hint (PermissionHints/Executor).
-- - src/supautils.c: the check hooks of placeholders and of lists of names (Placeholders).
--
-- The state (Session) has what the code reads and writes: the catalogs, the current user and its
-- security context, the static variables of utils.c and extension_custom_scripts.c, and two
-- records of what happened, the warnings and the statements handed on with the user they ran as.
-- An action takes a state to an outcome and a state. The outcome says how the C code was left: by
-- falling through, by `break` (with the statement, whose options the case may have changed), by
-- `return`, or by an error of `ereport(ERROR)`. An error keeps what was written before.
-- Nodes of Postgres (Statements) have the members that the code reads.
--
-- Postgres and the C library are parameters: Server has one field for each function that the code
-- calls, and Host the figures of the machine. What is assumed of the next hook and of scripts is in
-- Roles/Switch. RestrictedStays: in a restricted security context, which is what the switch sets, a
-- statement that ends without an error leaves the user, the context and the static variables as
-- they were, since Postgres refuses to set the role there. RestoresRole: CREATE ROLE and CREATE
-- EXTENSION, which the hook goes on behind, do so in any context; other statements, such as SET
-- ROLE, may change the user. SavedRoleStays: a statement that fails while the role is switched
-- leaves the saved role alone. The server of Tests/Demo fulfils them.
--
-- For the JSON parsers, `read_json` is what `pg_parse_json` makes of a text: the value, or the
-- actions that it called before it found that the text is no JSON. `atoi`, `pg_size_bytes`,
-- `str_tolower` and `SplitIdentifierString` are functions, and the checks of privileges and the
-- names of relations are the records Privileges and HintServer of PermissionHints.
--
-- Bounds: lists of the source are lists here, and the script buffer has its size. The arrays of
-- settings are functions of the index with their length; the parsers have no test of the index, so
-- each keeps a flag `overrun` that says that a write was past the array's end, and goes on as if
-- there were room. Sizes in bytes and the disk space are numbers modulo 2 ^ 64. An `AclMode` is a
-- number of 64 binary digits. All loops are over lists or over that many digits, so no fuel is
-- used and every function ends.
--
-- Not modelled: `_PG_init` and `_PG_fini`, which only register settings and hooks; the tables'
-- locks; freeing of memory and memory contexts; the text of messages, but for the hint; the tests
-- of the repository.
pub mod Prelude
pub mod Utils
pub mod Reserved
pub mod Json
pub mod Statements
pub mod Session
pub mod Server
pub mod Grants
pub mod Constrained
pub mod Overrides
pub mod DropTriggerGrants
pub mod Config
pub mod Roles
pub mod Privileges
pub mod Scripts
pub mod PrivilegedExtensions
pub mod Placeholders
pub mod EventTriggers
pub mod FmgrHook
pub mod PermissionHints
pub mod Hook
pub mod Tests
