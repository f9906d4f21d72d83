-- ===== src/Server.antt =====
-- What supautils calls of Postgres and of the C library, as parameters, and its settings.
use supautils.Prelude.{ℕ, Bool, Option, List, CString}
use supautils.Statements.{RoleSpec, DefElem, Stmt}
use supautils.Session.{Session, Call}

-- The catalogs and everything else that the server keeps are one value of the type `Db`. An
-- `Option` result is `none` where the call raises an error, if nothing else is said.
pub record Server : Type 1 where
  pub Db : Type 0
  pub RangeVar : Type 0
  -- PG_VERSION_NUM of the build
  pub pg_version_num : ℕ
  pub is_transaction_state : Db → Bool
  pub superuser_arg : Db → ℕ → Bool
  -- the role's OID, `none` where the role is missing
  pub get_role_oid : Db → CString → Option ℕ
  pub has_privs_of_role : Db → ℕ → ℕ → Bool
  -- `GetUserNameFromId(oid, false)`
  pub get_user_name : Db → ℕ → Option CString
  -- at the current user
  pub get_rolespec_name : Db → ℕ → RoleSpec → Option CString
  -- `SplitIdentifierString` at `,`: its flag and the list that it fills
  pub split_identifier_string : CString → Bool × List CString
  pub def_get_boolean : DefElem → Option Bool
  pub def_get_string : DefElem → Option CString
  pub quote_literal_cstr : CString → CString
  pub make_range_var : List CString → Option RangeVar
  -- `stringToQualifiedNameList`; an empty list is its NULL
  pub string_to_qualified_names : CString → Option (List CString)
  -- `RangeVarGetRelid(_, AccessExclusiveLock, true)`: 0 where the relation is missing
  pub range_var_get_relid : Db → RangeVar → Option ℕ
  -- `LookupFuncName(_, 0, NULL, false)`, and the members `proowner` and `prosecdef` of a function
  pub lookup_func_name : Db → List CString → Option ℕ
  pub search_proc : Db → ℕ → Option (ℕ × Bool)
  pub get_func_rettype : Db → ℕ → Option ℕ
  -- `none` is NULL
  pub get_func_name : Db → ℕ → Option CString
  pub get_outer_user_id : Db → ℕ
  -- a read-only SPI query: its return code and the rows that it found
  pub spi_connect : Db → ℕ
  pub spi_select : Db → CString → Option (ℕ × ℕ)
  pub spi_finish : Db → ℕ
  -- `AlterRole` with the SUPERUSER option, and the three commands that change an owner
  pub alter_role_superuser : Db → ℕ → CString → Bool → Option Db
  pub alter_fdw_owner : Db → ℕ → CString → ℕ → Option Db
  pub alter_publication_owner : Db → ℕ → CString → ℕ → Option Db
  pub alter_event_trigger_owner : Db → ℕ → CString → ℕ → Option Db
  -- `SPI_execute` of a script, which may run any statement: its return code
  pub spi_execute : CString → Session Db → Option ℕ × Session Db
  -- the hook that was installed before, or `standard_ProcessUtility`
  pub process_utility : Stmt → Call Db
