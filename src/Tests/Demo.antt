-- ===== src/Tests/Demo.antt =====
-- A small server to run the model on: a superuser with OID 10, a user 20 and a user 30 that is a
-- member of the role "privileged"; settings are split at each comma.
use supautils.Prelude.{
  refl, ◌∷◌, [], ◌++◌, ℕ, Bool, true, false, ◌||◌, ◌&&◌, ◌==◌, Option, none, some, List, CString,
  cstr, str_eq, if◌then◌else◌,
}
use supautils.Statements.{Stmt, other_stmt}
use supautils.Session.{Error, Session, postgres_error}
use supautils.Session.Keeps.{SameRole-refl}
use supautils.Server.{Server}
use supautils.Config.{Config, off}
use supautils.Constrained.{pos}
use supautils.Roles.Switch.{RestoresRole, RestrictedStays, SavedRoleStays}

-- `word` is what was read since the last comma.
unfoldable pub split_from : CString → CString → List CString
split_from word [] = word ∷ []
split_from word (c ∷ cs) =
    if c == b',' then word ∷ split_from [] cs else split_from (word ++ c ∷ []) cs

abbrev pub split_commas : CString → Bool × List CString
split_commas val = (true, split_from [] val)

abbrev pub oid_of : CString → Option ℕ
oid_of name =
    if str_eq name (cstr "admin")
    then some 10
    else if str_eq name (cstr "privileged")
    then some 40
    else none

-- The server fails at the statements of tag 1.
abbrev pub failure : Stmt → Option Error
failure (other_stmt n) = if n == 1 then some postgres_error else none
failure _ = none

abbrev pub demo : Server
demo = record {
  Db = Unit;
  RangeVar = List CString;
  pg_version_num = 150000;
  is_transaction_state = λ db. true;
  superuser_arg = λ db role. role == 10;
  get_role_oid = λ db name. oid_of name;
  has_privs_of_role = λ db role oid. role == oid || role == 30 && oid == 40;
  get_user_name = λ db oid. some (cstr "user");
  get_rolespec_name = λ db user role. some role.rolename;
  split_identifier_string = split_commas;
  def_get_boolean = λ d. some true;
  def_get_string = λ d. some [];
  quote_literal_cstr = λ s. s;
  make_range_var = λ names. some names;
  string_to_qualified_names = λ s. some (s ∷ []);
  range_var_get_relid = λ db rv. some 1;
  lookup_func_name = λ db names. some 50;
  search_proc = λ db oid. some (30, false);
  get_func_rettype = λ db oid. some 3838;
  get_func_name = λ db oid. some (cstr "on_ddl");
  get_outer_user_id = λ db. 20;
  spi_connect = λ db. 1;
  spi_select = λ db q. some (5, 1);
  spi_finish = λ db. 2;
  alter_role_superuser = λ db user name b. some db;
  alter_fdw_owner = λ db user name oid. some db;
  alter_publication_owner = λ db user name oid. some db;
  alter_event_trigger_owner = λ db user name oid. some db;
  spi_execute = λ sql s. (some 1, s);
  process_utility = λ stmt s. (failure stmt, s);
}

abbrev pub demo_config : Config
demo_config = record {
  reserved_roles = some (cstr "admin,storage*");
  reserved_memberships = some (cstr "admin");
  privileged_extensions = some (cstr "vector");
  supautils_superuser = some (cstr "admin");
  extension_custom_scripts_path = none;
  privileged_role = some (cstr "privileged");
  privileged_role_allowed_configs = some (cstr "pgaudit.*");
  restrict_extension_versions = off;
  log_skipped_evtrigs = false;
  cexts = λ i. record { name = none; cpu = pos 0; mem = 0; disk = 0 };
  total_cexts = 0;
  epos = λ i. record { name = none; schema = none };
  total_epos = 0;
  pgs = λ i. record { role_name = none; table_names = λ j. none; total_tables = 0 };
  total_pgs = 0;
  dtgs = λ i. record { role_name = none; table_names = λ j. none; total_tables = 0 };
  total_dtgs = 0;
  host = record {
    nprocs = 2;
    totalram = some 1024;
    f_bfree = 10;
    f_bsize = 512;
    statvfs_ok = true;
  };
}

abbrev pub user : ℕ → Session Unit
user oid = record {
  db = tt;
  user_id = oid;
  sec_context = 0;
  prev_role_oid = 0;
  prev_role_sec_context = 0;
  is_switched_to_superuser = false;
  running_custom_script = false;
  warnings = [];
  runs = [];
}

pub demo-RestrictedStays : RestrictedStays demo
demo-RestrictedStays = record {
  statement = λ stmt s w r h. SameRole-refl s;
  script = λ sql s w r h. SameRole-refl s;
}

pub demo-RestoresRole : RestoresRole demo
demo-RestoresRole = record {
  restricted = demo-RestrictedStays;
  created = λ stmt s c h. SameRole-refl s;
}

pub demo-SavedRoleStays : SavedRoleStays demo
demo-SavedRoleStays = record {
  failed_user = λ stmt s e h k. refl;
  failed_context = λ stmt s e h k. refl;
}
