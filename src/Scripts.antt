-- ===== src/Scripts.antt =====
-- src/extension_custom_scripts.c: the scripts that run before and after an extension is created.
pub mod Buffer
use supautils.Prelude.{
  ℕ, ◌+◌, ◌-◌, ◌*◌, Bool, true, false, not, Option, none, some, List, [], ◌∷◌, ◌++◌, ◌==◌,
  if◌then◌else◌, length, take, cstr, CString, str_eq,
}
use supautils.Statements.{DefElem}
use supautils.Session.{
  Outcome, Action, spi_failed, postgres_error, pure, gets, or_raise, raise_if, ◌>>=◌, ◌>>◌,
}
use supautils.Server.{Server}

-- MAXPGPATH and NAMEDATALEN of Postgres, and SPI_OK_UTILITY
abbrev pub max_pg_path : ℕ
max_pg_path = 1024

abbrev pub name_data_len : ℕ
name_data_len = 64

abbrev spi_ok_utility : ℕ
spi_ok_utility = 4

-- `%s` of a NULL pointer, as the C library prints it.
abbrev printed : Option CString → CString
printed none = cstr "(null)"
printed (some s) = s

-- `snprintf` into a buffer of `size` bytes, of the text in full.
unfoldable pub snprintf : ℕ → CString → CString
snprintf size text = take (size - 1) text

-- The pieces of `sql_replace_template` between its `%s`.
abbrev pub piece_file : CString
piece_file =
    cstr
      "    do $_$    begin      execute replace(replace(replace(replace(            pg_read_file("

abbrev pub piece_name : CString
piece_name = cstr ")          , '@extname@', "

abbrev pub piece_schema : CString
piece_schema = cstr ")          , '@extschema@', "

abbrev pub piece_version : CString
piece_version = cstr ")          , '@extversion@', "

abbrev pub piece_cascade : CString
piece_cascade = cstr ")          , '@extcascade@', "

abbrev pub piece_end : CString
piece_end = cstr ");    exception      when undefined_file then        null;    end; $_$"

-- The lengths count the terminators and the five `%s`.
unfoldable pub template_size : ℕ
template_size =
    length piece_file
    + length piece_name
    + length piece_schema
    + length piece_version
    + length piece_cascade
    + length piece_end
    + 11

unfoldable pub max_sql_len : ℕ
unfolding template_size
max_sql_len = template_size + max_pg_path + 3 * (name_data_len + 6) + 6

-- The options that the scripts see.
pub record ScriptOptions : Type 0 where
  pub extschema : Option CString
  pub extversion : Option CString
  pub extcascade : Bool

abbrev no_options : ScriptOptions
no_options = record { extschema = none; extversion = none; extcascade = false }

module _ (pg : Server) where
  open pg use {Db, quote_literal_cstr, def_get_string, def_get_boolean, spi_execute}

  unfoldable pub sql_literal : Option CString → CString
  sql_literal none = cstr "'null'"
  sql_literal (some str) = quote_literal_cstr (quote_literal_cstr str)

  -- The text that `snprintf` prints.
  unfoldable pub script_text : CString → CString → ScriptOptions → CString
  unfolding sql_literal
  script_text filename extname o =
      piece_file
      ++ quote_literal_cstr filename
      ++ (piece_name ++ sql_literal (some extname))
      ++ (piece_schema ++ sql_literal o.extschema)
      ++ (piece_version ++ sql_literal o.extversion)
      ++ (piece_cascade ++ (if o.extcascade then cstr "'true'" else cstr "'false'"))
      ++ piece_end

  unfoldable pub script_sql : CString → CString → ScriptOptions → CString
  unfolding snprintf max_sql_len script_text
  script_sql filename extname o = snprintf max_sql_len (script_text filename extname o)

  abbrev set_running : Bool → Action Db Unit
  set_running b s = (Outcome.ok tt, record s { running_custom_script = b })

  -- `SPI_execute`; the statements that the script runs are not listed with this hook's.
  unfoldable pub execute_script : CString → Action Db ℕ
  execute_script sql s =
      let (rc, s') = spi_execute sql s in or_raise rc postgres_error (record s' { runs = s.runs })

  -- The flag is cleared only where the script has succeeded.
  unfoldable pub run_custom_script : CString → CString → ScriptOptions → Action Db Unit
  run_custom_script filename extname o = do
    running ← gets (λ s. s.running_custom_script)
    if running then pure tt else do
      set_running true
      rc ← execute_script (script_sql filename extname o)
      raise_if (not (rc == spi_ok_utility)) (spi_failed rc)
      set_running false

  -- The three branches of the loop's body.
  abbrev read_schema : DefElem → ScriptOptions → Action Db ScriptOptions
  read_schema defel o = do
    extschema ← or_raise (def_get_string defel) postgres_error
    pure (record o { extschema = some extschema })

  abbrev read_version : DefElem → ScriptOptions → Action Db ScriptOptions
  read_version defel o = do
    extversion ← or_raise (def_get_string defel) postgres_error
    pure (record o { extversion = some extversion })

  abbrev read_cascade : DefElem → ScriptOptions → Action Db ScriptOptions
  read_cascade defel o = do
    extcascade ← or_raise (def_get_boolean defel) postgres_error
    pure (record o { extcascade = extcascade })

  unfoldable pub read_option : DefElem → ScriptOptions → Action Db ScriptOptions
  read_option defel o =
      if str_eq defel.defname (cstr "schema")
      then read_schema defel o
      else if str_eq defel.defname (cstr "new_version")
      then read_version defel o
      else if str_eq defel.defname (cstr "cascade")
      then read_cascade defel o
      else pure o

  -- The loop over the options, which the three functions below share.
  unfoldable pub script_options : List DefElem → ScriptOptions → Action Db ScriptOptions
  script_options [] o = pure o
  script_options (defel ∷ options) o = do o' ← read_option defel o; script_options options o'

  unfoldable pub run_global_before_create_script :
      CString → List DefElem → Option CString → Action Db Unit
  run_global_before_create_script extname options path = do
    o ← script_options options no_options
    run_custom_script (snprintf max_pg_path (printed path ++ cstr "/before-create.sql")) extname o

  unfoldable pub run_ext_before_create_script :
      CString → List DefElem → Option CString → Action Db Unit
  run_ext_before_create_script extname options path = do
    o ← script_options options no_options
    run_custom_script
        (snprintf max_pg_path (printed path ++ cstr "/" ++ extname ++ cstr "/before-create.sql"))
        extname o

  unfoldable pub run_ext_after_create_script :
      CString → List DefElem → Option CString → Action Db Unit
  run_ext_after_create_script extname options path = do
    o ← script_options options no_options
    run_custom_script
        (snprintf max_pg_path (printed path ++ cstr "/" ++ extname ++ cstr "/after-create.sql"))
        extname o
