-- ===== src/PrivilegedExtensions.antt =====
-- src/privileged_extensions.c: the extensions that are created, changed and dropped as the
-- superuser.
use supautils.Prelude.{
  ℕ, Bool, true, false, not, Option, none, some, List, [], ◌∷◌, ◌++◌, ltb, ◌==◌, if◌then◌else◌,
  cstr, CString,
}
use supautils.Session.{
  Action, spi_failed, postgres_error, pure, gets, or_raise, raise_if, ◌>>=◌, ◌>>◌,
}
use supautils.Server.{Server}
use supautils.Utils.{is_string_in_comma_delimited_string}

-- SPI_OK_CONNECT, SPI_OK_FINISH and SPI_OK_SELECT of Postgres
abbrev spi_ok_connect : ℕ
spi_ok_connect = 1

abbrev spi_ok_finish : ℕ
spi_ok_finish = 2

abbrev spi_ok_select : ℕ
spi_ok_select = 5

module _ (pg : Server) where
  open pg use {Db, split_identifier_string, quote_literal_cstr, spi_connect, spi_select, spi_finish}

  unfoldable pub available_query : CString → CString
  available_query extname =
      cstr "select 1 from pg_catalog.pg_available_extensions where name = "
      ++ quote_literal_cstr extname

  unfoldable pub is_extension_available : CString → Action Db Bool
  is_extension_available extname = do
    db ← gets (λ s. s.db)
    raise_if (not (spi_connect db == spi_ok_connect)) (spi_failed (spi_connect db))
    (rc, spi_processed) ← or_raise (spi_select db (available_query extname)) postgres_error
    raise_if (not (rc == spi_ok_select)) (spi_failed rc)
    raise_if (not (spi_finish db == spi_ok_finish)) (spi_failed (spi_finish db))
    pure (ltb 0 spi_processed)

  unfoldable pub is_extension_privileged : CString → Option CString → Action Db Bool
  is_extension_privileged extname privileged_extensions =
      if is_string_in_comma_delimited_string split_identifier_string (some extname)
        privileged_extensions
      then is_extension_available extname
      else pure false

  -- The loop, which ends at the first extension that is not privileged.
  unfoldable pub all_in_loop : List CString → Option CString → Action Db Bool
  all_in_loop [] privileged_extensions = pure true
  all_in_loop (name ∷ objects) privileged_extensions =
      let rest = all_in_loop objects privileged_extensions in
      do
        privileged ← is_extension_privileged name privileged_extensions
        if privileged then rest else pure false

  unfoldable pub all_extensions_are_privileged : List CString → Option CString → Action Db Bool
  all_extensions_are_privileged objects none = pure false
  all_extensions_are_privileged objects (some privileged_extensions) =
      all_in_loop objects (some privileged_extensions)
