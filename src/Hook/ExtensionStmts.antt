-- ===== src/Hook/ExtensionStmts.antt =====
-- The cases of `supautils_hook` in src/supautils.c for statements about extensions.
use supautils.Prelude.{
  Bool, true, false, not, Option, none, some, List, [], ◌∷◌, if◌then◌else◌, cstr, CString, str_eq,
  is_nil,
}
use supautils.Statements.{
  DefElem, ExtensionStmtKind, ext_create, ext_alter, ObjectType, object_extension, Stmt,
}
use supautils.Statements
use supautils.Session.{
  Action, report_warning, version_ignored, version_specified, postgres_error, pure, raise, gets,
  or_raise, break_if, check, return_from_hook, ◌>>=◌, ◌>>◌,
}
use supautils.Server.{Server}
use supautils.Config.{Config, RestrictMode, off, error}
use supautils.Constrained.{constrain_extension}
use supautils.Overrides.{override_ext_options}
use supautils.PrivilegedExtensions.{is_extension_privileged}
use supautils.Scripts.{
  run_global_before_create_script, run_ext_before_create_script, run_ext_after_create_script,
}
use supautils.Roles.{
  switch_to_superuser, switch_back_unless, run_process_utility_hook,
  run_process_utility_hook_with_cleanup, run_as_superuser,
}
use supautils.Privileges.{superuser}

module _ {Db : Type 0} where
  -- The loop over the options, where the restriction applies: the version options go, with a
  -- warning, or stop the statement.
  unfoldable pub strip_versions :
      RestrictMode → ExtensionStmtKind → List DefElem → Action Db (List DefElem)
  strip_versions mode stmt_kind [] = pure []
  strip_versions mode stmt_kind (defel ∷ options) =
      let rest = strip_versions mode stmt_kind options in
      if not (str_eq defel.defname (cstr "new_version"))
      then (do kept ← rest; pure (defel ∷ kept))
      else elim mode [
        | error ↦ raise (version_specified stmt_kind)
        | _ ↦ do report_warning (version_ignored stmt_kind); rest
      ]

module _ (pg : Server) (cfg : Config) where
  open pg use {Db, get_user_name}

  -- `supautils_superuser != NULL && supautils_superuser[0] != '\0'`, and the current user has that
  -- name.
  unfoldable pub is_supautils_superuser : Option CString → Action Db Bool
  is_supautils_superuser none = pure false
  is_supautils_superuser (some supautils_superuser) =
      if is_nil supautils_superuser then pure false else do
        name ← gets (λ s. get_user_name s.db s.user_id)
        current_user ← or_raise name postgres_error
        pure (str_eq current_user supautils_superuser)

  abbrev is_off : RestrictMode → Bool
  is_off off = true
  is_off _ = false

  unfoldable pub restrict_version_specification :
      ExtensionStmtKind → List DefElem → Action Db (List DefElem)
  restrict_version_specification stmt_kind options =
      if is_off cfg.restrict_extension_versions then pure options else do
        super ← superuser pg
        if super then pure options else do
          exempt ← is_supautils_superuser cfg.supautils_superuser
          if exempt
              then pure options
              else strip_versions cfg.restrict_extension_versions stmt_kind options

  -- The two branches of CREATE EXTENSION, with `already_switched_to_superuser` afterwards; the
  -- second branch switches back for the statement alone.
  unfoldable pub run_create_extension : Stmt → Bool → Bool → Action Db Bool
  run_create_extension stmt true already_switched = do
    run_process_utility_hook_with_cleanup pg stmt already_switched
    pure already_switched
  run_create_extension stmt false already_switched = do
    switch_back_unless already_switched
    run_process_utility_hook pg stmt
    switch_to_superuser pg cfg.supautils_superuser

  -- CREATE EXTENSION
  unfoldable pub create_extension_stmt : CString → List DefElem → Action Db Unit
  create_extension_stmt extname options = do
    options1 ← restrict_version_specification ext_create options
    check (constrain_extension extname cfg.cexts cfg.total_cexts cfg.host)
    already_switched ← switch_to_superuser pg cfg.supautils_superuser
    run_global_before_create_script pg extname options1 cfg.extension_custom_scripts_path
    run_ext_before_create_script pg extname options1 cfg.extension_custom_scripts_path
    options2 ← override_ext_options ext_create extname options1 cfg.total_epos cfg.epos
    privileged ← is_extension_privileged pg extname cfg.privileged_extensions
    already_switched' ←
        run_create_extension (Statements.create_extension extname options2) privileged
          already_switched
    run_ext_after_create_script pg extname options2 cfg.extension_custom_scripts_path
    switch_back_unless already_switched'
    return_from_hook

  -- The end of ALTER EXTENSION .. UPDATE: behind the privileged run there is a `break`, and no
  -- `return`.
  unfoldable pub run_alter_extension : CString → List DefElem → Action Db Unit
  run_alter_extension extname options =
      let stmt = Statements.alter_extension extname options in
      do
        privileged ← is_extension_privileged pg extname cfg.privileged_extensions
        if privileged then run_as_superuser pg cfg.supautils_superuser stmt else pure tt
        break_if true stmt

  -- ALTER EXTENSION .. UPDATE
  unfoldable pub alter_extension_stmt : CString → List DefElem → Action Db Unit
  alter_extension_stmt extname options = do
    super ← superuser pg
    break_if super (Statements.alter_extension extname options)
    options1 ← restrict_version_specification ext_alter options
    options2 ← override_ext_options ext_alter extname options1 cfg.total_epos cfg.epos
    run_alter_extension extname options2

  unfoldable pub is_privileged_object : ObjectType → CString → Action Db Bool
  is_privileged_object object_extension object =
      is_extension_privileged pg object cfg.privileged_extensions
  is_privileged_object _ object = pure false

  -- ALTER EXTENSION .. SET SCHEMA
  unfoldable pub alter_object_schema_stmt : ObjectType → CString → Action Db Unit
  alter_object_schema_stmt object_type object =
      let stmt = Statements.alter_object_schema object_type object in
      do
        super ← superuser pg
        break_if super stmt
        privileged ← is_privileged_object object_type object
        break_if (not privileged) stmt
        run_as_superuser pg cfg.supautils_superuser stmt
        return_from_hook
