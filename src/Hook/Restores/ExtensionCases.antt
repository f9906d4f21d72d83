-- ===== src/Hook/Restores/ExtensionCases.antt =====
-- Statements about extensions keep the role that runs them, with the scripts that run around them.
use supautils.Prelude.{
  ◌≡◌, sym, ◌∙◌, ℕ, Bool, true, false, Option, none, some, List, [], ◌∷◌, CString, arith,
}
use mathlib.Core.Bool.{false≢true}
use supautils.Statements.{
  Stmt, DefElem, ExtensionStmtKind, ext_create, ObjectType, object_extension,
}
use supautils.Session.{Session, Outcome, Action, ◌>>=◌}
use supautils.Session.Keeps.{
  is_normal, IsRestricted-same, Keeps, KeepsSwitched, KeepsSwitched-Keeps, KeepsSwitched-bind,
  Keeps-bind, Keeps-pure, Keeps-check, keeps_rules, IsStraight, straight_rules,
}
use supautils.Server.{Server}
use supautils.Config.{Config, RestrictMode, off, warn, error}
use supautils.Overrides.{
  ExtensionParameterOverrides, override_one, override_entries, override_ext_options,
}
use supautils.PrivilegedExtensions.{is_extension_available, is_extension_privileged}
use supautils.Scripts.{
  ScriptOptions, script_sql, execute_script, run_custom_script, read_option, script_options,
  run_global_before_create_script, run_ext_before_create_script, run_ext_after_create_script,
}
use supautils.Roles.{switch_to_superuser, run_process_utility_hook, switch_back_unless}
use supautils.Roles.Switch.{
  RestoresRole, is_create, switch-IsRestricted, run_process_utility_hook-Keeps,
  run_process_utility_hook-IsStraight, switch-already, switch_back-SameRole, switch-SwitchedFrom,
  with_cleanup-KeepsSwitched, with_cleanup-IsStraight,
}
use supautils.Roles.Closes.{
  run_as_superuser-Keeps, Ready, Closes, Ready-trans, Ready-switched, Keeps-switch, Closes-flag,
  Closes-bind, Closes-return,
}
use supautils.Hook.Restores.GrantCases.{is_extension_privileged-Keeps}
use supautils.Hook.ExtensionStmts.{
  strip_versions, is_supautils_superuser, restrict_version_specification, run_create_extension,
  create_extension_stmt, run_alter_extension, alter_extension_stmt, is_privileged_object,
  alter_object_schema_stmt,
}

module _ (pg : Server) (restores : RestoresRole pg) where
  run_custom_script-KeepsSwitched :
      (file name : CString) (o : ScriptOptions) → KeepsSwitched (run_custom_script pg file name o)
  unfolding run_custom_script execute_script ◌>>=◌
  run_custom_script-KeepsSwitched file name o = record {
    at = λ s w r h.
        let k =
          restores.restricted.script (script_sql pg file name o)
            (record s { running_custom_script = true }) w r in
        ground arith;
  }

  run_custom_script-IsStraight :
      (file name : CString) (o : ScriptOptions) → IsStraight (run_custom_script pg file name o)
  unfolding run_custom_script execute_script ◌>>=◌
  run_custom_script-IsStraight file name o = record { at = λ s. ground arith }

module _ (pg : Server) where
  read_option-Keeps : (d : DefElem) (o : ScriptOptions) → Keeps (read_option pg d o)
  unfolding read_option
  read_option-Keeps d o = search keeps_rules depth 20

  read_option-IsStraight : (d : DefElem) (o : ScriptOptions) → IsStraight (read_option pg d o)
  unfolding read_option
  read_option-IsStraight d o = search straight_rules depth 20

  script_options-Keeps : (l : List DefElem) (o : ScriptOptions) → Keeps (script_options pg l o)
  unfolding script_options
  script_options-Keeps [] o = search keeps_rules
  script_options-Keeps (d ∷ l) o =
      search (keeps_rules, read_option-Keeps, script_options-Keeps l) depth 10

  script_options-IsStraight :
      (l : List DefElem) (o : ScriptOptions) → IsStraight (script_options pg l o)
  unfolding script_options
  script_options-IsStraight [] o = search straight_rules
  script_options-IsStraight (d ∷ l) o =
      search (straight_rules, read_option-IsStraight, script_options-IsStraight l) depth 10

  override_one-Keeps :
      (k : ExtensionStmtKind) (b : Bool) (x : ExtensionParameterOverrides) (l : List DefElem)
      → Keeps (override_one {Db = pg.Db} k b x l)
  unfolding override_one
  override_one-Keeps ext_create true x l = search keeps_rules depth 10
  override_one-Keeps _ _ x l = search keeps_rules

  override_one-IsStraight :
      (k : ExtensionStmtKind) (b : Bool) (x : ExtensionParameterOverrides) (l : List DefElem)
      → IsStraight (override_one {Db = pg.Db} k b x l)
  unfolding override_one
  override_one-IsStraight ext_create true x l = search straight_rules depth 10
  override_one-IsStraight _ _ x l = search straight_rules

  override_entries-Keeps :
      (k : ExtensionStmtKind) (name : CString) (l : List ExtensionParameterOverrides)
      (options : List DefElem)
      → Keeps (override_entries {Db = pg.Db} k name l options)
  unfolding override_entries
  override_entries-Keeps k name [] options = search keeps_rules
  override_entries-Keeps k name (x ∷ l) options =
      search (keeps_rules, override_one-Keeps, override_entries-Keeps k name l) depth 10

  override_entries-IsStraight :
      (k : ExtensionStmtKind) (name : CString) (l : List ExtensionParameterOverrides)
      (options : List DefElem)
      → IsStraight (override_entries {Db = pg.Db} k name l options)
  unfolding override_entries
  override_entries-IsStraight k name [] options = search straight_rules
  override_entries-IsStraight k name (x ∷ l) options =
      search (straight_rules, override_one-IsStraight, override_entries-IsStraight k name l) depth
        10

  override_ext_options-Keeps :
      (k : ExtensionStmtKind) (name : CString) (options : List DefElem) (n : ℕ)
      (epos : ℕ → ExtensionParameterOverrides)
      → Keeps (override_ext_options {Db = pg.Db} k name options n epos)
  unfolding override_ext_options
  override_ext_options-Keeps k name options n epos = override_entries-Keeps k name _ options

  override_ext_options-IsStraight :
      (k : ExtensionStmtKind) (name : CString) (options : List DefElem) (n : ℕ)
      (epos : ℕ → ExtensionParameterOverrides)
      → IsStraight (override_ext_options {Db = pg.Db} k name options n epos)
  unfolding override_ext_options
  override_ext_options-IsStraight k name options n epos =
      override_entries-IsStraight k name _ options

  is_extension_privileged-IsStraight :
      (name : CString) (l : Option CString) → IsStraight (is_extension_privileged pg name l)
  unfolding is_extension_privileged is_extension_available
  is_extension_privileged-IsStraight name l = search straight_rules depth 20

  strip_versions-Keeps :
      (mode : RestrictMode) (k : ExtensionStmtKind) (l : List DefElem)
      → Keeps (strip_versions {Db = pg.Db} mode k l)
  unfolding strip_versions
  strip_versions-Keeps mode k [] = search keeps_rules
  strip_versions-Keeps error k (d ∷ l) =
      let rest = strip_versions-Keeps error k l in search keeps_rules depth 10
  strip_versions-Keeps off k (d ∷ l) =
      let rest = strip_versions-Keeps off k l in search keeps_rules depth 10
  strip_versions-Keeps warn k (d ∷ l) =
      let rest = strip_versions-Keeps warn k l in search keeps_rules depth 10

  is_supautils_superuser-Keeps :
      (cfg : Config) (name : Option CString) → Keeps (is_supautils_superuser pg cfg name)
  unfolding is_supautils_superuser
  is_supautils_superuser-Keeps cfg none = search keeps_rules
  is_supautils_superuser-Keeps cfg (some x) = search keeps_rules depth 10

  restrict-Keeps :
      (cfg : Config) (k : ExtensionStmtKind) (l : List DefElem)
      → Keeps (restrict_version_specification pg cfg k l)
  unfolding restrict_version_specification
  restrict-Keeps cfg k l =
      search (keeps_rules, is_supautils_superuser-Keeps cfg, strip_versions-Keeps) depth 20

module _ (pg : Server) (cfg : Config) (restores : RestoresRole pg) where
  -- The state behind `run_create_extension`, and the flag that it gives.
  create-Ready :
      (stmt : Stmt) (c : is_create stmt ≡ true) (privileged already : Bool) (s t : Session pg.Db)
      → Ready already s t
      → is_normal (run_create_extension pg cfg stmt privileged already t).0 ≡ true
      → ((run_create_extension pg cfg stmt privileged already t).0 ≡ Outcome.ok already)
        × Ready already s (run_create_extension pg cfg stmt privileged already t).1
  unfolding run_create_extension switch_back_unless ◌>>=◌
  create-Ready stmt c true already s t r n =
      let (w, x) = Ready-switched already s t r in
      let k = (with_cleanup-KeepsSwitched pg restores.restricted stmt already).at t w x in
      let l = (with_cleanup-IsStraight pg stmt already).at t in
      (ground arith, Ready-trans already s t _ r (ground arith))
  create-Ready stmt c false true s t r n =
      let u = (run_process_utility_hook pg stmt t).1 in
      let (w, x) = Ready-switched true s t r in
      let k =
        (run_process_utility_hook-Keeps pg restores stmt c).at t (record { restricted = λ _. x }) in
      let l = (run_process_utility_hook-IsStraight pg stmt).at t in
      let m = switch-already pg cfg.supautils_superuser u in
      (ground arith, Ready-trans true s t _ r (ground arith))
  create-Ready stmt c false false s t r n =
      let back = (switch_back_unless false t).1 in
      let u = (run_process_utility_hook pg stmt back).1 in
      let b = switch_back-SameRole r.1 r.0 in
      let k =
        (run_process_utility_hook-Keeps pg restores stmt c).at back
          (record { restricted = λ h. absurd (false≢true (sym (b.switched ∙ r.1) ∙ h)) }) in
      let l = (run_process_utility_hook-IsStraight pg stmt).at back in
      let m = switch-SwitchedFrom pg cfg.supautils_superuser u in
      let x = switch-IsRestricted pg cfg.supautils_superuser u in
      let n1 : is_normal (run_process_utility_hook pg stmt back).0 ≡ true = ground arith in
      let n2 : is_normal (switch_to_superuser pg cfg.supautils_superuser u).0 ≡ true =
        ground arith in
      let off : u.is_switched_to_superuser ≡ false = (k n1).switched ∙ b.switched ∙ r.1 in
      (ground arith, (ground arith, r.1, IsRestricted-same (x off n2) (ground arith)))

  create-Closes :
      {A : Type 0} (stmt : Stmt) (c : is_create stmt ≡ true) (privileged already : Bool)
      (s : Session pg.Db) (f : Bool → Action pg.Db A)
      → Closes already s (f already)
      → Closes already s (run_create_extension pg cfg stmt privileged already >>= f)
  create-Closes stmt c privileged already s f k =
      Closes-flag already s _ f (create-Ready stmt c privileged already s) k

  global_script-KeepsSwitched :
      (name : CString) (l : List DefElem) (path : Option CString)
      → KeepsSwitched (run_global_before_create_script pg name l path)
  unfolding run_global_before_create_script
  global_script-KeepsSwitched name l path = search (
    KeepsSwitched-bind,
    KeepsSwitched-Keeps,
    script_options-Keeps pg,
    run_custom_script-KeepsSwitched pg restores,
  )

  global_script-IsStraight :
      (name : CString) (l : List DefElem) (path : Option CString)
      → IsStraight (run_global_before_create_script pg name l path)
  unfolding run_global_before_create_script
  global_script-IsStraight name l path =
      search
        (straight_rules, script_options-IsStraight pg, run_custom_script-IsStraight pg restores)

  before_script-KeepsSwitched :
      (name : CString) (l : List DefElem) (path : Option CString)
      → KeepsSwitched (run_ext_before_create_script pg name l path)
  unfolding run_ext_before_create_script
  before_script-KeepsSwitched name l path = search (
    KeepsSwitched-bind,
    KeepsSwitched-Keeps,
    script_options-Keeps pg,
    run_custom_script-KeepsSwitched pg restores,
  )

  before_script-IsStraight :
      (name : CString) (l : List DefElem) (path : Option CString)
      → IsStraight (run_ext_before_create_script pg name l path)
  unfolding run_ext_before_create_script
  before_script-IsStraight name l path =
      search
        (straight_rules, script_options-IsStraight pg, run_custom_script-IsStraight pg restores)

  after_script-KeepsSwitched :
      (name : CString) (l : List DefElem) (path : Option CString)
      → KeepsSwitched (run_ext_after_create_script pg name l path)
  unfolding run_ext_after_create_script
  after_script-KeepsSwitched name l path = search (
    KeepsSwitched-bind,
    KeepsSwitched-Keeps,
    script_options-Keeps pg,
    run_custom_script-KeepsSwitched pg restores,
  )

  after_script-IsStraight :
      (name : CString) (l : List DefElem) (path : Option CString)
      → IsStraight (run_ext_after_create_script pg name l path)
  unfolding run_ext_after_create_script
  after_script-IsStraight name l path =
      search
        (straight_rules, script_options-IsStraight pg, run_custom_script-IsStraight pg restores)

  pub create_extension_stmt-Keeps :
      (name : CString) (options : List DefElem) → Keeps (create_extension_stmt pg cfg name options)
  unfolding create_extension_stmt
  create_extension_stmt-Keeps name options =
      Keeps-bind _ _ (restrict-Keeps pg cfg ext_create options) λ options1.
        Keeps-bind _ _ (Keeps-check _) λ _. Keeps-switch pg cfg.supautils_superuser _ λ already s.
          search
            (
              Closes-bind,
              Closes-return,
              create-Closes,
              global_script-KeepsSwitched,
              global_script-IsStraight,
              before_script-KeepsSwitched,
              before_script-IsStraight,
              after_script-KeepsSwitched,
              after_script-IsStraight,
              KeepsSwitched-Keeps,
              override_ext_options-Keeps pg,
              override_ext_options-IsStraight pg,
              is_extension_privileged-Keeps pg,
              is_extension_privileged-IsStraight pg,
            )
            depth 20

  pub alter_extension_stmt-Keeps :
      (name : CString) (options : List DefElem) → Keeps (alter_extension_stmt pg cfg name options)
  unfolding alter_extension_stmt run_alter_extension
  alter_extension_stmt-Keeps name options =
      search
        (
          keeps_rules,
          restrict-Keeps pg cfg,
          override_ext_options-Keeps pg,
          is_extension_privileged-Keeps pg,
          run_as_superuser-Keeps pg restores.restricted,
        )
        depth 20

  is_privileged_object-Keeps :
      (t : ObjectType) (name : CString) → Keeps (is_privileged_object pg cfg t name)
  unfolding is_privileged_object
  is_privileged_object-Keeps object_extension name = is_extension_privileged-Keeps pg name _
  is_privileged_object-Keeps _ name = Keeps-pure false

  pub alter_object_schema_stmt-Keeps :
      (t : ObjectType) (name : CString) → Keeps (alter_object_schema_stmt pg cfg t name)
  unfolding alter_object_schema_stmt
  alter_object_schema_stmt-Keeps t name =
      search
        (keeps_rules, is_privileged_object-Keeps, run_as_superuser-Keeps pg restores.restricted)
        depth 20
