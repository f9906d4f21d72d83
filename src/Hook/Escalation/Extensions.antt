-- ===== src/Hook/Escalation/Extensions.antt =====
-- ALTER EXTENSION of an extension that is not listed as privileged runs nothing itself.
use supautils.Prelude.{
  ◌≡◌, refl, ap, ◌∙◌, Bool, true, false, ℕ, Option, none, some, List, [], ◌∷◌, CString,
}
use supautils.Statements.{DefElem, ExtensionStmtKind, ext_create}
use supautils.Session.{Session, Outcome, Action, continue, ◌>>=◌}
use supautils.Hook.Escalation.Permits.{
  allows, is_offered, privileged-offered, is_extension_privileged-state,
}
use supautils.Session.Reads.{Reads, reads_rules}
use supautils.Session.Stays.{Stays, Stays-Reads, stays_rules}
use supautils.Server.{Server}
use supautils.Config.{Config, RestrictMode, off, warn, error}
use supautils.Overrides.{
  ExtensionParameterOverrides, override_one, override_entries, override_ext_options,
}
use supautils.PrivilegedExtensions.{is_extension_privileged}
use supautils.Hook.ExtensionStmts.{
  strip_versions, is_supautils_superuser, restrict_version_specification, run_alter_extension,
  alter_extension_stmt,
}

module _ {Db : Type 0} where
  strip_versions-Stays :
      (catalogs : Db) (mode : RestrictMode) (k : ExtensionStmtKind) (l : List DefElem)
      → Stays catalogs (strip_versions {Db = Db} mode k l)
  unfolding strip_versions
  strip_versions-Stays catalogs mode k [] = search (stays_rules, reads_rules, Stays-Reads)
  strip_versions-Stays catalogs error k (d ∷ l) =
      let rest = strip_versions-Stays catalogs error k l in
      search (stays_rules, reads_rules, Stays-Reads) depth 20
  strip_versions-Stays catalogs warn k (d ∷ l) =
      let rest = strip_versions-Stays catalogs warn k l in
      search (stays_rules, reads_rules, Stays-Reads) depth 20
  strip_versions-Stays catalogs off k (d ∷ l) =
      let rest = strip_versions-Stays catalogs off k l in
      search (stays_rules, reads_rules, Stays-Reads) depth 20

  override_one-Reads :
      (k : ExtensionStmtKind) (b : Bool) (x : ExtensionParameterOverrides) (l : List DefElem)
      → Reads (override_one {Db = Db} k b x l)
  unfolding override_one
  override_one-Reads ext_create true x l = search reads_rules depth 10
  override_one-Reads _ _ x l = search reads_rules

  override_entries-Reads :
      (k : ExtensionStmtKind) (name : CString) (xs : List ExtensionParameterOverrides)
      (l : List DefElem)
      → Reads (override_entries {Db = Db} k name xs l)
  unfolding override_entries
  override_entries-Reads k name [] l = search reads_rules
  override_entries-Reads k name (x ∷ xs) l =
      search (reads_rules, override_one-Reads, override_entries-Reads k name xs) depth 10

  override_ext_options-Reads :
      (k : ExtensionStmtKind) (name : CString) (l : List DefElem) (total_epos : ℕ)
      (epos : ℕ → ExtensionParameterOverrides)
      → Reads (override_ext_options {Db = Db} k name l total_epos epos)
  unfolding override_ext_options
  override_ext_options-Reads k name l n epos = override_entries-Reads k name _ l

-- A guard that does not say yes, in front of a step that is quiet then.
guard_quiet :
    {Db : Type 0} (r : Outcome Bool) (f : Bool → Action Db Unit) (t : Session Db)
    → allows r ≡ false
    → (f false t).1 ≡ t
    → (continue r f t).1 ≡ t
guard_quiet (Outcome.ok true) f t h k = cc
guard_quiet (Outcome.ok false) f t h k = k
guard_quiet (Outcome.broke stmt) f t h k = refl
guard_quiet Outcome.returned f t h k = refl
guard_quiet (Outcome.raised e) f t h k = refl

module _ (pg : Server) (cfg : Config) where
  supautils_superuser-Reads : (o : Option CString) → Reads (is_supautils_superuser pg cfg o)
  unfolding is_supautils_superuser
  supautils_superuser-Reads none = search reads_rules
  supautils_superuser-Reads (some x) = search reads_rules depth 10

  restrict-Stays :
      {d : pg.Db} (k : ExtensionStmtKind) (l : List DefElem)
      → Stays d (restrict_version_specification pg cfg k l)
  unfolding restrict_version_specification
  restrict-Stays k l =
      search
        (stays_rules, reads_rules, Stays-Reads, supautils_superuser-Reads, strip_versions-Stays)
        depth 20

  run_alter_extension-state :
      (extname : CString) (options : List DefElem) (s : Session pg.Db)
      → is_offered pg cfg s.db extname ≡ false
      → (run_alter_extension pg cfg extname options s).1 ≡ s
  unfolding run_alter_extension ◌>>=◌
  run_alter_extension-state extname options s h =
      let x = is_extension_privileged pg extname cfg.privileged_extensions s in
      guard_quiet x.0 _ x.1 (privileged-offered pg cfg s extname h) refl
      ∙ is_extension_privileged-state pg cfg s extname

  run_alter_extension-Stays :
      {d : pg.Db} (extname : CString) (options : List DefElem)
      → is_offered pg cfg d extname ≡ false
      → Stays d (run_alter_extension pg cfg extname options)
  run_alter_extension-Stays extname options h = record {
    at = λ s e.
        let k =
          run_alter_extension-state extname options s
            (ap (λ db. is_offered pg cfg db extname) e ∙ h) in
        (
          ap (λ (t : Session pg.Db). t.runs) k,
          ap (λ (t : Session pg.Db). t.user_id) k,
          ap (λ (t : Session pg.Db). t.db) k ∙ e,
        );
  }

  pub alter_extension-Stays :
      {d : pg.Db} (extname : CString) (options : List DefElem)
      → is_offered pg cfg d extname ≡ false
      → Stays d (alter_extension_stmt pg cfg extname options)
  unfolding alter_extension_stmt
  alter_extension-Stays extname options h =
      search
        (
          stays_rules,
          reads_rules,
          Stays-Reads,
          restrict-Stays,
          override_ext_options-Reads,
          run_alter_extension-Stays extname _ h,
        )
        depth 20
