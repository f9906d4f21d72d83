-- ===== src/Hook/Versions.antt =====
-- What the restriction of extension versions does with the options.
use supautils.Prelude.{
  ◌≡◌, List, [], ◌∷◌, ◌++◌, cstr, str_eq, arith, if◌then◌else◌, append-nil, append_assoc,
}
use supautils.Statements.{DefElem, ExtensionStmtKind}
use supautils.Session.{Session, Outcome, Warning, version_ignored, ◌>>=◌}
use supautils.Config.{warn}
use supautils.Hook.ExtensionStmts.{strip_versions}

-- The options that are no version, in their order.
abbrev pub other_options : List DefElem → List DefElem
other_options [] = []
other_options (d ∷ l) =
    if str_eq d.defname (cstr "new_version") then other_options l else d ∷ other_options l

-- One warning for each version.
abbrev pub version_warnings : ExtensionStmtKind → List DefElem → List Warning
version_warnings k [] = []
version_warnings k (d ∷ l) =
    if str_eq d.defname (cstr "new_version")
    then version_ignored k ∷ version_warnings k l
    else version_warnings k l

module _ {Db : Type 0} (k : ExtensionStmtKind) where
  -- In the mode `warn` the loop drops the versions and keeps the other options in their order; it
  -- reports one warning for each version, and changes nothing else.
  pub strip_versions-warn :
      (l : List DefElem) (s : Session Db)
      → strip_versions warn k l s
        ≡ (Outcome.ok (other_options l), record s { warnings = s.warnings ++ version_warnings k l })
  unfolding strip_versions ◌>>=◌
  strip_versions-warn [] s = ground (arith, append-nil s.warnings)
  strip_versions-warn (d ∷ l) s = ground (
    arith,
    strip_versions-warn l s,
    strip_versions-warn l (record s { warnings = s.warnings ++ version_ignored k ∷ [] }),
    append_assoc s.warnings (version_ignored k ∷ []) (version_warnings k l),
  )
