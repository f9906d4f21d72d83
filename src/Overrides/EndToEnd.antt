-- ===== src/Overrides/EndToEnd.antt =====
-- From the text of the setting to the options of CREATE EXTENSION.
use supautils.Prelude.{
  ◌≡◌, refl, ap, sym, subst, ◌∙◌, true, Option, none, some, List, [], ◌∷◌, All, map, CString,
  str_eq, if◌then◌else◌,
}
use supautils.Json.{Reading}
use supautils.Json.Arrays.{IsBlank}
use supautils.Statements.{DefElem, ext_create}
use supautils.Session.{Session, Outcome}
use supautils.Overrides.{override_ext_options}
use supautils.Overrides.Schemas.{Override}
use supautils.Overrides.SchemaOption.{at_most_one_schema}
use supautils.Overrides.Options.{
  overridden, later, last_schema, has_name, override_ext_options-overridden,
}
use supautils.Overrides.Setting.Entries.{last_of, entry_for}
use supautils.Overrides.Setting.{
  OverridesSetting, blank, extensions_parameter_overrides_assign_hook,
}
use supautils.Overrides.Setting.Values.{
  overrides_of_value, extensions_parameter_overrides_assign_hook-first,
}

-- The last schema that the document has for the extension.
abbrev pub schema_in_document : CString → List Override → Option CString
schema_in_document extname [] = none
schema_in_document extname ((name, schemas) ∷ l) =
    later (if str_eq name extname then last_of schemas else none) (schema_in_document extname l)

module _ (extname : CString) where
  map-has_name : (l : List Override) → All (λ epo. has_name epo ≡ true) (map entry_for l)
  map-has_name [] = tt
  map-has_name (x ∷ l) = (refl, map-has_name l)

  last_schema-map :
      (l : List Override) → last_schema extname (map entry_for l) ≡ schema_in_document extname l
  last_schema-map [] = refl
  last_schema-map ((name, schemas) ∷ l) = ap (later _) (last_schema-map l)

  module _ {Db : Type 0} (read_json : CString → Reading) (g : OverridesSetting)
      (s : Session Db) where
    -- With an array that has room for the value, where no entry was written behind the hundred
    -- before: when a value that is taken is assigned, CREATE EXTENSION, where the user gave at most
    -- one schema, then has the user's options with the last schema that the document has for the
    -- extension in place of the user's, and just the user's where it has none.
    pub overrides_by_document :
        (value : Option CString) (l : List Override) (options : List DefElem)
        → IsBlank blank 100 g.epos
        → overrides_of_value read_json value ≡ some l
        → at_most_one_schema options ≡ true
        → let t = (extensions_parameter_overrides_assign_hook read_json value g).1 in
          override_ext_options ext_create extname options t.total_epos t.epos s
          ≡ (Outcome.ok (overridden options (schema_in_document extname l)), s)
    overrides_by_document value l options clean e h =
        let t = (extensions_parameter_overrides_assign_hook read_json value g).1 in
        let read =
          (extensions_parameter_overrides_assign_hook-first read_json g value l clean e).1 in
        let have_names = subst (All (λ epo. has_name epo ≡ true)) (sym read) (map-has_name l) in
        override_ext_options-overridden extname s options t.total_epos t.epos have_names h
        ∙ ap (λ o. (Outcome.ok (overridden options o), s))
            (ap (last_schema extname) read ∙ last_schema-map l)
