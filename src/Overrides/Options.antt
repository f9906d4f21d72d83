-- ===== src/Overrides/Options.antt =====
-- What the overrides make of the options of CREATE EXTENSION.
use supautils.Prelude.{
  ◌≡◌, refl, ap, ◌∙◌, ℕ, ◌+◌, Bool, true, false, Option, none, some, List, [], ◌∷◌, ◌++◌, All,
  first, CString, str_eq, arith, if◌then◌else◌,
}
use supautils.Statements.{DefElem, ext_create}
use supautils.Session.{Session, Outcome, ◌>>=◌}
use supautils.Overrides.{
  ExtensionParameterOverrides, find_schema, apply_override, override_one, override_entries,
  override_ext_options,
}
use supautils.Overrides.SchemaOption.{
  without_schema, at_most_one_schema, schema_option, schema_option-is_schema, none_dropped, Found,
  nothing, one, find_schema-Found, without_schema-no_schema, without_schema-append,
  at_most_one-append,
}

-- The options with the schema of an override, if it has one.
abbrev pub overridden : List DefElem → Option CString → List DefElem
overridden options none = options
overridden options (some schema) = without_schema options ++ schema_option schema ∷ []

-- Of two schemas, the second one counts where it is there.
abbrev pub later : Option CString → Option CString → Option CString
later o none = o
later o (some schema) = some schema

module _ (options : List DefElem) (h : at_most_one_schema options ≡ true) where
  overridden-at_most_one : (o : Option CString) → at_most_one_schema (overridden options o) ≡ true
  overridden-at_most_one none = h
  overridden-at_most_one (some schema) =
      at_most_one-append (without_schema options) (schema_option schema)
        (without_schema-no_schema options)

  overridden-again :
      (o o' : Option CString)
      → overridden (overridden options o) o' ≡ overridden options (later o o')
  overridden-again o none = refl
  overridden-again none (some schema) = refl
  overridden-again (some first_schema) (some schema) =
      ap (λ l. l ++ schema_option schema ∷ [])
        (without_schema-append (without_schema options) (schema_option first_schema)
            (schema_option-is_schema first_schema)
          ∙ none_dropped (without_schema options) (without_schema-no_schema options))

abbrev pub has_name : ExtensionParameterOverrides → Bool
has_name epo = elim epo.name [ none ↦ false | some name ↦ true ]

module _ (extname : CString) where
  -- The entry is for the extension.
  abbrev pub is_for : ExtensionParameterOverrides → Bool
  is_for epo = elim epo.name [ none ↦ false | some name ↦ str_eq name extname ]

  -- The schema of the last entry for the extension that has one.
  abbrev pub last_schema : List ExtensionParameterOverrides → Option CString
  last_schema [] = none
  last_schema (epo ∷ epos) = later (if is_for epo then epo.schema else none) (last_schema epos)

  applied :
      (o : Option CString) (options : List DefElem)
      → at_most_one_schema options ≡ true
      → Found options 0
      → (k : Option ℕ) → find_schema options 0 none ≡ some k
      → apply_override o options k ≡ overridden options o
  unfolding apply_override
  applied none options h f k e = refl
  applied (some schema) options h (nothing e' w) k e = ground arith
  applied (some schema) options h (one j e' w) k e = ground arith

  Found-schema :
      (options : List DefElem)
      → Found options 0
      → (k : Option ℕ) × (find_schema options 0 none ≡ some k)
  Found-schema options (nothing e w) = (none, e)
  Found-schema options (one j e w) = (some (0 + j), e)

  module _ {Db : Type 0} (s : Session Db) where
    override_one-overridden :
        (epo : ExtensionParameterOverrides) (b : Bool) (options : List DefElem)
        → at_most_one_schema options ≡ true
        → override_one ext_create b epo options s
          ≡ (Outcome.ok (overridden options (if b then epo.schema else none)), s)
    unfolding override_one ◌>>=◌
    override_one-overridden epo false options h = refl
    override_one-overridden epo true options h =
        let f = find_schema-Found options 0 h in
        let (k, e) = Found-schema options f in ground (arith, e, applied epo.schema options h f k e)

    one_then :
        (epo : ExtensionParameterOverrides) (epos : List ExtensionParameterOverrides)
        (options options' : List DefElem)
        → has_name epo ≡ true
        → override_one ext_create (is_for epo) epo options s ≡ (Outcome.ok options', s)
        → override_entries ext_create extname (epo ∷ epos) options s
          ≡ override_entries ext_create extname epos options' s
    unfolding override_entries ◌>>=◌
    one_then epo epos options options' n e = ground arith

    no_entry :
        (options : List DefElem)
        → override_entries ext_create extname [] options s ≡ (Outcome.ok options, s)
    unfolding override_entries ◌>>=◌
    no_entry options = refl

    override_entries-overridden :
        (epos : List ExtensionParameterOverrides) (options : List DefElem)
        → All (λ epo. has_name epo ≡ true) epos
        → at_most_one_schema options ≡ true
        → override_entries ext_create extname epos options s
          ≡ (Outcome.ok (overridden options (last_schema epos)), s)
    override_entries-overridden [] options n h = no_entry options
    override_entries-overridden (epo ∷ epos) options (n, ns) h =
        let o = if is_for epo then epo.schema else none in
        one_then epo epos options (overridden options o) n
          (override_one-overridden epo (is_for epo) options h)
        ∙ override_entries-overridden epos (overridden options o) ns
            (overridden-at_most_one options h o)
        ∙ ap (λ l. (Outcome.ok l, s)) (overridden-again options h o (last_schema epos))

    -- At CREATE EXTENSION, where the user gave at most one schema and every override has a name:
    -- without an error and without a change of the state, the options lose the user's schema and
    -- have, at their end, that of the last override for the extension that has one; where there is
    -- none, they are as they were.
    pub override_ext_options-overridden :
        (options : List DefElem) (total_epos : ℕ) (epos : ℕ → ExtensionParameterOverrides)
        → All (λ epo. has_name epo ≡ true) (first total_epos epos)
        → at_most_one_schema options ≡ true
        → override_ext_options ext_create extname options total_epos epos s
          ≡ (Outcome.ok (overridden options (last_schema (first total_epos epos))), s)
    unfolding override_ext_options
    override_ext_options-overridden options total_epos epos =
        override_entries-overridden (first total_epos epos) options
