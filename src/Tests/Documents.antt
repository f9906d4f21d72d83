-- ===== src/Tests/Documents.antt =====
-- From the texts of the settings to what the hook does with them, on concrete values.
use supautils.Prelude.{refl, ◌≡◌, ◌↔◌, none, some, List, [], ◌∷◌, All, first, cstr, str_eq, ℕ, true}
use supautils.Session.{Outcome}
use supautils.Statements.{DefElem, ext_create, string_arg}
use supautils.Constrained.{Host, constrain_extension}
use supautils.Constrained.Setting.{constrained_extensions_assign_hook}
use supautils.Constrained.EndToEnd.{Allows, constrained_by_document}
use supautils.Overrides.{ExtensionParameterOverrides, override_ext_options}
use supautils.Overrides.SchemaOption.{at_most_one_schema}
use supautils.Overrides.Options.{overridden, last_schema, override_ext_options-overridden}
use supautils.Overrides.Setting.{extensions_parameter_overrides_assign_hook}
use supautils.Overrides.EndToEnd.{schema_in_document, overrides_by_document}
use supautils.Tests.Demo.{user}
use supautils.Tests.Settings.{
  two, half_kb, read_limits, cexts_zeroed, vector_limits, limits_read, read_schemas, epos_zeroed,
  hstore_schema, schemas_read,
}

abbrev one_cpu : Host
one_cpu = record {
  nprocs = 1;
  totalram = some 1024;
  f_bfree = 10;
  f_bsize = 512;
  statvfs_ok = true;
}

constrained_by_document_example :
    let t = (constrained_extensions_assign_hook read_limits two half_kb (some []) cexts_zeroed).1 in
    (constrain_extension (cstr "vector") t.cexts t.total_cexts one_cpu ≡ none)
    ↔ All (Allows (cstr "vector") one_cpu 1024) vector_limits
constrained_by_document_example =
    constrained_by_document (cstr "vector") one_cpu 1024 read_limits two half_kb cexts_zeroed
      (some []) vector_limits (record { at = λ i h. refl }) limits_read refl refl

abbrev public_schema : List DefElem
public_schema = record { defname = cstr "schema"; arg = string_arg (cstr "public") } ∷ []

one_schema_given : at_most_one_schema public_schema ≡ true
unfolding str_eq
one_schema_given = refl

abbrev two_entries : ℕ → ExtensionParameterOverrides
two_entries i = record { name = some (cstr "hstore"); schema = some (cstr "extensions") }

override_ext_options-overridden_example :
    override_ext_options ext_create (cstr "hstore") public_schema 2 two_entries (user 20) ≡ (
      Outcome.ok (overridden public_schema (last_schema (cstr "hstore") (first 2 two_entries))),
      user 20,
    )
override_ext_options-overridden_example =
    override_ext_options-overridden (cstr "hstore") (user 20) public_schema 2 two_entries
      (refl, (refl, tt)) one_schema_given

overrides_by_document_example :
    let t = (extensions_parameter_overrides_assign_hook read_schemas (some []) epos_zeroed).1 in
    override_ext_options ext_create (cstr "hstore") public_schema t.total_epos t.epos (user 20) ≡ (
      Outcome.ok (overridden public_schema (schema_in_document (cstr "hstore") hstore_schema)),
      user 20,
    )
overrides_by_document_example =
    overrides_by_document (cstr "hstore") read_schemas epos_zeroed (user 20) (some []) hstore_schema
      public_schema (record { at = λ i h. refl }) schemas_read one_schema_given
