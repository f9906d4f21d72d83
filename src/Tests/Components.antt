-- ===== src/Tests/Components.antt =====
-- The lists of the settings, the grants, the constraints and the scripts, on concrete values.
use supautils.Prelude.{
  arith, All, first, length, ◌≤◌, ◌≡◌, refl, ◌↔◌, ◌∷◌, [], ◌++◌, ℕ, true, false, none, some, List,
  Any, CString, cstr, str_eq,
}
use supautils.Statements.{DefElem}
use supautils.Session.{Outcome, ◌>>=◌}
use supautils.Constrained.{pos}
use supautils.Utils.{is_string_in_comma_delimited_string}
use supautils.Utils.Wildcard.{Covers, is_string_in_comma_delimited_string_iff}
use supautils.Reserved.{is_reserved_role, is_hint_role, confirm_reserved_memberships, found}
use supautils.Reserved.Meaning.{
  Reserves, is_reserved_role_iff, is_hint_role_iff, confirm_reserved_memberships_iff,
}
use supautils.Grants.Meaning.{GrantsTable, is_current_role_granted_table_policy-Any}
use supautils.Grants.{
  PolicyGrants, is_table_listed, is_role_granted, is_current_role_granted_table_policy,
}
use supautils.Constrained.{ConstrainedExtension, Host, constrain_extension}
use supautils.Constrained.Meaning.{Meets, constrain_extension_iff}
use supautils.Scripts.{ScriptOptions, script_sql, script_text, sql_literal}
use supautils.Scripts.Buffer.{script_sql-script_text}
use supautils.Statements.{ext_create, string_arg}
use supautils.Config.{warn}
use supautils.Hook.ExtensionStmts.{strip_versions}
use supautils.Hook.Versions.{other_options, version_warnings, strip_versions-warn}
use supautils.Tests.Demo.{split_commas, demo, user}

is_reserved_role_iff_example :
    (is_reserved_role split_commas (some (cstr "admin,storage*")) (cstr "storage") false ≡ true)
    ↔ Any (λ e. Reserves false e (cstr "storage")) (split_commas (cstr "admin,storage*")).1
is_reserved_role_iff_example =
    is_reserved_role_iff split_commas (cstr "admin,storage*") (cstr "storage") false

confirm_reserved_memberships_iff_example :
    let raised = confirm_reserved_memberships split_commas (some (cstr "admin")) (cstr "admin") in
    ((found raised ≡ true) ↔ Any (λ e. e ≡ cstr "admin") (split_commas (cstr "admin")).1)
    × ((name : CString) → raised ≡ some name → name ≡ cstr "admin")
confirm_reserved_memberships_iff_example =
    confirm_reserved_memberships_iff split_commas (cstr "admin") (cstr "admin")

is_hint_role_iff_example :
    (is_hint_role split_commas (some (cstr "anon,api")) (some (cstr "api")) ≡ true)
    ↔ Any (λ e. e ≡ cstr "api") (split_commas (cstr "anon,api")).1
is_hint_role_iff_example = is_hint_role_iff split_commas (cstr "anon,api") (cstr "api")

is_string_in_comma_delimited_string_iff_example :
    (is_string_in_comma_delimited_string split_commas
        (some (cstr "pgaudit.log"))
        (some (cstr "pgaudit.*"))
      ≡ true)
    ↔ Any (λ e. Covers e (cstr "pgaudit.log")) (split_commas (cstr "pgaudit.*")).1
is_string_in_comma_delimited_string_iff_example =
    is_string_in_comma_delimited_string_iff split_commas (cstr "pgaudit.log") (cstr "pgaudit.*")

-- The role "user" may manage the policies of one table.
abbrev grants : ℕ → PolicyGrants
grants i = record {
  role_name = some (cstr "user");
  table_names = λ j. some (cstr "tables");
  total_tables = 1;
}

table_granted :
    (is_current_role_granted_table_policy demo (cstr "tables" ∷ []) grants 1 (user 20)).0
    ≡ Outcome.ok true
unfolding is_current_role_granted_table_policy is_role_granted is_table_listed str_eq ◌>>=◌
table_granted = refl

is_current_role_granted_table_policy-Any_example :
    Any (GrantsTable demo tt (cstr "user") 1) (first 1 grants)
is_current_role_granted_table_policy-Any_example =
    is_current_role_granted_table_policy-Any demo 1 (user 20) (cstr "user") (cstr "tables" ∷ [])
      grants 1 refl refl table_granted

abbrev host : Host
host = record { nprocs = 2; totalram = some 1024; f_bfree = 10; f_bsize = 512; statvfs_ok = true }

abbrev entries : ℕ → ConstrainedExtension
entries i = record { name = some (cstr "vector"); cpu = pos 1; mem = 512; disk = 4096 }

constrain_extension_iff_example :
    (constrain_extension (cstr "vector") entries 1 host ≡ none)
    ↔ All (Meets (cstr "vector") host 1024) (first 1 entries)
constrain_extension_iff_example =
    constrain_extension_iff (cstr "vector") host 1024 entries 1 refl refl

abbrev options : ScriptOptions
options = record { extschema = none; extversion = none; extcascade = true }

null_fits : length (sql_literal demo none) ≤ 70
unfolding sql_literal
null_fits = omega arith

name_fits : length (sql_literal demo (some (cstr "vector"))) ≤ 70
unfolding sql_literal
name_fits = omega arith

script_sql-script_text_example :
    script_sql demo (cstr "a.sql") (cstr "vector") options
    ≡ script_text demo (cstr "a.sql") (cstr "vector") options
script_sql-script_text_example =
    script_sql-script_text demo (cstr "a.sql") (cstr "vector") options (omega arith) name_fits
      null_fits null_fits

abbrev version_and_schema : List DefElem
version_and_schema =
    record { defname = cstr "new_version"; arg = string_arg (cstr "1.0") }
    ∷ record { defname = cstr "schema"; arg = string_arg (cstr "public") }
    ∷ []

strip_versions-warn_example : strip_versions warn ext_create version_and_schema (user 20) ≡ (
  Outcome.ok (other_options version_and_schema),
  record (user 20) { warnings = [] ++ version_warnings ext_create version_and_schema },
)
strip_versions-warn_example = strip_versions-warn ext_create version_and_schema (user 20)
