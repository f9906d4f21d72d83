-- ===== src/Tests.antt =====
-- Runs of the model on the server of Tests/Demo.
pub mod Demo
pub mod Components
pub mod Settings
pub mod Hooks
pub mod Hints
pub mod Documents
use supautils.Prelude.{
  arith, All, first, length, ◌≤◌, ◌<◌, inl, ◌≡◌, refl, ◌↔◌, ◌∷◌, [], ◌++◌, ℕ, Bool, true, false,
  ◌||◌, ◌&&◌, ◌==◌, Option, none, some, List, Any, CString, cstr, str_eq, if◌then◌else◌,
}
use mathlib.Core.Bool.{false≢true}
use supautils.Statements.{
  DefElem, Stmt, alter_publication, alter_extension, rename, object_role, other_stmt,
}
use supautils.Session.{Error, Session, Outcome, postgres_error, ◌>>=◌}
use supautils.Session.Keeps.{Sound}
use supautils.Server.{Server}
use supautils.Config.{Config, off}
use supautils.Constrained.{pos}
use supautils.Roles.{
  run_as_superuser, switch_to_superuser, superuser_oid_of, switch_back_unless,
  run_process_utility_hook, run_process_utility_hook_with_cleanup,
}
use supautils.Roles.Switch.{RestoresRole}
use supautils.Privileges.{has_privileged_role}
use supautils.PrivilegedExtensions.{is_extension_privileged, is_extension_available}
use supautils.Utils.{
  is_string_in_comma_delimited_string, is_in_split, matches_elem, strstarts, remove_ending_wildcard,
}
use supautils.Utils.Wildcard.{Covers, is_string_in_comma_delimited_string_iff}
use supautils.Reserved.{
  is_reserved_in, is_reserved_role, is_hint_role, confirm_reserved_memberships, found,
}
use supautils.Reserved.Meaning.{
  Reserves, is_reserved_role_iff, is_hint_role_iff, confirm_reserved_memberships_iff,
}
use supautils.Hook.{supautils_hook, dispatch, chain}
use supautils.Hook.PrivilegedStmts.{alter_publication_stmt, privileged_only}
use supautils.Hook.ExtensionStmts.{run_alter_extension}
use supautils.Hook.Restores.{Restored, supautils_hook_restores}
use supautils.Hook.Restores.Errors.{run_as_superuser_error, switch_sticks, superuser_role}
use supautils.Hook.Restores.AlterExtension.{run_as_superuser-runs, run_alter_extension-twice}
use supautils.Grants.Meaning.{GrantsTable, is_current_role_granted_table_policy-Any}
use supautils.Grants.{
  PolicyGrants, is_table_listed, is_role_granted, is_current_role_granted_table_policy,
}
use supautils.Constrained.{ConstrainedExtension, Host, constrain_extension}
use supautils.Constrained.Meaning.{Meets, constrain_extension_iff}
use supautils.Hook.Rejects.{ChangesReserved, renamed, Stopped}
use supautils.Scripts.{ScriptOptions, script_sql, script_text, sql_literal, max_sql_len}
use supautils.Scripts.Buffer.{script_sql-script_text}
use supautils.Statements.{ext_create, string_arg}
use supautils.Session.{Warning}
use supautils.Config.{warn}
use supautils.Hook.ExtensionStmts.{strip_versions}
use supautils.Hook.Versions.{other_options, version_warnings, strip_versions-warn}
use Demo.{
  split_from, split_commas, demo, demo_config, user, demo-RestoresRole, demo-RestrictedStays,
  demo-SavedRoleStays,
}

-- The hook runs ALTER PUBLICATION of the privileged user as the superuser.
hook_ok : (supautils_hook demo demo_config alter_publication (user 30)).0 ≡ none
unfolding supautils_hook dispatch chain alter_publication_stmt privileged_only has_privileged_role
    run_as_superuser switch_to_superuser superuser_oid_of run_process_utility_hook
    run_process_utility_hook_with_cleanup switch_back_unless str_eq ◌>>=◌
hook_ok = refl

user-Sound : Sound (user 30)
user-Sound = record { restricted = λ h. absurd (false≢true h) }

supautils_hook_restores_example :
    Restored demo (user 30) (supautils_hook demo demo_config alter_publication (user 30)).1
supautils_hook_restores_example =
    supautils_hook_restores demo demo_config demo-RestoresRole alter_publication (user 30)
      user-Sound hook_ok

-- A switched session.
abbrev switched : Session Unit
switched = record (user 30) { is_switched_to_superuser = true; prev_role_oid = 30 }

statement_fails :
    (run_as_superuser demo (some (cstr "admin")) (other_stmt 1) (user 30)).0
    ≡ Outcome.raised postgres_error
unfolding run_as_superuser switch_to_superuser superuser_oid_of run_process_utility_hook
    run_process_utility_hook_with_cleanup switch_back_unless str_eq ◌>>=◌
statement_fails = refl

admin_found : superuser_role demo (some (cstr "admin")) tt ≡ some 10
unfolding str_eq
admin_found = refl

run_as_superuser_error_example :
    let t = (run_as_superuser demo (some (cstr "admin")) (other_stmt 1) (user 30)).1 in
    (t.user_id ≡ 30) × (t.sec_context ≡ 0) × (t.is_switched_to_superuser ≡ false)
run_as_superuser_error_example =
    run_as_superuser_error demo (some (cstr "admin")) (other_stmt 1) demo-SavedRoleStays (user 30)
      10 postgres_error refl admin_found statement_fails

missing_role : superuser_role demo (some (cstr "missing")) tt ≡ none
unfolding str_eq
missing_role = refl

switch_sticks_example :
    let t = (switch_to_superuser demo (some (cstr "missing")) (user 30)).1 in
    ((switch_to_superuser demo (some (cstr "missing")) (user 30)).0 ≡ Outcome.raised postgres_error)
    × (t.user_id ≡ 30)
    × (t.is_switched_to_superuser ≡ true)
    × ((run_as_superuser demo (some (cstr "missing")) alter_publication switched).1.runs
        ≡ [] ++ (30, alter_publication) ∷ [])
switch_sticks_example =
    switch_sticks demo (some (cstr "missing")) alter_publication (user 30) switched refl
      missing_role refl

run_as_superuser-runs_example :
    (run_as_superuser demo (some (cstr "admin")) alter_publication (user 30)).1.runs
    ≡ [] ++ (10, alter_publication) ∷ []
run_as_superuser-runs_example =
    run_as_superuser-runs demo demo_config (user 30) 10 alter_publication refl admin_found

vector_privileged :
    (is_extension_privileged demo (cstr "vector") (some (cstr "vector")) (user 30)).0
    ≡ Outcome.ok true
unfolding is_extension_privileged is_extension_available is_string_in_comma_delimited_string
    is_in_split matches_elem strstarts remove_ending_wildcard str_eq split_from ◌>>=◌
vector_privileged = refl

update_succeeds :
    (run_as_superuser demo (some (cstr "admin")) (alter_extension (cstr "vector") []) (user 30)).0
    ≡ Outcome.ok tt
unfolding run_as_superuser switch_to_superuser superuser_oid_of run_process_utility_hook
    run_process_utility_hook_with_cleanup switch_back_unless str_eq ◌>>=◌
update_succeeds = refl

run_alter_extension-twice_example :
    let stmt = alter_extension (cstr "vector") [] in
    let x = run_alter_extension demo demo_config (cstr "vector") [] (user 30) in
    (chain demo demo_config x.0 x.1).1.runs ≡ ([] ++ (10, stmt) ∷ []) ++ (30, stmt) ∷ []
run_alter_extension-twice_example =
    run_alter_extension-twice demo demo_config (user 30) 10 (cstr "vector") [] demo-RestrictedStays
      refl admin_found vector_privileged update_succeeds
