-- ===== src/Hook/Escalation/Guards.antt =====
-- The guards and loops of the hook only read.
use supautils.Prelude.{ℕ, Bool, Option, none, some, List, [], ◌∷◌, CString}
use supautils.Statements.{
  RoleSpec, DefElem, ObjectType, object_role, object_extension, DropObjects, drop_extensions,
  drop_policy, drop_trigger, drop_others,
}
use supautils.Session.Reads.{Reads, Reads-pure, reads_rules}
use supautils.Server.{Server}
use supautils.Config.{Config}
use supautils.Grants.{
  PolicyGrants, is_table_listed, is_role_granted, is_current_role_granted_table_policy,
}
use supautils.DropTriggerGrants.{is_current_role_granted_table_drop_trigger}
use supautils.PrivilegedExtensions.{
  is_extension_available, is_extension_privileged, all_in_loop, all_extensions_are_privileged,
}
use supautils.Hook.RoleStmts.{
  rolespec_name, gather_options, Memberships, confirm, confirm_specs, confirm_names, check_grantees,
  grant_role_checks, rename_checks,
}
use supautils.Hook.GrantStmts.{policy_granted, drop_trigger_granted, drop_granted}
use supautils.Hook.ExtensionStmts.{is_privileged_object}

module _ (pg : Server) where
  pub table_listed-Reads :
      (target : ℕ) (l : List (Option CString)) → Reads (is_table_listed pg target l)
  unfolding is_table_listed
  table_listed-Reads target [] = search reads_rules
  table_listed-Reads target (none ∷ l) = search reads_rules
  table_listed-Reads target (some x ∷ l) =
      let rest = table_listed-Reads target l in search reads_rules depth 20

  pub role_granted-Reads :
      (target : ℕ) (name : CString) (l : List PolicyGrants)
      → Reads (is_role_granted pg target name l)
  unfolding is_role_granted
  role_granted-Reads target name [] = search reads_rules
  role_granted-Reads target name (g ∷ l) =
      let rest = role_granted-Reads target name l in
      search (reads_rules, table_listed-Reads) depth 20

  granted_policy-Reads :
      (rv : pg.RangeVar) (pgs : ℕ → PolicyGrants) (n : ℕ)
      → Reads (is_current_role_granted_table_policy pg rv pgs n)
  unfolding is_current_role_granted_table_policy
  granted_policy-Reads rv pgs n = search (reads_rules, role_granted-Reads) depth 20

  pub is_extension_privileged-Reads :
      (name : CString) (l : Option CString) → Reads (is_extension_privileged pg name l)
  unfolding is_extension_privileged is_extension_available
  is_extension_privileged-Reads name l = search reads_rules depth 20

  all_in_loop-Reads : (names : List CString) (l : Option CString) → Reads (all_in_loop pg names l)
  unfolding all_in_loop
  all_in_loop-Reads [] l = search reads_rules
  all_in_loop-Reads (x ∷ names) l =
      let rest = all_in_loop-Reads names l in
      search (reads_rules, is_extension_privileged-Reads) depth 10

  all_extensions-Reads :
      (names : List CString) (l : Option CString) → Reads (all_extensions_are_privileged pg names l)
  unfolding all_extensions_are_privileged
  all_extensions-Reads names none = Reads-pure _
  all_extensions-Reads names (some l) = all_in_loop-Reads names (some l)

module _ (pg : Server) (cfg : Config) where
  pub policy_granted-Reads : (table : List CString) → Reads (policy_granted pg cfg table)
  unfolding policy_granted
  policy_granted-Reads table = search (reads_rules, granted_policy-Reads pg)

  trigger_granted-Reads : (table : List CString) → Reads (drop_trigger_granted pg cfg table)
  unfolding drop_trigger_granted is_current_role_granted_table_drop_trigger
  trigger_granted-Reads table = search (reads_rules, granted_policy-Reads pg)

  pub drop_granted-Reads : (objects : DropObjects) → Reads (drop_granted pg cfg objects)
  unfolding drop_granted
  drop_granted-Reads (drop_extensions objects) = all_extensions-Reads pg objects _
  drop_granted-Reads (drop_policy object) = policy_granted-Reads _
  drop_granted-Reads (drop_trigger object) = trigger_granted-Reads _
  drop_granted-Reads drop_others = Reads-pure _

  pub is_privileged_object-Reads :
      (t : ObjectType) (name : CString) → Reads (is_privileged_object pg cfg t name)
  unfolding is_privileged_object
  is_privileged_object-Reads object_extension name = is_extension_privileged-Reads pg name _
  is_privileged_object-Reads _ name = Reads-pure _

  rolespec_name-Reads : (role : RoleSpec) → Reads (rolespec_name pg cfg role)
  unfolding rolespec_name
  rolespec_name-Reads role = search reads_rules

  pub gather_options-Reads :
      (options : List DefElem) (m : Memberships) → Reads (gather_options pg cfg options m)
  unfolding gather_options
  gather_options-Reads [] m = search reads_rules
  gather_options-Reads (d ∷ options) m = search (reads_rules, gather_options-Reads options) depth 10

  pub confirm-Reads : (target : CString) → Reads (confirm pg cfg target)
  unfolding confirm
  confirm-Reads target = search reads_rules

  pub confirm_specs-Reads : (l : List RoleSpec) → Reads (confirm_specs pg cfg l)
  unfolding confirm_specs
  confirm_specs-Reads [] = search reads_rules
  confirm_specs-Reads (r ∷ l) =
      let rest = confirm_specs-Reads l in
      search (reads_rules, rolespec_name-Reads, confirm-Reads) depth 10

  confirm_names-Reads : (l : List CString) → Reads (confirm_names pg cfg l)
  unfolding confirm_names
  confirm_names-Reads [] = search reads_rules
  confirm_names-Reads (x ∷ l) =
      let rest = confirm_names-Reads l in search (reads_rules, confirm-Reads) depth 10

  check_grantees-Reads : (b : Bool) (l : List RoleSpec) → Reads (check_grantees pg cfg b l)
  unfolding check_grantees
  check_grantees-Reads b [] = search reads_rules
  check_grantees-Reads b (x ∷ l) =
      let rest = check_grantees-Reads b l in search (reads_rules, rolespec_name-Reads) depth 10

  pub grant_role_checks-Reads :
      (b : Bool) (granted : List CString) (grantees : List RoleSpec)
      → Reads (grant_role_checks pg cfg b granted grantees)
  unfolding grant_role_checks
  grant_role_checks-Reads b granted grantees =
      search (reads_rules, confirm_names-Reads, check_grantees-Reads) depth 10

  pub rename_checks-Reads : (t : ObjectType) (a b : CString) → Reads (rename_checks pg cfg t a b)
  unfolding rename_checks
  rename_checks-Reads object_role a b = search reads_rules
  rename_checks-Reads _ a b = search reads_rules
