-- ===== src/DropTriggerGrants.antt =====
-- src/drop_trigger_grants.c: the tables whose triggers a role may drop though it does not own
-- them. The file is that of the policy grants with other names (`dtg` for `pg`, `JDTG` for `JPG`),
-- so its definitions are those of Grants.antt.
use supautils.Prelude.{ℕ, Bool, Option, CString}
use supautils.Json.{Reading}
use supautils.Session.{Action}
use supautils.Server.{Server}
use supautils.Grants
use supautils.Grants.{PolicyGrants}
use supautils.Grants.Parser.{ErrorMsg, ParseState, parse_policy_grants}
use supautils.Grants.Setting.{GrantsSetting, policy_grants_check_hook}

abbrev pub DropTriggerGrants : Type 0
DropTriggerGrants = PolicyGrants

module _ (pg : Server) where
  open pg use {Db, RangeVar}

  unfoldable pub is_current_role_granted_table_drop_trigger :
      RangeVar → (ℕ → DropTriggerGrants) → ℕ → Action Db Bool
  is_current_role_granted_table_drop_trigger = Grants.is_current_role_granted_table_policy pg

unfoldable pub parse_drop_trigger_grants :
    (CString → Reading) → CString → (ℕ → DropTriggerGrants) → ParseState
parse_drop_trigger_grants = parse_policy_grants

unfoldable pub drop_trigger_grants_check_hook :
    (CString → Reading) → Option CString → GrantsSetting → Option ErrorMsg × GrantsSetting
drop_trigger_grants_check_hook = policy_grants_check_hook
