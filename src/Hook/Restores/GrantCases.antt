-- ===== src/Hook/Restores/GrantCases.antt =====
-- Statements on policies, triggers, foreign data wrappers, publications, comments, settings and
-- event triggers keep the role that runs them.
use supautils.Prelude.{Bool, true, false, Option, none, some, List, [], ◌∷◌, ℕ, CString, arith}
use supautils.Statements.{
  Stmt, CommentObject, on_policy, on_extension, on_other, DropObjects, drop_extensions, drop_policy,
  drop_trigger, drop_others,
}
use supautils.Session.Keeps.{
  KeepsSwitched-Keeps, Keeps, Keeps-bind, Keeps-pure, Keeps-gets, Keeps-when, Keeps-break_if,
  keeps_rules, IsStraight, IsStraight-when, straight_rules,
}
use supautils.EventTriggers.{get_function_attrs}
use supautils.Server.{Server}
use supautils.Config.{Config}
use supautils.Grants.{
  PolicyGrants, is_table_listed, is_role_granted, is_current_role_granted_table_policy,
}
use supautils.DropTriggerGrants.{is_current_role_granted_table_drop_trigger}
use supautils.PrivilegedExtensions.{
  is_extension_available, is_extension_privileged, all_in_loop, all_extensions_are_privileged,
}
use supautils.Roles.{AlteredObjType, alt_pub, alter_owner, alter_role_super, command}
use supautils.Roles.Switch.{RestoresRole, with_cleanup-KeepsSwitched, with_cleanup-IsStraight}
use supautils.Roles.Closes.{run_as_superuser-Keeps, Keeps-switch, Closes-bind, Closes-return}
use supautils.Hook.GrantStmts.{
  policy_granted, drop_trigger_granted, run_if_granted, create_policy_stmt, alter_policy_stmt,
  comment_on_policy, drop_granted, drop_stmt,
}
use supautils.Hook.PrivilegedStmts.{
  create_and_give, create_fdw_stmt, create_publication_stmt, alter_publication_stmt, comment_cases,
  comment_stmt, variable_set_stmt, create_event_trig_stmt,
}

module _ (pg : Server) where
  is_table_listed-Keeps :
      (target : ℕ) (l : List (Option CString)) → Keeps (is_table_listed pg target l)
  unfolding is_table_listed
  is_table_listed-Keeps target [] = search keeps_rules
  is_table_listed-Keeps target (none ∷ l) = search keeps_rules
  is_table_listed-Keeps target (some x ∷ l) =
      let rest = is_table_listed-Keeps target l in search keeps_rules depth 20

  is_role_granted-Keeps :
      (target : ℕ) (name : CString) (l : List PolicyGrants)
      → Keeps (is_role_granted pg target name l)
  unfolding is_role_granted
  is_role_granted-Keeps target name [] = search keeps_rules
  is_role_granted-Keeps target name (g ∷ l) =
      let rest = is_role_granted-Keeps target name l in
      search (keeps_rules, is_table_listed-Keeps) depth 20

  granted_policy-Keeps :
      (rv : pg.RangeVar) (pgs : ℕ → PolicyGrants) (n : ℕ)
      → Keeps (is_current_role_granted_table_policy pg rv pgs n)
  unfolding is_current_role_granted_table_policy
  granted_policy-Keeps rv pgs n = search (keeps_rules, is_role_granted-Keeps) depth 20

  is_extension_available-Keeps : (name : CString) → Keeps (is_extension_available pg name)
  unfolding is_extension_available
  is_extension_available-Keeps name = search keeps_rules depth 20

  pub is_extension_privileged-Keeps :
      (name : CString) (l : Option CString) → Keeps (is_extension_privileged pg name l)
  unfolding is_extension_privileged
  is_extension_privileged-Keeps name l = search (keeps_rules, is_extension_available-Keeps)

  all_in_loop-Keeps : (names : List CString) (l : Option CString) → Keeps (all_in_loop pg names l)
  unfolding all_in_loop
  all_in_loop-Keeps [] l = search keeps_rules
  all_in_loop-Keeps (x ∷ names) l =
      let rest = all_in_loop-Keeps names l in search (keeps_rules, is_extension_privileged-Keeps)

  all_extensions-Keeps :
      (names : List CString) (l : Option CString) → Keeps (all_extensions_are_privileged pg names l)
  unfolding all_extensions_are_privileged
  all_extensions-Keeps names none = Keeps-pure false
  all_extensions-Keeps names (some l) = all_in_loop-Keeps names (some l)

  command-Keeps : (f : pg.Db → ℕ → Option pg.Db) → Keeps (command pg f)
  unfolding command
  command-Keeps f = record { at = λ s h. ground arith }

  command-IsStraight : (f : pg.Db → ℕ → Option pg.Db) → IsStraight (command pg f)
  unfolding command
  command-IsStraight f = record { at = λ s. ground arith }

  alter_owner-Keeps :
      (name : CString) (role : ℕ) (t : AlteredObjType) → Keeps (alter_owner pg name role t)
  unfolding alter_owner alter_role_super
  alter_owner-Keeps name role alt_pub = search command-Keeps
  alter_owner-Keeps name role _ = search (keeps_rules, command-Keeps) depth 20

  alter_owner-IsStraight :
      (name : CString) (role : ℕ) (t : AlteredObjType) → IsStraight (alter_owner pg name role t)
  unfolding alter_owner alter_role_super
  alter_owner-IsStraight name role alt_pub = search command-IsStraight
  alter_owner-IsStraight name role _ = search (straight_rules, command-IsStraight) depth 20

module _ (pg : Server) (cfg : Config) where
  policy_granted-Keeps : (table : List CString) → Keeps (policy_granted pg cfg table)
  unfolding policy_granted
  policy_granted-Keeps table = search (keeps_rules, granted_policy-Keeps)

  drop_trigger_granted-Keeps : (table : List CString) → Keeps (drop_trigger_granted pg cfg table)
  unfolding drop_trigger_granted is_current_role_granted_table_drop_trigger
  drop_trigger_granted-Keeps table = search (keeps_rules, granted_policy-Keeps)

  drop_granted-Keeps : (objects : DropObjects) → Keeps (drop_granted pg cfg objects)
  unfolding drop_granted
  drop_granted-Keeps (drop_extensions objects) = all_extensions-Keeps pg objects _
  drop_granted-Keeps (drop_policy object) = policy_granted-Keeps _
  drop_granted-Keeps (drop_trigger object) = drop_trigger_granted-Keeps _
  drop_granted-Keeps drop_others = Keeps-pure false

module _ (pg : Server) (cfg : Config) (restores : RestoresRole pg) where
  run_if_granted-Keeps : (b : Bool) (stmt : Stmt) → Keeps (run_if_granted pg cfg b stmt)
  unfolding run_if_granted
  run_if_granted-Keeps b stmt =
      search (keeps_rules, run_as_superuser-Keeps pg restores.restricted) depth 10

  pub create_policy_stmt-Keeps : (table : List CString) → Keeps (create_policy_stmt pg cfg table)
  unfolding create_policy_stmt
  create_policy_stmt-Keeps table =
      search (keeps_rules, policy_granted-Keeps pg cfg, run_if_granted-Keeps) depth 10

  pub alter_policy_stmt-Keeps : (table : List CString) → Keeps (alter_policy_stmt pg cfg table)
  unfolding alter_policy_stmt
  alter_policy_stmt-Keeps table =
      search (keeps_rules, policy_granted-Keeps pg cfg, run_if_granted-Keeps) depth 10

  pub drop_stmt-Keeps : (objects : DropObjects) → Keeps (drop_stmt pg cfg objects)
  unfolding drop_stmt
  drop_stmt-Keeps objects =
      search (keeps_rules, drop_granted-Keeps pg cfg, run_if_granted-Keeps) depth 10

  create_and_give-Keeps :
      (stmt : Stmt) (give : Bool) (name : CString) (t : AlteredObjType)
      → Keeps (create_and_give pg cfg stmt give name t)
  unfolding create_and_give
  create_and_give-Keeps stmt give name t = Keeps-bind _ _ (Keeps-gets _) λ user.
      Keeps-switch pg cfg.supautils_superuser _ λ already s.
        Closes-bind _ _ (with_cleanup-KeepsSwitched pg restores.restricted stmt already)
          (with_cleanup-IsStraight pg stmt already)
          λ _.
            Closes-bind _ _
              (KeepsSwitched-Keeps _ (Keeps-when give _ (alter_owner-Keeps pg name user t)))
              (IsStraight-when give _ (alter_owner-IsStraight pg name user t))
              λ _. Closes-return already s

  pub create_fdw_stmt-Keeps : (name : CString) → Keeps (create_fdw_stmt pg cfg name)
  unfolding create_fdw_stmt
  create_fdw_stmt-Keeps name = search (keeps_rules, create_and_give-Keeps) depth 10

  pub create_publication_stmt-Keeps : (name : CString) → Keeps (create_publication_stmt pg cfg name)
  unfolding create_publication_stmt
  create_publication_stmt-Keeps name = search (keeps_rules, create_and_give-Keeps) depth 10

  pub alter_publication_stmt-Keeps : Keeps (alter_publication_stmt pg cfg)
  unfolding alter_publication_stmt
  alter_publication_stmt-Keeps =
      search (keeps_rules, run_as_superuser-Keeps pg restores.restricted) depth 20

  comment_cases-Keeps :
      (object : CommentObject) (stmt : Stmt) → Keeps (comment_cases pg cfg object stmt)
  unfolding comment_cases comment_on_policy
  comment_cases-Keeps (on_policy object) stmt =
      search (keeps_rules, policy_granted-Keeps pg cfg, run_if_granted-Keeps) depth 10
  comment_cases-Keeps on_extension stmt =
      search (keeps_rules, run_as_superuser-Keeps pg restores.restricted) depth 20
  comment_cases-Keeps on_other stmt = Keeps-break_if true stmt

  pub comment_stmt-Keeps : (object : CommentObject) → Keeps (comment_stmt pg cfg object)
  unfolding comment_stmt
  comment_stmt-Keeps object = search (keeps_rules, comment_cases-Keeps) depth 20

  pub variable_set_stmt-Keeps : (name : Option CString) → Keeps (variable_set_stmt pg cfg name)
  unfolding variable_set_stmt
  variable_set_stmt-Keeps name =
      search (keeps_rules, run_as_superuser-Keeps pg restores.restricted) depth 30

  pub create_event_trig_stmt-Keeps :
      (name : CString) (function : List CString)
      → Keeps (create_event_trig_stmt pg cfg name function)
  unfolding create_event_trig_stmt get_function_attrs
  create_event_trig_stmt-Keeps name function = search (keeps_rules, create_and_give-Keeps) depth 30
