-- ===== src/Hook/GrantStmts.antt =====
-- The cases of `supautils_hook` in src/supautils.c for policies, for triggers and for dropping
-- extensions.
use supautils.Prelude.{Bool, false, not, List, [], ◌∷◌, CString}
use supautils.Statements.{
  DropObjects, drop_extensions, drop_policy, drop_trigger, drop_others, Stmt,
}
use supautils.Statements
use supautils.Session.{
  Action, postgres_error, pure, or_raise, break_if, return_from_hook, ◌>>=◌, ◌>>◌,
}
use supautils.Server.{Server}
use supautils.Config.{Config}
use supautils.Roles.{run_as_superuser}
use supautils.Privileges.{superuser}
use supautils.PrivilegedExtensions.{all_extensions_are_privileged}
use supautils.Grants.{is_current_role_granted_table_policy}
use supautils.DropTriggerGrants.{is_current_role_granted_table_drop_trigger}

-- `list_truncate(list_copy(object), list_length(object) - 1)`: all but the last element
unfoldable pub all_but_last : List CString → List CString
all_but_last [] = []
all_but_last (x ∷ []) = []
all_but_last (x ∷ y ∷ xs) = x ∷ all_but_last (y ∷ xs)

module _ (pg : Server) (cfg : Config) where
  open pg use {Db, RangeVar, make_range_var}

  -- The table of a statement, and the question whether the role may manage its policies.
  unfoldable pub policy_granted : List CString → Action Db Bool
  policy_granted table = do
    table_range_var ← or_raise (make_range_var table) postgres_error
    is_current_role_granted_table_policy pg table_range_var cfg.pgs cfg.total_pgs

  unfoldable pub drop_trigger_granted : List CString → Action Db Bool
  drop_trigger_granted table = do
    table_range_var ← or_raise (make_range_var table) postgres_error
    is_current_role_granted_table_drop_trigger pg table_range_var cfg.dtgs cfg.total_dtgs

  -- The shared end of the cases: without the grant `break`, with it run as the superuser.
  unfoldable pub run_if_granted : Bool → Stmt → Action Db Unit
  run_if_granted granted stmt = do
    break_if (not granted) stmt
    run_as_superuser pg cfg.supautils_superuser stmt
    return_from_hook

  -- CREATE POLICY and ALTER POLICY
  unfoldable pub create_policy_stmt : List CString → Action Db Unit
  create_policy_stmt table = do
    super ← superuser pg
    break_if super (Statements.create_policy table)
    granted ← policy_granted table
    run_if_granted granted (Statements.create_policy table)

  unfoldable pub alter_policy_stmt : List CString → Action Db Unit
  alter_policy_stmt table = do
    super ← superuser pg
    break_if super (Statements.alter_policy table)
    granted ← policy_granted table
    run_if_granted granted (Statements.alter_policy table)

  -- COMMENT ON POLICY, behind the guards of COMMENT
  unfoldable pub comment_on_policy : List CString → Stmt → Action Db Unit
  comment_on_policy object stmt = do
    granted ← policy_granted (all_but_last object)
    run_if_granted granted stmt

  -- The inner `switch` of DROP.
  unfoldable pub drop_granted : DropObjects → Action Db Bool
  drop_granted (drop_extensions objects) =
      all_extensions_are_privileged pg objects cfg.privileged_extensions
  drop_granted (drop_policy object) = policy_granted (all_but_last object)
  drop_granted (drop_trigger object) = drop_trigger_granted (all_but_last object)
  drop_granted drop_others = pure false

  -- DROP EXTENSION, DROP POLICY, DROP TRIGGER
  unfoldable pub drop_stmt : DropObjects → Action Db Unit
  drop_stmt objects = do
    super ← superuser pg
    break_if super (Statements.drop objects)
    granted ← drop_granted objects
    run_if_granted granted (Statements.drop objects)
