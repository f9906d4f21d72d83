-- ===== src/Hook/Escalation/Quiet.antt =====
-- The cases of the hook that run nothing and keep the state.
use supautils.Prelude.{
  ◌≡◌, refl, ◌∙◌, Bool, true, false, Option, none, some, List, [], ◌∷◌, cstr, CString, arith,
}
use supautils.Statements.{RoleSpec, DefElem, Stmt}
use supautils.Session.{Session, Outcome, Action, continue, ◌>>=◌}
use supautils.Session.Reads.{Reads}
use supautils.Server.{Server}
use supautils.Config.{Config}
use supautils.Privileges.{has_privileged_role}
use supautils.EventTriggers.{get_function_attrs, func_oid_of}
use supautils.Hook.Escalation.Permits.{
  allows, names_option, may_set, may_set_for, may_alter_role, may_create_trigger,
}
use supautils.Hook.RoleStmts.{has_option, alter_role_stmt, alter_role_set_stmt}
use supautils.Hook.GrantStmts.{run_if_granted}
use supautils.Hook.PrivilegedStmts.{
  create_fdw_stmt, create_publication_stmt, alter_publication_stmt, variable_set_stmt,
  create_event_trig_stmt, privileged_only,
}

has_option-names_option :
    (name : CString) (l : List DefElem) → has_option name l ≡ names_option name l
unfolding has_option
has_option-names_option name [] = refl
has_option-names_option name (d ∷ l) = ground (arith, has_option-names_option name l)

module _ (pg : Server) (cfg : Config) where
  open pg use {Db}

  continue_quiet :
      (r : Outcome Bool) (stmt : Stmt) (t : Session Db)
      → allows r ≡ false
      → (continue r (λ g. run_if_granted pg cfg g stmt) t).1 ≡ t
  unfolding run_if_granted ◌>>=◌
  continue_quiet (Outcome.ok true) stmt t h = ground arith
  continue_quiet (Outcome.ok false) stmt t h = refl
  continue_quiet (Outcome.broke _) stmt t h = refl
  continue_quiet Outcome.returned stmt t h = refl
  continue_quiet (Outcome.raised e) stmt t h = refl

  pub run_if_granted-quiet :
      (m : Action Db Bool) (stmt : Stmt) (s : Session Db)
      → Reads m
      → allows (m s).0 ≡ false
      → ((m >>= λ g. run_if_granted pg cfg g stmt) s).1 ≡ s
  unfolding ◌>>=◌
  run_if_granted-quiet m stmt s k h = continue_quiet (m s).0 stmt (m s).1 h ∙ k.at s

  module _ (s : Session Db) (h : has_privileged_role pg cfg s.db s.user_id ≡ false) where
    pub alter_publication-quiet : (alter_publication_stmt pg cfg s).1 ≡ s
    unfolding alter_publication_stmt privileged_only ◌>>=◌
    alter_publication-quiet = ground arith

    pub create_fdw-quiet : (name : CString) → (create_fdw_stmt pg cfg name s).1 ≡ s
    unfolding create_fdw_stmt privileged_only ◌>>=◌
    create_fdw-quiet name = ground arith

    pub create_publication-quiet : (name : CString) → (create_publication_stmt pg cfg name s).1 ≡ s
    unfolding create_publication_stmt privileged_only ◌>>=◌
    create_publication-quiet name = ground arith

  module _ (s : Session Db) where
    pub variable_set-quiet :
        (setting : Option CString)
        → may_set pg cfg setting s ≡ false
        → (variable_set_stmt pg cfg setting s).1 ≡ s
    unfolding variable_set_stmt may_set ◌>>=◌
    variable_set-quiet setting h = ground arith

    pub create_event_trig-quiet :
        (a : CString) (b : List CString)
        → may_create_trigger pg cfg b s ≡ false
        → (create_event_trig_stmt pg cfg a b s).1 ≡ s
    unfolding create_event_trig_stmt may_create_trigger get_function_attrs func_oid_of ◌>>=◌
    create_event_trig-quiet a b h = ground arith

    pub alter_role-quiet :
        (role : RoleSpec) (options : List DefElem)
        → may_alter_role pg cfg role options s ≡ false
        → (alter_role_stmt pg cfg role options s).1 ≡ s
    unfolding alter_role_stmt may_alter_role ◌>>=◌
    alter_role-quiet role options h =
        ground (arith, has_option-names_option (cstr "superuser") options)

    pub alter_role_set-quiet :
        (role : Option RoleSpec) (setting : Option CString)
        → may_set_for pg cfg role setting s ≡ false
        → (alter_role_set_stmt pg cfg role setting s).1 ≡ s
    unfolding alter_role_set_stmt may_set_for ◌>>=◌
    alter_role_set-quiet none setting h = ground arith
    alter_role_set-quiet (some role) setting h = ground arith
