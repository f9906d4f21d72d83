-- ===== src/Hook/PrivilegedStmts.antt =====
-- The cases of `supautils_hook` in src/supautils.c that let the privileged role run statements of
-- the superuser: foreign data wrappers, publications, comments, settings and event triggers.
use supautils.Prelude.{Bool, true, not, ◌&&◌, Option, List, CString}
use supautils.Statements.{CommentObject, on_policy, on_extension, on_other, Stmt}
use supautils.Statements
use supautils.Session.{
  Action, non_superuser_event_trigger, superuser_event_trigger, gets, break_if, raise_if, when,
  return_from_hook, ◌>>=◌, ◌>>◌,
}
use supautils.Server.{Server}
use supautils.Config.{Config}
use supautils.Roles.{
  switch_to_superuser, switch_back_unless, run_process_utility_hook_with_cleanup, run_as_superuser,
  AlteredObjType, alt_fdw, alt_pub, alt_evtrig, alter_owner,
}
use supautils.Privileges.{superuser, in_transaction, is_current_role_privileged}
use supautils.EventTriggers.{get_function_attrs, fo_search_name}
use supautils.Utils.{is_string_in_comma_delimited_string}
use supautils.Hook.GrantStmts.{comment_on_policy}

module _ (pg : Server) (cfg : Config) where
  open pg use {Db, superuser_arg, split_identifier_string}

  -- The shared end of three cases: the statement runs as the superuser, and the object it made is
  -- given to the user.
  unfoldable pub create_and_give : Stmt → Bool → CString → AlteredObjType → Action Db Unit
  create_and_give stmt give name obj_type = do
    current_user_id ← gets (λ s. s.user_id)
    already_switched ← switch_to_superuser pg cfg.supautils_superuser
    run_process_utility_hook_with_cleanup pg stmt already_switched
    when give (alter_owner pg name current_user_id obj_type)
    switch_back_unless already_switched
    return_from_hook

  -- `if (superuser()) break; if (!is_current_role_privileged()) break;`
  unfoldable pub privileged_only : Stmt → Action Db Unit
  privileged_only stmt = do
    super ← superuser pg
    break_if super stmt
    privileged ← is_current_role_privileged pg cfg
    break_if (not privileged) stmt

  -- CREATE FOREIGN DATA WRAPPER
  unfoldable pub create_fdw_stmt : CString → Action Db Unit
  unfolding privileged_only
  create_fdw_stmt fdwname = do
    privileged_only (Statements.create_fdw fdwname)
    create_and_give (Statements.create_fdw fdwname) true fdwname alt_fdw

  -- CREATE PUBLICATION
  unfoldable pub create_publication_stmt : CString → Action Db Unit
  unfolding privileged_only
  create_publication_stmt pubname = do
    privileged_only (Statements.create_publication pubname)
    create_and_give (Statements.create_publication pubname) true pubname alt_pub

  -- ALTER PUBLICATION
  unfoldable pub alter_publication_stmt : Action Db Unit
  unfolding privileged_only
  alter_publication_stmt = do
    privileged_only Statements.alter_publication
    run_as_superuser pg cfg.supautils_superuser Statements.alter_publication
    return_from_hook

  -- The cases of COMMENT behind its guards.
  unfoldable pub comment_cases : CommentObject → Stmt → Action Db Unit
  comment_cases (on_policy object) stmt = comment_on_policy pg cfg object stmt
  comment_cases on_extension stmt = do
    privileged ← is_current_role_privileged pg cfg
    break_if (not privileged) stmt
    run_as_superuser pg cfg.supautils_superuser stmt
    return_from_hook
  comment_cases on_other stmt = break_if true stmt

  -- COMMENT
  unfoldable pub comment_stmt : CommentObject → Action Db Unit
  comment_stmt objtype =
      let stmt = Statements.comment objtype in
      do
        active ← in_transaction pg
        break_if (not active) stmt
        super ← superuser pg
        break_if super stmt
        comment_cases objtype stmt

  -- SET
  unfoldable pub variable_set_stmt : Option CString → Action Db Unit
  variable_set_stmt setting =
      let stmt = Statements.variable_set setting in
      let allowed =
        is_string_in_comma_delimited_string split_identifier_string setting
          cfg.privileged_role_allowed_configs in
      do
        active ← in_transaction pg
        break_if (not active) stmt
        super ← superuser pg
        break_if super stmt
        break_if (not allowed) stmt
        privileged ← is_current_role_privileged pg cfg
        break_if (not privileged) stmt
        run_as_superuser pg cfg.supautils_superuser stmt
        return_from_hook

  -- CREATE EVENT TRIGGER
  unfoldable pub create_event_trig_stmt : CString → List CString → Action Db Unit
  create_event_trig_stmt trigname funcname =
      let stmt = Statements.create_event_trig trigname funcname in
      do
        active ← in_transaction pg
        break_if (not active) stmt
        privileged ← is_current_role_privileged pg cfg
        break_if (not privileged) stmt
        current_user_is_super ← superuser pg
        fattrs ← get_function_attrs pg (fo_search_name funcname)
        function_is_owned_by_super ← gets (λ s. superuser_arg s.db fattrs.owner)
        raise_if (not current_user_is_super && function_is_owned_by_super)
            non_superuser_event_trigger
        raise_if (current_user_is_super && not function_is_owned_by_super) superuser_event_trigger
        create_and_give stmt (not current_user_is_super) trigname alt_evtrig
