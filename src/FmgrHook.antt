-- ===== src/FmgrHook.antt =====
-- src/supautils.c: the fmgr hook, which Postgres calls around a function that the needs hook has
-- picked. It makes event triggers that must not run for a role do nothing.
pub mod Decision
use supautils.Prelude.{
  ℕ, Bool, true, false, not, Option, none, some, List, [], ◌∷◌, ◌==◌, CString, if◌then◌else◌,
}
use supautils.Session.{Action, postgres_error, pure, raise, gets, or_raise, ◌>>=◌, ◌>>◌}
use supautils.Server.{Server}
use supautils.Config.{Config}
use supautils.Privileges.{is_reserved_role}
use supautils.EventTriggers.{
  FmgrInfo, FuncAttrs, force_noop, fo_search_finfo, get_function_attrs, is_event_trigger_function,
}

-- `FmgrHookEventType`; `fhet_other` is any other number.
pub data FmgrHookEventType : Type 0 where
  fhet_start fhet_end fhet_abort : FmgrHookEventType
  fhet_other : ℕ → FmgrHookEventType

-- The two texts that the notice gives for the role, and the three that it gives for the function.
pub data RoleDescriptor : Type 0 where
  a_superuser a_reserved_role : RoleDescriptor

pub data FunctionCondition : Type 0 where
  is_not_superuser_owned is_not_owned_by_same_role : FunctionCondition

pub record Notice : Type 0 where
  pub func_name : Option CString
  pub current_role_name : CString
  pub role_descriptor : RoleDescriptor
  pub function_condition : FunctionCondition
  pub owner_name : CString

-- What the hook has made of the call, with the notices that it has reported.
abbrev pub Fired : Type 0
Fired = FmgrInfo × List Notice

-- `pgsql_version` and `current_memory_context` are what `force_noop` writes, `next` is the hook that
-- was installed before, if there was one.
module _ (pg : Server) (cfg : Config) (pgsql_version current_memory_context : ℕ) where
  open pg use {Db, superuser_arg, get_user_name, get_func_name, get_outer_user_id}

  unfoldable pub supautils_needs_fmgr_hook : Option (ℕ → Bool) → ℕ → Action Db Bool
  supautils_needs_fmgr_hook none function_id = is_event_trigger_function pg function_id
  supautils_needs_fmgr_hook (some next_needs) function_id =
      if next_needs function_id then pure true else is_event_trigger_function pg function_id

  unfoldable pub skip_event_trigger : FmgrInfo → Notice → Fired
  skip_event_trigger flinfo notice = (
    force_noop pgsql_version current_memory_context flinfo,
    if cfg.log_skipped_evtrigs then notice ∷ [] else [],
  )

  -- The role that the call counts for: the outer user, where the function is SECURITY DEFINER.
  unfoldable pub current_role : FuncAttrs → Action Db ℕ
  current_role fattrs =
      if fattrs.is_security_definer
      then gets (λ s. get_outer_user_id s.db)
      else gets (λ s. s.user_id)

  -- The tests on the role and on the owner of the function.
  unfoldable pub decide :
      Bool → Bool → Bool → Bool → FmgrInfo → (RoleDescriptor → FunctionCondition → Notice) → Fired
  unfolding skip_event_trigger
  decide role_is_super role_is_reserved owned_by_super is_owner flinfo notice =
      if role_is_super
      then if not owned_by_super
        then skip_event_trigger flinfo (notice a_superuser is_not_superuser_owned)
        else if not is_owner
        then skip_event_trigger flinfo (notice a_superuser is_not_owned_by_same_role)
        else (flinfo, [])
      else if role_is_reserved
      then if not owned_by_super
        then skip_event_trigger flinfo (notice a_reserved_role is_not_superuser_owned)
        else (flinfo, [])
      else (flinfo, [])

  -- The case FHET_START, for an event trigger function.
  unfoldable pub before_event_trigger : FmgrInfo → Action Db Fired
  unfolding current_role decide
  before_event_trigger flinfo = do
    fattrs ← get_function_attrs pg (fo_search_finfo flinfo)
    current_role_oid ← current_role fattrs
    name ← gets (λ s. get_user_name s.db current_role_oid)
    current_role_name ← or_raise name postgres_error
    role_is_super ← gets (λ s. superuser_arg s.db current_role_oid)
    function_is_owned_by_super ← gets (λ s. superuser_arg s.db fattrs.owner)
    func_name ← gets (λ s. get_func_name s.db flinfo.fn_oid)
    owner_name ← gets (λ s. get_user_name s.db fattrs.owner)
    function_owner_name ← or_raise owner_name postgres_error
    pure (
        decide role_is_super (is_reserved_role pg cfg current_role_name false)
          function_is_owned_by_super (current_role_oid == fattrs.owner) flinfo
          λ descriptor condition. record {
            func_name = func_name;
            current_role_name = current_role_name;
            role_descriptor = descriptor;
            function_condition = condition;
            owner_name = function_owner_name;
          })

  unfoldable pub at_start : FmgrInfo → Action Db Fired
  unfolding before_event_trigger
  at_start flinfo = do
    event_trigger ← is_event_trigger_function pg flinfo.fn_oid
    if event_trigger then before_event_trigger flinfo else pure (flinfo, [])

  -- `if (next_fmgr_hook) (*next_fmgr_hook)(event, flinfo, private);`
  abbrev NextHook : Type 0
  NextHook = Option (FmgrHookEventType → FmgrInfo → Action Db FmgrInfo)

  unfoldable pub call_next : NextHook → FmgrHookEventType → Fired → Action Db Fired
  call_next none event fired = pure fired
  call_next (some next) event (flinfo, notices) = do
    flinfo' ← next event flinfo
    pure (flinfo', notices)

  unfoldable pub supautils_fmgr_hook : NextHook → FmgrHookEventType → FmgrInfo → Action Db Fired
  unfolding call_next
  supautils_fmgr_hook next fhet_start flinfo = do
    fired ← at_start flinfo
    call_next next fhet_start fired
  supautils_fmgr_hook next fhet_end flinfo = call_next next fhet_end (flinfo, [])
  supautils_fmgr_hook next fhet_abort flinfo = call_next next fhet_abort (flinfo, [])
  supautils_fmgr_hook next (fhet_other n) flinfo = raise postgres_error
