-- ===== src/FmgrHook/Decision.antt =====
-- Which event triggers still run.
use supautils.Prelude.{
  ◌≡◌, ℕ, Bool, true, false, not, ◌&&◌, Option, none, some, ◌==◌, CString, arith, if◌then◌else◌,
}
use supautils.Session.{Session, Outcome, ◌>>=◌}
use supautils.Server.{Server}
use supautils.Config.{Config}
use supautils.Privileges.{is_reserved_role}
use supautils.EventTriggers.{
  FmgrInfo, force_noop, func_oid_of, get_function_attrs, is_event_trigger_function,
}
use supautils.FmgrHook.{
  fhet_start, Fired, decide, skip_event_trigger, current_role, before_event_trigger, at_start,
  call_next, supautils_fmgr_hook,
}

-- The function that is called then, where there was no error.
abbrev pub called : Outcome Fired → Option FmgrInfo
called (Outcome.ok (flinfo, notices)) = some flinfo
called _ = none

module _ (pg : Server) (cfg : Config) (pgsql_version current_memory_context : ℕ) where
  -- The role that the call counts for.
  abbrev role_of : pg.Db → ℕ → Bool → ℕ
  role_of db user_id true = pg.get_outer_user_id db
  role_of db user_id false = user_id

  -- The trigger must not run: a superuser runs only its own, and a reserved role only a
  -- superuser's.
  abbrev pub must_not_run : pg.Db → (role owner : ℕ) → CString → Bool
  must_not_run db role owner role_name =
      if pg.superuser_arg db role
      then not (pg.superuser_arg db owner && role == owner)
      else is_reserved_role pg cfg role_name false && not (pg.superuser_arg db owner)

  -- The catalogs have the function and the two roles, and the function is an event trigger.
  pub record EventTrigger (s : Session pg.Db) (flinfo : FmgrInfo) (owner : ℕ) (secdef : Bool)
      (role_name owner_name : CString) : Type 0 where
    pub returns_event_trigger : pg.get_func_rettype s.db flinfo.fn_oid ≡ some 3838
    pub attributes : pg.search_proc s.db flinfo.fn_oid ≡ some (owner, secdef)
    pub role_named : pg.get_user_name s.db (role_of s.db s.user_id secdef) ≡ some role_name
    pub owner_named : pg.get_user_name s.db owner ≡ some owner_name

  module _ (s : Session pg.Db) (flinfo : FmgrInfo) (owner : ℕ) (secdef : Bool)
      (role_name owner_name : CString)
      (trigger : EventTrigger s flinfo owner secdef role_name owner_name) where
    -- Before an event trigger function runs, where the catalogs have it, the role and its owner,
    -- and no other hook is installed: the call becomes one of `pgsql_version`, OID 89, without
    -- arguments, expression or state of the function before, exactly if the role is a superuser and
    -- not the owner, or is reserved and no superuser and the owner is no superuser; it is as it was
    -- otherwise, and nothing else changes. The role is the outer user where the function is SECURITY
    -- DEFINER, and the current user where it is not.
    pub supautils_fmgr_hook-start :
        let role = role_of s.db s.user_id secdef in
        let (r, t) =
          supautils_fmgr_hook pg cfg pgsql_version current_memory_context none fhet_start flinfo
            s in
        (t ≡ s)
        × (called r
            ≡ some (
                if must_not_run s.db role owner role_name
                then record {
                  fn_addr = pgsql_version;
                  fn_oid = 89;
                  fn_nargs = 0;
                  fn_strict = false;
                  fn_retset = false;
                  fn_stats = 0;
                  fn_extra = none;
                  fn_mcxt = current_memory_context;
                  fn_expr = none;
                }
                else flinfo))
    unfolding supautils_fmgr_hook call_next at_start before_event_trigger current_role decide
        skip_event_trigger force_noop get_function_attrs func_oid_of is_event_trigger_function ◌>>=◌
    supautils_fmgr_hook-start = (ground arith, ground arith)
