-- ===== src/EventTriggers.antt =====
-- src/event_triggers.c: the attributes of a function, and the change of a call to one that does
-- nothing.
use supautils.Prelude.{ℕ, Bool, false, Option, none, List, CString, ◌==◌}
use supautils.Session.{Action, postgres_error, pure, gets, or_raise, ◌>>=◌}
use supautils.Server.{Server}

-- `FmgrInfo` of Postgres. Addresses, contexts and trees are numbers here, and NULL is `none`.
pub record FmgrInfo : Type 0 where
  pub fn_addr : ℕ
  pub fn_oid : ℕ
  pub fn_nargs : ℕ
  pub fn_strict : Bool
  pub fn_retset : Bool
  pub fn_stats : ℕ
  pub fn_extra : Option ℕ
  pub fn_mcxt : ℕ
  pub fn_expr : Option ℕ

-- `func_search`
pub data FuncSearch : Type 0 where
  fo_search_name : List CString → FuncSearch
  fo_search_finfo : FmgrInfo → FuncSearch

-- `func_attrs`
pub record FuncAttrs : Type 0 where
  pub owner : ℕ
  pub is_security_definer : Bool

-- EVENT_TRIGGEROID of Postgres
abbrev pub event_triggeroid : ℕ
event_triggeroid = 3838

-- `pgsql_version` is the address of that function.
unfoldable pub force_noop : ℕ → ℕ → FmgrInfo → FmgrInfo
force_noop pgsql_version current_memory_context finfo = record {
  fn_addr = pgsql_version;
  fn_oid = 89;
  fn_nargs = 0;
  fn_strict = false;
  fn_retset = false;
  fn_stats = 0;
  fn_extra = none;
  fn_mcxt = current_memory_context;
  fn_expr = none;
}

module _ (pg : Server) where
  open pg use {Db, lookup_func_name, search_proc, get_func_rettype}

  unfoldable pub func_oid_of : FuncSearch → Action Db ℕ
  func_oid_of (fo_search_name funcname) = do
    found ← gets (λ s. lookup_func_name s.db funcname)
    or_raise found postgres_error
  func_oid_of (fo_search_finfo finfo) = pure finfo.fn_oid

  unfoldable pub get_function_attrs : FuncSearch → Action Db FuncAttrs
  unfolding func_oid_of
  get_function_attrs search = do
    func_oid ← func_oid_of search
    proc_tup ← gets (λ s. search_proc s.db func_oid)
    (func_owner, is_secdef) ← or_raise proc_tup postgres_error
    pure (record { owner = func_owner; is_security_definer = is_secdef })

  unfoldable pub is_event_trigger_function : ℕ → Action Db Bool
  is_event_trigger_function foid = do
    found ← gets (λ s. get_func_rettype s.db foid)
    rettype ← or_raise found postgres_error
    pure (rettype == event_triggeroid)
