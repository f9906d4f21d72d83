-- ===== src/PermissionHints/Executor.antt =====
-- src/supautils.c: the ExecutorStart hook, which adds a hint to the error of a query that lacked a
-- privilege.
use supautils.Prelude.{
  ℕ, ◌&&◌, not, Bool, true, false, Option, [], none, some, ◌++◌, ◌==◌, is_nil, CString, cstr,
  if◌then◌else◌,
}
use supautils.Session.{Session}
use supautils.Server.{Server}
use supautils.Reserved.{is_hint_role}
use supautils.PermissionHints.{
  PlannedStmt, MissingPerm, Privileges, has_acl, build_privileges_string, find_missing_perm,
}

-- ERRCODE_INSUFFICIENT_PRIVILEGE, and the other error codes.
pub data Sqlerrcode : Type 0 where
  insufficient_privilege : Sqlerrcode
  other_errcode : ℕ → Sqlerrcode

-- `ErrorData`; `Rest` stands for the members that the code does not touch.
pub record ErrorData (Rest : Type 0) : Type 0 where
  pub sqlerrcode : Sqlerrcode
  pub hint : Option CString
  pub rest : Rest

abbrev pub lacks_privilege : Sqlerrcode → Bool
lacks_privilege insufficient_privilege = true
lacks_privilege (other_errcode n) = false

-- What the hook calls of Postgres, at the catalogs `Db`. NULL is `none`.
pub record HintServer (Db Rest : Type 0) : Type 0 where
  pub privileges : Db → Privileges
  pub get_rel_namespace : Db → ℕ → ℕ
  pub get_namespace_name : Db → ℕ → Option CString
  pub get_rel_name : Db → ℕ → Option CString
  pub quote_qualified_identifier : Option CString → CString → CString
  -- the error of `GetUserNameFromId(oid, false)` for a role that is missing
  pub role_missing : ErrorData Rest

-- The text of the hint.
unfoldable pub hint_text : CString → CString → CString → CString
hint_text privileges relation role =
    cstr "Grant the required privileges to the current role with: GRANT "
    ++ (privileges ++ (cstr " ON " ++ (relation ++ (cstr " TO " ++ (role ++ cstr ";")))))

-- None of ACL_TRUNCATE, ACL_REFERENCES and ACL_TRIGGER.
unfoldable pub no_other_acl : ℕ → Bool
no_other_acl acl = not (has_acl acl 16) && not (has_acl acl 32) && not (has_acl acl 64)

module _ {Rest : Type 0} (pg : Server) (h : HintServer pg.Db Rest) where
  open pg use {Db, get_user_name, split_identifier_string, pg_version_num}
  open h use {
    privileges, get_rel_namespace, get_namespace_name, get_rel_name, quote_qualified_identifier,
    role_missing,
  }

  abbrev pub Executor : Type 0
  Executor = PlannedStmt → ℕ → Session Db → Option (ErrorData Rest) × Session Db

  -- `edata` with the hint, where the role and the relation have names.
  unfoldable pub hint_for :
      ErrorData Rest
      → ℕ
      → CString
      → Option CString
      → Option CString
      → Option CString
      → ErrorData Rest
  unfolding hint_text
  hint_for edata role privileges_str schema none username = edata
  hint_for edata role privileges_str schema (some relname) none = role_missing
  hint_for edata role privileges_str schema (some relname) (some username) = record edata {
    hint = some (
        hint_text privileges_str (quote_qualified_identifier schema relname)
          (quote_qualified_identifier none username));
  }

  -- The hint for a privilege that is missing.
  unfoldable pub hint_missing : ErrorData Rest → ℕ → MissingPerm → Db → ErrorData Rest
  unfolding no_other_acl hint_for
  hint_missing edata role missing db =
      let privileges_str = build_privileges_string [] missing.acl in
      if not (missing.acl == 0)
        && not (missing.relid == 0)
        && no_other_acl missing.acl
        && not (is_nil privileges_str)
      then hint_for edata role privileges_str
          (get_namespace_name db (get_rel_namespace db missing.relid))
          (get_rel_name db missing.relid) (get_user_name db role)
      else edata

  -- PG_CATCH, in the state that the error left: the error that is thrown again.
  unfoldable pub catch_error : PlannedStmt → ErrorData Rest → Session Db → ErrorData Rest
  unfolding hint_missing
  catch_error plannedstmt edata s =
      if lacks_privilege edata.sqlerrcode
      then hint_missing edata s.user_id
          (find_missing_perm (privileges s.db) pg_version_num plannedstmt s.user_id) s.db
      else edata

  -- PG_CATCH behind what PG_TRY has run.
  unfoldable pub rethrow :
      PlannedStmt → Option (ErrorData Rest) → Session Db → Option (ErrorData Rest) × Session Db
  unfolding catch_error
  rethrow plannedstmt none s = (none, s)
  rethrow plannedstmt (some edata) s = (some (catch_error plannedstmt edata s), s)

  unfoldable pub try_start : Executor → Executor
  unfolding rethrow
  try_start next plannedstmt eflags s =
      let (e, t) = next plannedstmt eflags s in rethrow plannedstmt e t

  -- The role's name has been looked up.
  unfoldable pub start_as : Option CString → Option CString → Executor → Executor
  unfolding try_start
  start_as hint_roles none next plannedstmt eflags s = (some role_missing, s)
  start_as hint_roles (some name) next plannedstmt eflags s =
      if not (is_hint_role split_identifier_string hint_roles (some name))
      then next plannedstmt eflags s
      else try_start next plannedstmt eflags s

  -- `next` is the hook that was installed before, or `standard_ExecutorStart`; `hint_roles` is the
  -- setting.
  unfoldable pub supautils_executor_start : Option CString → Executor → Executor
  unfolding start_as
  supautils_executor_start hint_roles next plannedstmt eflags s =
      start_as hint_roles (get_user_name s.db s.user_id) next plannedstmt eflags s
