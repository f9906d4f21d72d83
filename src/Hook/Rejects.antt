-- ===== src/Hook/Rejects.antt =====
-- Statements that change a reserved role are stopped before anything runs.
use supautils.Prelude.{
  ◌≡◌, map, Bool, true, false, Option, none, some, List, All, Any, ◌⊎◌, CString,
}
use supautils.Statements.{
  Stmt, RoleSpec, DefElem, object_role, alter_role, alter_role_set, create_role, drop_role,
  grant_role, rename,
}
use supautils.Session.{Error, reserved_role, Session}
use supautils.Server.{Server}
use supautils.Config.{Config}
use supautils.Privileges.{has_privileged_role, is_reserved_role, confirm_reserved_memberships}
use supautils.Hook.RoleStmts.{is_cstring}

module _ (pg : Server) (cfg : Config) where
  abbrev is_reserved : CString → Bool
  is_reserved name = is_reserved_role pg cfg name false

  -- The statement changes a role whose name is reserved: it alters the role, creates a new one of
  -- this name, renames it or another to it, or drops it, with no role in the list that is given by
  -- a special word such as CURRENT_USER; or it changes the role's settings, or grants it roles or
  -- revokes them, where the role is reserved for this user: for one with the privileged role, the
  -- elements of `reserved_roles` with a wildcard do not count. A role that is granted is none of
  -- the reserved memberships.
  pub data ChangesReserved (s : Session pg.Db) : Stmt → Type 0 where
    altered :
        (role : RoleSpec) (options : List DefElem) (name : CString)
        → pg.get_rolespec_name s.db s.user_id role ≡ some name
        → is_reserved name ≡ true
        → ChangesReserved s (alter_role role options)
    created :
        (name : CString) (options : List DefElem)
        → pg.get_role_oid s.db name ≡ none
        → is_reserved name ≡ true
        → ChangesReserved s (create_role name options)
    renamed :
        (subname newname : CString)
        → (is_reserved subname ≡ true) ⊎ (is_reserved newname ≡ true)
        → ChangesReserved s (rename object_role subname newname)
    dropped :
        (roles : List RoleSpec)
        → All (λ r. is_cstring r.roletype ≡ true) roles
        → Any (λ r. is_reserved r.rolename ≡ true) roles
        → ChangesReserved s (drop_role roles)
    configured :
        (role : RoleSpec) (setting : Option CString) (name : CString)
        → pg.get_rolespec_name s.db s.user_id role ≡ some name
        → is_reserved_role pg cfg name (has_privileged_role pg cfg s.db s.user_id) ≡ true
        → ChangesReserved s (alter_role_set (some role) setting)
    granted_to :
        (is_grant : Bool) (granted : List CString) (grantees : List RoleSpec) (names : List CString)
        → (is_grant ≡ true → All (λ g. confirm_reserved_memberships pg cfg g ≡ none) granted)
        → map (λ r. pg.get_rolespec_name s.db s.user_id r) grantees ≡ map some names
        → Any
            (λ name.
              is_reserved_role pg cfg name (has_privileged_role pg cfg s.db s.user_id) ≡ true)
            names
        → ChangesReserved s (grant_role is_grant granted grantees)

  -- Nothing ran and nothing changed; the error names a reserved role.
  pub data Stopped (s : Session pg.Db) (x : Option Error × Session pg.Db) : Type 0 where
    stopped :
        (name : CString) (configurable : Bool)
        → is_reserved_role pg cfg name configurable ≡ true
        → x ≡ (some (reserved_role name), s)
        → Stopped s x
