-- ===== src/Privileges.antt =====
-- src/supautils.c: who the current role is, as the hook's guards ask it.
use supautils.Prelude.{ℕ, Bool, false, Option, none, some, CString}
use supautils.Session.{Action, gets}
use supautils.Server.{Server}
use supautils.Config.{Config}
use supautils.Reserved

module _ (pg : Server) where
  open pg use {Db, superuser_arg, get_role_oid, has_privs_of_role, is_transaction_state}

  -- `superuser()`
  abbrev pub superuser : Action Db Bool
  superuser = gets λ s. superuser_arg s.db s.user_id

  abbrev pub in_transaction : Action Db Bool
  in_transaction = gets λ s. is_transaction_state s.db

  -- `OidIsValid(oid) && has_privs_of_role(role, oid)`, for an OID looked up with missing_ok.
  abbrev member_of : Db → ℕ → Option ℕ → Bool
  member_of db role none = false
  member_of db role (some oid) = has_privs_of_role db role oid

  unfoldable pub has_privileged_role : Config → Db → ℕ → Bool
  has_privileged_role cfg db role = elim cfg.privileged_role [
    | none ↦ false
    | some privileged_role ↦ member_of db role (get_role_oid db privileged_role)
  ]

  abbrev pub is_current_role_privileged : Config → Action Db Bool
  is_current_role_privileged cfg = gets λ s. has_privileged_role cfg s.db s.user_id

  -- `role` by name: false where it does not exist.
  unfoldable pub is_role_privileged : Config → CString → Db → Bool
  is_role_privileged cfg role db = elim (get_role_oid db role) [
    | none ↦ false
    | some role_oid ↦ has_privileged_role cfg db role_oid
  ]

  abbrev pub is_reserved_role : Config → CString → Bool → Bool
  is_reserved_role cfg = Reserved.is_reserved_role pg.split_identifier_string cfg.reserved_roles

  abbrev pub confirm_reserved_memberships : Config → CString → Option CString
  confirm_reserved_memberships cfg =
      Reserved.confirm_reserved_memberships pg.split_identifier_string cfg.reserved_memberships
