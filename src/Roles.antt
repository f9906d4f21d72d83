-- ===== src/Roles.antt =====
-- src/utils.c: switching to the superuser and back, and changing the owner of an object; and the
-- two macros of src/pg_prelude.h that hand a statement on.
pub mod Switch
pub mod Closes
use Prim.Native.Nat.{bit_or}
use supautils.Prelude.{
  ℕ, Bool, true, false, Option, none, some, List, [], ◌∷◌, ◌++◌, if◌then◌else◌, CString,
}
use supautils.Statements.{Stmt}
use supautils.Session.{
  Error, Session, Outcome, Action, Call, postgres_error, pure, raise, gets, or_raise, check, call,
  ◌>>=◌, ◌>>◌,
}
use supautils.Server.{Server}

-- BOOTSTRAP_SUPERUSERID, SECURITY_LOCAL_USERID_CHANGE and SECURITY_RESTRICTED_OPERATION of Postgres
abbrev pub bootstrap_superuserid : ℕ
bootstrap_superuserid = 10

abbrev pub security_local_userid_change : ℕ
security_local_userid_change = 1

abbrev pub security_restricted_operation : ℕ
security_restricted_operation = 2

abbrev pub restricted : ℕ → ℕ
restricted sec_context =
    bit_or (bit_or sec_context security_local_userid_change) security_restricted_operation

-- `altered_obj_type`
pub data AlteredObjType : Type 0 where
  alt_fdw alt_pub alt_evtrig : AlteredObjType

module _ {Db : Type 0} where
  abbrev set_switched : Bool → Action Db Unit
  set_switched b s = (Outcome.ok tt, record s { is_switched_to_superuser = b })

  -- `GetUserIdAndSecContext` into the saved role, then `SetUserIdAndSecContext`.
  abbrev save_and_become : ℕ → Action Db Unit
  save_and_become superuser_oid s = (
    Outcome.ok tt,
    record s {
      prev_role_oid = s.user_id;
      prev_role_sec_context = s.sec_context;
      user_id = superuser_oid;
      sec_context = restricted s.sec_context;
    },
  )

  unfoldable pub switch_to_original_role : Action Db Unit
  switch_to_original_role s = (
    Outcome.ok tt,
    record s {
      user_id = s.prev_role_oid;
      sec_context = s.prev_role_sec_context;
      is_switched_to_superuser = false;
    },
  )

  -- `if (!already_switched) switch_to_original_role();`
  unfoldable pub switch_back_unless : Bool → Action Db Unit
  unfolding switch_to_original_role pure
  switch_back_unless true = pure tt
  switch_back_unless false = switch_to_original_role

module _ (pg : Server) where
  open pg use {Db, get_role_oid, get_user_name, process_utility, alter_role_superuser}
  open pg use {alter_fdw_owner, alter_publication_owner, alter_event_trigger_owner}

  -- The superuser to switch to: the one that the setting names, or the bootstrap superuser.
  unfoldable pub superuser_oid_of : Option CString → Action Db ℕ
  superuser_oid_of none = pure bootstrap_superuserid
  superuser_oid_of (some supauser) = do
    oid ← gets (λ s. get_role_oid s.db supauser)
    or_raise oid postgres_error

  -- The result is `*already_switched`. The flag is set before the role is looked up.
  unfoldable pub switch_to_superuser : Option CString → Action Db Bool
  unfolding superuser_oid_of
  switch_to_superuser supauser = do
    already_switched ← gets (λ s. s.is_switched_to_superuser)
    if already_switched then pure true else do
      set_switched true
      superuser_oid ← superuser_oid_of supauser
      save_and_become superuser_oid
      pure false

  -- The macro `run_process_utility_hook`. What the statement's own nested statements run is not
  -- listed with this hook's.
  unfoldable pub run_process_utility_hook : Stmt → Action Db Unit
  run_process_utility_hook stmt s =
      let (e, s') = process_utility stmt s in
      check e (record s' { runs = s.runs ++ (s.user_id, stmt) ∷ [] })

  -- `PG_CATCH`: the role is switched back and the error raised again.
  abbrev cleanup : Bool → Outcome Unit → Action Db Unit
  cleanup already_switched (Outcome.raised e) s =
      (Outcome.raised e, (switch_back_unless already_switched s).1)
  cleanup already_switched r s = (r, s)

  -- The macro `run_process_utility_hook_with_cleanup`.
  unfoldable pub run_process_utility_hook_with_cleanup : Stmt → Bool → Action Db Unit
  run_process_utility_hook_with_cleanup stmt already_switched s =
      let (r, s') = run_process_utility_hook stmt s in cleanup already_switched r s'

  -- The three steps that the hook's cases repeat: switch, run the statement, switch back.
  unfoldable pub run_as_superuser : Option CString → Stmt → Action Db Unit
  run_as_superuser supauser stmt = do
    already_switched ← switch_to_superuser supauser
    run_process_utility_hook_with_cleanup stmt already_switched
    switch_back_unless already_switched

  -- A Postgres command that changes the catalogs, as the current user, and the
  -- `CommandCounterIncrement` behind it.
  unfoldable pub command : (Db → ℕ → Option Db) → Action Db Unit
  command f s = elim (f s.db s.user_id) [
    | none ↦ (Outcome.raised postgres_error, s)
    | some db' ↦ (Outcome.ok tt, record s { db = db' })
  ]

  unfoldable pub alter_role_super : CString → Bool → Action Db Unit
  alter_role_super rolename make_super =
      command λ db user. alter_role_superuser db user rolename make_super

  unfoldable pub alter_owner : CString → ℕ → AlteredObjType → Action Db Unit
  alter_owner obj_name role_oid alt_fdw = do
    name ← gets (λ s. get_user_name s.db role_oid)
    role_name ← or_raise name postgres_error
    alter_role_super role_name true
    command λ db user. alter_fdw_owner db user obj_name role_oid
    alter_role_super role_name false
  alter_owner obj_name role_oid alt_pub =
      command λ db user. alter_publication_owner db user obj_name role_oid
  alter_owner obj_name role_oid alt_evtrig = do
    name ← gets (λ s. get_user_name s.db role_oid)
    role_name ← or_raise name postgres_error
    alter_role_super role_name true
    command λ db user. alter_event_trigger_owner db user obj_name role_oid
    alter_role_super role_name false
