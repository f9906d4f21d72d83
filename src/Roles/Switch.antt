-- ===== src/Roles/Switch.antt =====
-- Switching to the superuser and back restores the role, and an error in the statement does too.
use supautils.Prelude.{ℕ, ◌≡◌, Bool, true, false, Option, none, some, arith, CString}
use supautils.Statements.{Stmt, create_role, create_extension}
use supautils.Session.{Error, Session, Outcome, ◌>>=◌}
use supautils.Session.Keeps.{SameRole, is_normal, Keeps, KeepsSwitched, IsRestricted, IsStraight}
use supautils.Server.{Server}
use supautils.Roles.{
  switch_to_superuser, switch_back_unless, run_process_utility_hook,
  run_process_utility_hook_with_cleanup,
}

-- `t` is switched to the superuser, with the role of `s` saved.
pub record SwitchedFrom {Db : Type 0} (s t : Session Db) : Type 0 where
  pub is_switched : t.is_switched_to_superuser ≡ true
  pub saved_role : t.prev_role_oid ≡ s.user_id
  pub saved_context : t.prev_role_sec_context ≡ s.sec_context
  pub running : t.running_custom_script ≡ s.running_custom_script

module _ {Db : Type 0} where
  pub SwitchedFrom-trans : {s t u : Session Db} → SwitchedFrom s t → SameRole t u → SwitchedFrom s u
  SwitchedFrom-trans h k = ground arith

  pub switch_back-SameRole :
      {s t : Session Db}
      → s.is_switched_to_superuser ≡ false
      → SwitchedFrom s t
      → SameRole s (switch_back_unless false t).1
  unfolding switch_back_unless ◌>>=◌
  switch_back-SameRole h k = ground arith

module _ (pg : Server) (supauser : Option CString) where
  pub switch-already :
      (s : Session pg.Db)
      → s.is_switched_to_superuser ≡ true
      → switch_to_superuser pg supauser s ≡ (Outcome.ok true, s)
  unfolding switch_to_superuser ◌>>=◌
  switch-already s h = ground arith

  pub switch-SwitchedFrom :
      (s : Session pg.Db)
      → s.is_switched_to_superuser ≡ false
      → is_normal (switch_to_superuser pg supauser s).0 ≡ true
      → ((switch_to_superuser pg supauser s).0 ≡ Outcome.ok false)
        × SwitchedFrom s (switch_to_superuser pg supauser s).1
  unfolding switch_to_superuser ◌>>=◌
  switch-SwitchedFrom s h n = ground arith

  pub switch-IsRestricted :
      (s : Session pg.Db)
      → s.is_switched_to_superuser ≡ false
      → is_normal (switch_to_superuser pg supauser s).0 ≡ true
      → IsRestricted (switch_to_superuser pg supauser s).1.sec_context
  unfolding switch_to_superuser ◌>>=◌
  switch-IsRestricted s h n = (s.sec_context, ground arith)

abbrev pub has_code : Option ℕ → Bool
has_code none = false
has_code (some rc) = true

-- In a restricted security context Postgres refuses to set the role or the session authorization,
-- so a statement or a script that is through without an error leaves the user and the context as
-- they were. The hook, for nested statements, leaves the static variables while the role is
-- switched.
pub record RestrictedStays (pg : Server) : Type 0 where
  pub statement :
      (stmt : Stmt) (s : Session pg.Db)
      → s.is_switched_to_superuser ≡ true
      → IsRestricted s.sec_context
      → (pg.process_utility stmt s).0 ≡ none
      → SameRole s (pg.process_utility stmt s).1
  pub script :
      (sql : CString) (s : Session pg.Db)
      → s.is_switched_to_superuser ≡ true
      → IsRestricted s.sec_context
      → has_code (pg.spi_execute sql s).0 ≡ true
      → SameRole s (pg.spi_execute sql s).1

-- CREATE ROLE and CREATE EXTENSION
abbrev pub is_create : Stmt → Bool
is_create (create_role role options) = true
is_create (create_extension extname options) = true
is_create _ = false

-- What is assumed of a statement that the user runs: CREATE ROLE and CREATE EXTENSION do not set the
-- role, where no event trigger does it for them. SET ROLE and all other statements may.
pub record RestoresRole (pg : Server) : Type 0 where
  pub restricted : RestrictedStays pg
  pub created :
      (stmt : Stmt) (s : Session pg.Db)
      → is_create stmt ≡ true
      → (pg.process_utility stmt s).0 ≡ none
      → SameRole s (pg.process_utility stmt s).1

-- A statement that raises an error while the role is switched leaves the saved role alone.
pub record SavedRoleStays (pg : Server) : Type 0 where
  pub failed_user :
      (stmt : Stmt) (s : Session pg.Db) (e : Error)
      → (pg.process_utility stmt s).0 ≡ some e
      → s.is_switched_to_superuser ≡ true
      → (pg.process_utility stmt s).1.prev_role_oid ≡ s.prev_role_oid
  pub failed_context :
      (stmt : Stmt) (s : Session pg.Db) (e : Error)
      → (pg.process_utility stmt s).0 ≡ some e
      → s.is_switched_to_superuser ≡ true
      → (pg.process_utility stmt s).1.prev_role_sec_context ≡ s.prev_role_sec_context

module _ (pg : Server) (restores : RestoresRole pg) where
  pub run_process_utility_hook-Keeps :
      (stmt : Stmt) → is_create stmt ≡ true → Keeps (run_process_utility_hook pg stmt)
  unfolding run_process_utility_hook ◌>>=◌
  run_process_utility_hook-Keeps stmt c = record {
    at = λ s w h. ground (arith, restores.created stmt s);
  }

module _ (pg : Server) (stays : RestrictedStays pg) where
  pub run_process_utility_hook-KeepsSwitched :
      (stmt : Stmt) → KeepsSwitched (run_process_utility_hook pg stmt)
  unfolding run_process_utility_hook ◌>>=◌
  run_process_utility_hook-KeepsSwitched stmt = record {
    at = λ s w r h. let k = stays.statement stmt s w r in ground arith;
  }

  pub with_cleanup-KeepsSwitched :
      (stmt : Stmt) (already_switched : Bool)
      → KeepsSwitched (run_process_utility_hook_with_cleanup pg stmt already_switched)
  unfolding run_process_utility_hook_with_cleanup
  with_cleanup-KeepsSwitched stmt already_switched = record {
    at = λ s w r h. let k = (run_process_utility_hook-KeepsSwitched stmt).at s w r in ground arith;
  }

module _ (pg : Server) where
  pub run_process_utility_hook-IsStraight :
      (stmt : Stmt) → IsStraight (run_process_utility_hook pg stmt)
  unfolding run_process_utility_hook ◌>>=◌
  run_process_utility_hook-IsStraight stmt = record { at = λ s. ground arith }

module _ (pg : Server) (stmt : Stmt) where
  pub with_cleanup-IsStraight :
      (already_switched : Bool)
      → IsStraight (run_process_utility_hook_with_cleanup pg stmt already_switched)
  unfolding run_process_utility_hook_with_cleanup run_process_utility_hook ◌>>=◌
  with_cleanup-IsStraight already_switched = record { at = λ s. ground arith }

  -- Where the statement raises an error after a switch, the role is switched back before the error
  -- goes on.
  pub with_cleanup_error :
      (stays : SavedRoleStays pg) (s t : Session pg.Db) (e : Error)
      → SwitchedFrom s t
      → (run_process_utility_hook_with_cleanup pg stmt false t).0 ≡ Outcome.raised e
      → let u = (run_process_utility_hook_with_cleanup pg stmt false t).1 in
        (u.user_id ≡ s.user_id)
        × (u.sec_context ≡ s.sec_context)
        × (u.is_switched_to_superuser ≡ false)
  unfolding run_process_utility_hook_with_cleanup run_process_utility_hook switch_back_unless ◌>>=◌
  with_cleanup_error stays s t e h r =
      ground (arith, stays.failed_user stmt t e, stays.failed_context stmt t e)
