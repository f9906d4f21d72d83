-- ===== src/Session.antt =====
-- The state of a backend that the hooks read and write, and the actions on it. An action returns,
-- or leaves the `case` of the hook's `switch` by `break` or `return`, or raises; what it wrote
-- before stays written.
pub mod Keeps
pub mod Reads
pub mod Stays
use supautils.Prelude.{ℕ, Bool, Option, none, some, List, [], ◌∷◌, ◌++◌, CString, if◌then◌else◌}
use supautils.Statements.{Stmt, ExtensionStmtKind}

-- What the code reports with level ERROR. `postgres_error` is raised by Postgres itself, and
-- `null_dereference` stands for a crash of the process.
pub data Error : Type 0 where
  reserved_role : CString → Error
  reserved_membership : CString → Error
  privileged_role_altered : Error
  superuser_attribute : Error
  superuser_attribute_created : Error
  version_specified : ExtensionStmtKind → Error
  non_superuser_event_trigger : Error
  superuser_event_trigger : Error
  conflicting_options : Error
  sysinfo_failed statvfs_failed : Error
  not_enough_cpus not_enough_memory not_enough_disk : Error
  spi_failed : ℕ → Error
  postgres_error : Error
  null_dereference : Error

-- WARNING: the version given by the user is ignored.
pub data Warning : Type 0 where
  version_ignored : ExtensionStmtKind → Warning

pub record Session (Db : Type 0) : Type 0 where
  pub db : Db
  -- the current user and security context, `GetUserIdAndSecContext`
  pub user_id : ℕ
  pub sec_context : ℕ
  -- the static variables of src/utils.c and src/extension_custom_scripts.c
  pub prev_role_oid : ℕ
  pub prev_role_sec_context : ℕ
  pub is_switched_to_superuser : Bool
  pub running_custom_script : Bool
  -- observations: the warnings so far, and the statements that this hook handed on, each with the
  -- user that it ran as
  pub warnings : List Warning
  pub runs : List (ℕ × Stmt)

pub data Outcome (A : Type 0) : Type 0 where
  ok : A → Outcome A
  broke : Stmt → Outcome A
  returned : Outcome A
  raised : Error → Outcome A

abbrev pub Action : Type 0 → Type 0 → Type 0
Action Db A = Session Db → Outcome A × Session Db

-- A call that returns nothing: the error that it raised, if it raised one.
abbrev pub Call : Type 0 → Type 0
Call Db = Session Db → Option Error × Session Db

module _ {Db A : Type 0} where
  unfoldable pub pure : A → Action Db A
  pure a s = (ok a, s)

  unfoldable pub raise : Error → Action Db A
  raise e s = (raised e, s)

  unfoldable pub gets : (Session Db → A) → Action Db A
  gets f s = (ok (f s), s)

  -- A value that Postgres code raises an error instead of.
  unfoldable pub or_raise : Option A → Error → Action Db A
  or_raise none e s = (raised e, s)
  or_raise (some a) e s = (ok a, s)

module _ {Db : Type 0} where
  -- `if (b) break;` in a `case`; the node may have been changed by then.
  unfoldable pub break_if : Bool → Stmt → Action Db Unit
  break_if b stmt s = (if b then broke stmt else ok tt, s)

  unfoldable pub raise_if : Bool → Error → Action Db Unit
  raise_if b e s = (if b then raised e else ok tt, s)

  unfoldable pub check : Option Error → Action Db Unit
  check none s = (ok tt, s)
  check (some e) s = (raised e, s)

  unfoldable pub when : Bool → Action Db Unit → Action Db Unit
  when b m s = if b then m s else (ok tt, s)

  unfoldable pub call : Call Db → Action Db Unit
  unfolding check
  call f s = let (e, s') = f s in check e s'

  -- `ereport(WARNING, ..)`
  unfoldable pub report_warning : Warning → Action Db Unit
  report_warning w s = (ok tt, record s { warnings = s.warnings ++ w ∷ [] })

  unfoldable pub return_from_hook : Action Db Unit
  return_from_hook s = (returned, s)

module _ {Db A B : Type 0} where
  abbrev pub continue : Outcome A → (A → Action Db B) → Action Db B
  continue (ok a) f s = f a s
  continue (broke stmt) f s = (broke stmt, s)
  continue returned f s = (returned, s)
  continue (raised e) f s = (raised e, s)

  infixl 10 ◌>>=◌ ◌>>◌
  -- Opening this opens the actions above too.
  unfoldable pub ◌>>=◌ : Action Db A → (A → Action Db B) → Action Db B
  unfolding pure raise gets or_raise break_if raise_if check when call report_warning
      return_from_hook
  ◌>>=◌ m f s = let (r, s') = m s in continue r f s'

  abbrev pub ◌>>◌ : Action Db A → Action Db B → Action Db B
  m >> n = m >>= λ _. n
