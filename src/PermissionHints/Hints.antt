-- ===== src/PermissionHints/Hints.antt =====
-- What the ExecutorStart hook makes of an error.
use supautils.Prelude.{
  ◌≡◌, refl, ℕ, ◌/◌, ◌%◌, ◌==◌, ◌&&◌, not, if◌then◌else◌, Bool, Bool-cases, inl, inr, true, false,
  Option, none, some, List, [], ◌∷◌, ◌++◌, is_nil, CString, cstr, arith,
}
use supautils.Session.{Session}
use supautils.Server.{Server}
use supautils.Reserved.{is_hint_role}
use supautils.PermissionHints.{
  PlannedStmt, MissingPerm, has_acl, append_privilege, build_privileges_string, find_missing_perm,
  acl_select, acl_insert, acl_update, acl_delete,
}
use supautils.PermissionHints.Executor.{
  ErrorData, HintServer, Executor, insufficient_privilege, hint_text, no_other_acl, hint_for,
  hint_missing, catch_error, try_start, rethrow, start_as, supautils_executor_start,
}

-- The names of the privileges, in the order of the hint.
abbrev named : Bool → CString → List CString → List CString
named true name names = name ∷ names
named false name names = names

abbrev pub privileges_of : ℕ → List CString
privileges_of acl = named (has_acl acl acl_select) (cstr "SELECT") (
    named (has_acl acl acl_insert) (cstr "INSERT") (
      named (has_acl acl acl_update) (cstr "UPDATE")
        (named (has_acl acl acl_delete) (cstr "DELETE") [])))

-- With ", " between two of them.
abbrev pub comma_separated : List CString → CString
comma_separated [] = []
comma_separated (x ∷ []) = x
comma_separated (x ∷ y ∷ l) = x ++ (cstr ", " ++ comma_separated (y ∷ l))

-- The names of exactly the privileges among SELECT, INSERT, UPDATE and DELETE, between commas.
pub build_privileges_string-comma_separated :
    (acl : ℕ) → build_privileges_string [] acl ≡ comma_separated (privileges_of acl)
unfolding build_privileges_string append_privilege
build_privileges_string-comma_separated acl = ground arith

-- Some of the four privileges and none of the next three, on a relation that there is.
abbrev pub suggests : MissingPerm → Bool
suggests missing =
    not (missing.relid == 0) && (missing.acl / 16) % 8 == 0 && not (missing.acl % 16 == 0)

no_other_acl_lem : (acl : ℕ) → no_other_acl acl ≡ ((acl / 16) % 8 == 0)
unfolding no_other_acl has_acl
no_other_acl_lem acl = ground arith

some_privilege : (acl : ℕ) → is_nil (build_privileges_string [] acl) ≡ (acl % 16 == 0)
unfolding build_privileges_string append_privilege has_acl
some_privilege acl = ground arith

module _ {Rest : Type 0} (pg : Server) (h : HintServer pg.Db Rest) where
  abbrev without_hint : Option (ErrorData Rest) → Option (ErrorData Rest)
  without_hint none = none
  without_hint (some e) = some (record e { hint = none })

  abbrev pub SameButHint : Option (ErrorData Rest) → Option (ErrorData Rest) → Type 0
  SameButHint e e' = without_hint e ≡ without_hint e'

  catch_error-SameButHint :
      (ps : PlannedStmt) (e : ErrorData Rest) (t : Session pg.Db) (name : CString)
      → pg.get_user_name t.db t.user_id ≡ some name
      → SameButHint (some (catch_error pg h ps e t)) (some e)
  unfolding catch_error hint_missing hint_for
  catch_error-SameButHint ps e t name k = ground arith

  -- The error with the hint that suggests the grant.
  abbrev pub suggested :
      ErrorData Rest → MissingPerm → pg.Db → (relname name : CString) → ErrorData Rest
  suggested e missing db relname name =
      let schema = h.get_namespace_name db (h.get_rel_namespace db missing.relid) in
      record e {
        hint = some (
            cstr "Grant the required privileges to the current role with: GRANT "
            ++ (comma_separated (privileges_of missing.acl)
                ++ (cstr " ON "
                    ++ (h.quote_qualified_identifier schema relname
                        ++ (cstr " TO "
                            ++ (h.quote_qualified_identifier none name ++ cstr ";"))))));
      }

  -- Where a grant is suggested, the relation and the role have names.
  abbrev pub Named : MissingPerm → pg.Db → (role : ℕ) → (relname name : CString) → Type 0
  Named missing db role relname name =
      suggests missing ≡ true
      → (h.get_rel_name db missing.relid ≡ some relname) × (pg.get_user_name db role ≡ some name)

  hint_missing-suggested :
      (e : ErrorData Rest) (role : ℕ) (missing : MissingPerm) (db : pg.Db) (relname name : CString)
      → Named missing db role relname name
      → hint_missing pg h e role missing db
        ≡ (if suggests missing then suggested e missing db relname name else e)
  unfolding hint_missing hint_for hint_text
  hint_missing-suggested e role missing db relname name known =
      let k = some_privilege missing.acl in
      let l = no_other_acl_lem missing.acl in
      let b = build_privileges_string-comma_separated missing.acl in
      elim (Bool-cases (suggests missing)) [
        | inl q ↦ let (relname_known, named_as) = known q in ground arith
        | inr q ↦ ground arith
      ]

  rethrow-SameButHint :
      (ps : PlannedStmt) (e : Option (ErrorData Rest)) (t : Session pg.Db) (name : CString)
      → pg.get_user_name t.db t.user_id ≡ some name
      → let (e', t') = rethrow pg h ps e t in (t' ≡ t) × SameButHint e' e
  unfolding rethrow
  rethrow-SameButHint ps none t name k = (refl, refl)
  rethrow-SameButHint ps (some e) t name k = (refl, catch_error-SameButHint ps e t name k)

  module _ (hint_roles : Option CString) (next : Executor pg h) (ps : PlannedStmt) (eflags : ℕ)
      (s : Session pg.Db) (name name' : CString) where
    -- Where the current role has a name before and after, the hook ends as the hook or the function
    -- behind it does: in the same state, and with no error or with the same error but for the hint.
    pub supautils_executor_start-SameButHint :
        let (e, t) = next ps eflags s in
        pg.get_user_name s.db s.user_id ≡ some name
        → pg.get_user_name t.db t.user_id ≡ some name'
        → let (e', t') = supautils_executor_start pg h hint_roles next ps eflags s in
          (t' ≡ t) × SameButHint e' e
    unfolding supautils_executor_start start_as try_start
    supautils_executor_start-SameButHint k k' =
        let (e, t) = next ps eflags s in let m = rethrow-SameButHint ps e t name' k' in ground arith

    -- Where the current role is a hint role and the query lacks a privilege, the error gets a hint
    -- exactly if the search finds a relation and at least one of SELECT, INSERT, UPDATE and DELETE,
    -- but none of TRUNCATE, REFERENCES and TRIGGER: the text to grant these privileges on that
    -- relation to the role. Otherwise it is thrown again as it is. The role has a name before, and
    -- where there is a hint it and the relation have names after.
    pub supautils_executor_start-hint :
        (e : ErrorData Rest) (relname : CString)
        → let t = (next ps eflags s).1 in
          let missing = find_missing_perm (h.privileges t.db) pg.pg_version_num ps t.user_id in
          pg.get_user_name s.db s.user_id ≡ some name
          → is_hint_role pg.split_identifier_string hint_roles (some name) ≡ true
          → (next ps eflags s).0 ≡ some e
          → e.sqlerrcode ≡ insufficient_privilege
          → Named missing t.db t.user_id relname name'
          → (supautils_executor_start pg h hint_roles next ps eflags s).0
            ≡ some (if suggests missing then suggested e missing t.db relname name' else e)
    unfolding supautils_executor_start start_as try_start rethrow catch_error
    supautils_executor_start-hint e relname named_before hint_role failed lacks known =
        let t = (next ps eflags s).1 in
        let missing = find_missing_perm (h.privileges t.db) pg.pg_version_num ps t.user_id in
        let m = hint_missing-suggested e t.user_id missing t.db relname name' known in ground arith
