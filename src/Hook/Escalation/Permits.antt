-- ===== src/Hook/Escalation/Permits.antt =====
-- What lets a statement be run as the superuser, from the settings and the catalogs.
use supautils.Prelude.{
  ◌≡◌, ◌&&◌, ltb, not, Bool, true, false, Option, none, some, List, [], ◌∷◌, CString, cstr, ℕ,
  if◌then◌else◌, arith, str_eq, ◌||◌,
}
use supautils.Statements.{RoleSpec, DefElem}
use supautils.Session.{Session, Outcome, ◌>>=◌}
use supautils.Server.{Server}
use supautils.Config.{Config}
use supautils.Utils.{is_string_in_comma_delimited_string}
use supautils.Privileges.{has_privileged_role, is_role_privileged, is_reserved_role}
use supautils.PrivilegedExtensions.{
  available_query, is_extension_available, is_extension_privileged, all_in_loop,
  all_extensions_are_privileged,
}

-- An option of this name is there.
abbrev pub names_option : CString → List DefElem → Bool
names_option name [] = false
names_option name (d ∷ l) = str_eq d.defname name || names_option name l

module _ (pg : Server) (cfg : Config) where
  open pg use {Db}

  -- The setting is in `supautils.privileged_role_allowed_configs`.
  abbrev pub is_allowed : Option CString → Bool
  is_allowed setting =
      is_string_in_comma_delimited_string pg.split_identifier_string setting
        cfg.privileged_role_allowed_configs

  -- A user who is no superuser, in a transaction.
  abbrev pub is_user : Session Db → Bool
  is_user s = pg.is_transaction_state s.db && not (pg.superuser_arg s.db s.user_id)

  abbrev pub is_new : Option ℕ → Bool
  is_new none = true
  is_new (some oid) = false

  unfoldable pub may_set : Option CString → Session Db → Bool
  may_set setting s = is_user s && is_allowed setting && has_privileged_role pg cfg s.db s.user_id

  -- A reserved role may be configured where the setting `reserved_roles` has it with a wildcard.
  unfoldable pub may_set_for : Option RoleSpec → Option CString → Session Db → Bool
  unfolding may_set
  may_set_for none setting s = false
  may_set_for (some role) setting s = elim (pg.get_rolespec_name s.db s.user_id role) [
    | none ↦ false
    | some name ↦ not (is_reserved_role pg cfg name true) && may_set setting s
  ]

  unfoldable pub may_alter_role : RoleSpec → List DefElem → Session Db → Bool
  may_alter_role role options s = elim (pg.get_rolespec_name s.db s.user_id role) [
    | none ↦ false
    | some name ↦
        is_user s
        && not (is_reserved_role pg cfg name false)
        && not (is_role_privileged pg cfg name s.db)
        && not (names_option (cstr "superuser") options)
        && has_privileged_role pg cfg s.db s.user_id
  ]

  -- A role that there is not, with a name that is not reserved.
  abbrev pub is_free_name : CString → Session Db → Bool
  is_free_name name s =
      is_user s && is_new (pg.get_role_oid s.db name) && not (is_reserved_role pg cfg name false)

  unfoldable pub may_create_role : CString → Session Db → Bool
  may_create_role name s =
      ltb pg.pg_version_num 160000
      && is_free_name name s
      && has_privileged_role pg cfg s.db s.user_id

  -- The owner of the function is a superuser exactly if the user is.
  abbrev owner_like_user : Db → ℕ → Option (ℕ × Bool) → Bool
  owner_like_user db user none = false
  owner_like_user db user (some (owner, is_secdef)) =
      if pg.superuser_arg db owner then pg.superuser_arg db user else not (pg.superuser_arg db user)

  unfoldable pub may_create_trigger : List CString → Session Db → Bool
  may_create_trigger funcname s = elim (pg.lookup_func_name s.db funcname) [
    | none ↦ false
    | some oid ↦
        pg.is_transaction_state s.db
        && owner_like_user s.db s.user_id (pg.search_proc s.db oid)
        && has_privileged_role pg cfg s.db s.user_id
  ]

  abbrev has_row : Option (ℕ × ℕ) → Bool
  has_row none = false
  has_row (some (rc, rows)) = ltb 0 rows

  -- The extension is in `supautils.privileged_extensions`, and the server has it.
  unfoldable pub is_offered : Db → CString → Bool
  is_offered db name =
      is_string_in_comma_delimited_string pg.split_identifier_string (some name)
        cfg.privileged_extensions
      && has_row (pg.spi_select db (available_query pg name))

  unfoldable pub all_offered : Db → List CString → Bool
  all_offered db [] = true
  all_offered db (name ∷ names) = is_offered db name && all_offered db names

-- Did a guard answer yes?
abbrev pub allows : Outcome Bool → Bool
allows (Outcome.ok b) = b
allows _ = false

module _ (pg : Server) (cfg : Config) (s : Session pg.Db) where
  pub privileged-offered :
      (name : CString)
      → is_offered pg cfg s.db name ≡ false
      → allows (is_extension_privileged pg name cfg.privileged_extensions s).0 ≡ false
  unfolding is_extension_privileged is_extension_available is_offered ◌>>=◌
  privileged-offered name h = ground arith

  pub is_extension_privileged-state :
      (name : CString) → (is_extension_privileged pg name cfg.privileged_extensions s).1 ≡ s
  unfolding is_extension_privileged is_extension_available ◌>>=◌
  is_extension_privileged-state name = ground arith

module _ (pg : Server) (cfg : Config) (s : Session pg.Db) where
  loop-offered :
      (names : List CString)
      → all_offered pg cfg s.db names ≡ false
      → allows (all_in_loop pg names cfg.privileged_extensions s).0 ≡ false
  unfolding all_in_loop all_offered is_offered is_extension_privileged is_extension_available ◌>>=◌
  loop-offered [] h = cc
  loop-offered (name ∷ names) h = ground (arith, loop-offered names)

  pub all_privileged-offered :
      (names : List CString)
      → all_offered pg cfg s.db names ≡ false
      → allows (all_extensions_are_privileged pg names cfg.privileged_extensions s).0 ≡ false
  unfolding all_extensions_are_privileged ◌>>=◌
  all_privileged-offered names h = ground (arith, loop-offered names h)
