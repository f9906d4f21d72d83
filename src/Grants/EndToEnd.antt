-- ===== src/Grants/EndToEnd.antt =====
-- From the text of the setting to the answer of the lookup.
use supautils.Prelude.{
  ◌≡◌, subst, ℕ, zero, suc, true, Option, some, List, [], ◌∷◌, Any, inl, inr, first, map, CString,
}
use supautils.Json.{Reading}
use supautils.Session.{Session, Outcome}
use supautils.Server.{Server}
use supautils.Grants.{PolicyGrants, is_current_role_granted_table_policy}
use supautils.Grants.Meaning.{NamesTable, GrantsTable, is_current_role_granted_table_policy-Any}
use supautils.Grants.Tables.{Grant}
use supautils.Grants.ReadBack.{Entry, entries, written}
use supautils.Grants.Setting.{GrantsSetting, policy_grants_check_hook}
use supautils.Grants.Setting.Reloads.{Reached, grants_of_value, policy_grants_check_hook-entries}

module _ (pg : Server) (db : pg.Db) (role : CString) (target : ℕ) where
  -- The entry is the role's, and one of its texts names the table.
  pub record EntryFor (e : Entry) : Type 0 where
    pub to_role : e.0 ≡ some role
    pub to_table : Any (NamesTable pg db target) e.1

  -- The document grants the table to the role.
  pub record GrantFor (g : Grant) : Type 0 where
    pub role_is : g.0 ≡ role
    pub lists : Any (λ t. NamesTable pg db target (some t)) g.1

  Any-entries :
      (n : ℕ) (pgs : ℕ → PolicyGrants)
      → Any (GrantsTable pg db role target) (first n pgs)
      → Any EntryFor (entries n pgs)
  Any-entries zero pgs h = h
  Any-entries (suc n) pgs (inl g) = inl (record { to_role = g.to_role; to_table = g.to_table })
  Any-entries (suc n) pgs (inr rest) = inr (Any-entries n (λ i. pgs (suc i)) rest)

  Any-texts :
      (ts : List CString)
      → Any (NamesTable pg db target) (map some ts)
      → Any (λ t. NamesTable pg db target (some t)) ts
  Any-texts [] h = h
  Any-texts (t ∷ ts) (inl h) = inl h
  Any-texts (t ∷ ts) (inr h) = inr (Any-texts ts h)

  Any-written : (gs : List Grant) → Any EntryFor (written gs) → Any GrantFor gs
  Any-written [] h = h
  Any-written (g ∷ gs) (inl e) =
      inl (record { role_is = cc (e.to_role); lists = Any-texts g.1 e.to_table })
  Any-written (g ∷ gs) (inr h) = inr (Any-written gs h)

module _ (pg : Server) (read_json : CString → Reading) where
  -- With arrays that have room for every value: while every value of the setting was taken, after
  -- one more that is taken, the lookup says yes for the current user and a table only if the
  -- document of that value has the user's name with a text that names the table.
  pub policy_granted_by_document :
      {g : GrantsSetting}
      → (value : Option CString) (gs : List Grant) (s : Session pg.Db) (rv : pg.RangeVar)
        (target : ℕ) (role : CString)
      → Reached read_json g
      → grants_of_value read_json value ≡ some gs
      → pg.range_var_get_relid s.db rv ≡ some target
      → pg.get_user_name s.db s.user_id ≡ some role
      → let t = (policy_grants_check_hook read_json value g).1 in
        (is_current_role_granted_table_policy pg rv t.pgs t.total_pgs s).0 ≡ Outcome.ok true
        → Any (GrantFor pg s.db role target) gs
  policy_granted_by_document {g} value gs s rv target role r e h k q =
      let t = (policy_grants_check_hook read_json value g).1 in
      let granted =
        is_current_role_granted_table_policy-Any pg target s role rv t.pgs t.total_pgs h k q in
      let read = policy_grants_check_hook-entries read_json value gs r e in
      Any-written pg s.db role target gs (
        subst (λ l. Any (EntryFor pg s.db role target) l) read
          (Any-entries pg s.db role target t.total_pgs t.pgs granted))
