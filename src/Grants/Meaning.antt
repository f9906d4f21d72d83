-- ===== src/Grants/Meaning.antt =====
-- Which grants make the lookup say yes.
use supautils.Prelude.{
  ◌≡◌, refl, ap, ◌∙◌, str_eq_refl, ℕ, Bool, true, false, Option, none, some, List, [], ◌∷◌, Any,
  Option-cases, Bool-cases, ◌⊎◌, inl, inr, first, CString, str_eq, str_eq_iff, ◌==◌, ==_iff, arith,
  is_nil,
}
use supautils.Session.{Session, Outcome, ◌>>=◌}
use supautils.Server.{Server}
use supautils.Hook.Escalation.Guards.{table_listed-Reads}
use supautils.Grants.{
  PolicyGrants, is_table_listed, is_role_granted, is_current_role_granted_table_policy,
}

-- The text names the relation with this OID.
pub data NamesTable (pg : Server) (db : pg.Db) (target : ℕ) : Option CString → Type 0 where
  names :
      (x : CString) (q : List CString) (rv : pg.RangeVar)
      → pg.string_to_qualified_names x ≡ some q
      → pg.make_range_var q ≡ some rv
      → pg.range_var_get_relid db rv ≡ some target
      → NamesTable pg db target (some x)

module _ (pg : Server) (target : ℕ) (s : Session pg.Db) where
  nothing_listed : ¬ ((is_table_listed pg target [] s).0 ≡ Outcome.ok true)
  unfolding is_table_listed ◌>>=◌
  nothing_listed h = cc

  null_listed :
      (l : List (Option CString)) → ¬ ((is_table_listed pg target (none ∷ l) s).0 ≡ Outcome.ok true)
  unfolding is_table_listed ◌>>=◌
  null_listed l h = cc

  table_step :
      (x : CString) (l : List (Option CString))
      → (is_table_listed pg target (some x ∷ l) s).0 ≡ Outcome.ok true
      → NamesTable pg s.db target (some x) ⊎ ((is_table_listed pg target l s).0 ≡ Outcome.ok true)
  unfolding is_table_listed ◌>>=◌
  table_step x l h = elim (Option-cases (pg.string_to_qualified_names x)) [
    | inl e ↦ inr (ground arith)
    | inr (q, e) ↦ elim (Bool-cases (is_nil q)) [
      | inl n ↦ inr (ground arith)
      | inr n ↦ elim (Option-cases (pg.make_range_var q)) [
        | inl f ↦ inr (ground arith)
        | inr (rv, f) ↦ elim (Option-cases (pg.range_var_get_relid s.db rv)) [
          | inl g ↦ inr (ground arith)
          | inr (oid, g) ↦ elim (Bool-cases (oid == target)) [
            | inl k ↦ inl (names x q rv e f (ground (arith, ==_iff oid target)))
            | inr k ↦ inr (ground arith)
          ]
        ]
      ]
    ]
  ]

  is_table_listed-Any :
      (l : List (Option CString))
      → (is_table_listed pg target l s).0 ≡ Outcome.ok true
      → Any (NamesTable pg s.db target) l
  is_table_listed-Any [] h = absurd (nothing_listed h)
  is_table_listed-Any (none ∷ l) h = absurd (null_listed l h)
  is_table_listed-Any (some x ∷ l) h = elim (table_step x l h) [
    | inl a ↦ inl a
    | inr rest ↦ inr (is_table_listed-Any l rest)
  ]

-- The grant is for the role, and lists the table.
pub record GrantsTable (pg : Server) (db : pg.Db) (role : CString) (target : ℕ) (g : PolicyGrants)
    : Type 0 where
  pub to_role : g.role_name ≡ some role
  pub to_table : Any (NamesTable pg db target) (first g.total_tables g.table_names)

module _ (pg : Server) (target : ℕ) (s : Session pg.Db) (role : CString) where
  listed_or_rest :
      (g : PolicyGrants) (l : List PolicyGrants) (r : Outcome Bool) (t : Session pg.Db)
      → t ≡ s
      → g.role_name ≡ some role
      → str_eq role role ≡ true
      → is_table_listed pg target (first g.total_tables g.table_names) s ≡ (r, t)
      → (is_role_granted pg target role (g ∷ l) s).0 ≡ Outcome.ok true
      → (r ≡ Outcome.ok true) ⊎ ((is_role_granted pg target role l s).0 ≡ Outcome.ok true)
  unfolding is_role_granted ◌>>=◌
  listed_or_rest g l (Outcome.ok true) t e n u q h = inl refl
  listed_or_rest g l (Outcome.ok false) t e n u q h = inr (ground arith)
  listed_or_rest g l (Outcome.broke _) t e n u q h = inr (ground arith)
  listed_or_rest g l Outcome.returned t e n u q h = inr (ground arith)
  listed_or_rest g l (Outcome.raised _) t e n u q h = inr (ground arith)

  other_role :
      (g : PolicyGrants) (l : List PolicyGrants) (name : CString)
      → g.role_name ≡ some name
      → str_eq name role ≡ false
      → (is_role_granted pg target role (g ∷ l) s).0 ≡ Outcome.ok true
      → (is_role_granted pg target role l s).0 ≡ Outcome.ok true
  unfolding is_role_granted ◌>>=◌
  other_role g l name e n h = ground arith

  no_role :
      (g : PolicyGrants) (l : List PolicyGrants)
      → g.role_name ≡ none
      → ¬ ((is_role_granted pg target role (g ∷ l) s).0 ≡ Outcome.ok true)
  unfolding is_role_granted ◌>>=◌
  no_role g l e h = ground arith

  no_grants : ¬ ((is_role_granted pg target role [] s).0 ≡ Outcome.ok true)
  unfolding is_role_granted ◌>>=◌
  no_grants h = cc

  is_role_granted-Any :
      (l : List PolicyGrants)
      → (is_role_granted pg target role l s).0 ≡ Outcome.ok true
      → Any (GrantsTable pg s.db role target) l
  is_role_granted-Any [] h = absurd (no_grants h)
  is_role_granted-Any (g ∷ l) h =
      let tables = first g.total_tables g.table_names in
      elim (Option-cases g.role_name) [
        | inl e ↦ absurd (no_role g l e h)
        | inr (name, e) ↦ elim (Bool-cases (str_eq name role)) [
          | inr n ↦ inr (is_role_granted-Any l (other_role g l name e n h))
          | inl n ↦
              let same = (str_eq_iff name role).0 n in
              let e' = e ∙ ap some same in
              elim (listed_or_rest g l _ _ ((table_listed-Reads pg target tables).at s) e'
                (str_eq_refl role) refl h) [
                  | inl listed ↦ inl (record {
                    to_role = e';
                    to_table = is_table_listed-Any pg target s tables listed;
                  })
                  | inr rest ↦ inr (is_role_granted-Any l rest)
                ]
        ]
      ]

  granted_lookup :
      (rv : pg.RangeVar) (pgs : ℕ → PolicyGrants) (n : ℕ)
      → pg.range_var_get_relid s.db rv ≡ some target
      → pg.get_user_name s.db s.user_id ≡ some role
      → (is_current_role_granted_table_policy pg rv pgs n s).0 ≡ Outcome.ok true
      → (is_role_granted pg target role (first n pgs) s).0 ≡ Outcome.ok true
  unfolding is_current_role_granted_table_policy ◌>>=◌
  granted_lookup rv pgs n h k q = ground arith

  -- Where the statement's table has this OID and the current user this name, the lookup says yes
  -- only if one of the grants in use is for that name and lists a text that names the table.
  pub is_current_role_granted_table_policy-Any :
      (rv : pg.RangeVar) (pgs : ℕ → PolicyGrants) (n : ℕ)
      → pg.range_var_get_relid s.db rv ≡ some target
      → pg.get_user_name s.db s.user_id ≡ some role
      → (is_current_role_granted_table_policy pg rv pgs n s).0 ≡ Outcome.ok true
      → Any (GrantsTable pg s.db role target) (first n pgs)
  is_current_role_granted_table_policy-Any rv pgs n h k q =
      is_role_granted-Any (first n pgs) (granted_lookup rv pgs n h k q)
