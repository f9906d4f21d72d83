-- ===== src/PermissionHints/Search.antt =====
-- Which relation the search for a missing privilege finds.
use supautils.Prelude.{
  ◌≡◌, refl, ap, ℕ, ◌==◌, ◌&&◌, ◌||◌, ltb, Bool, true, false, List, [], ◌∷◌, ◌++◌, All, arith,
  if◌then◌else◌, Bool-cases, inl, inr,
}
use supautils.PermissionHints.{
  Privileges, PermissionInfo, PlannedStmt, MissingPerm, get_missing_aclmode, first_missing,
  find_missing_perm,
}

module _ (acls : Privileges) (role : ℕ) where
  -- The search goes on behind the entry: it has no relation, before Postgres 16, or lacks nothing.
  abbrev pub passes : Bool → PermissionInfo → Bool
  passes skips info = skips && info.relid == 0 || get_missing_aclmode acls info role == 0

  pub data FirstMissing (skips : Bool) (infos : List PermissionInfo) (r : MissingPerm)
      : Type 0 where
    nothing_missing :
        All (λ info. passes skips info ≡ true) infos
        → r ≡ record { relid = 0; acl = 0 }
        → FirstMissing skips infos r
    missing_at :
        (before : List PermissionInfo) (info : PermissionInfo) (behind : List PermissionInfo)
        → infos ≡ before ++ info ∷ behind
        → All (λ x. passes skips x ≡ true) before
        → passes skips info ≡ false
        → r ≡ record { relid = info.relid; acl = get_missing_aclmode acls info role }
        → FirstMissing skips infos r

  passed_on :
      (skips : Bool) (info : PermissionInfo) (infos : List PermissionInfo)
      → passes skips info ≡ true
      → first_missing acls skips (info ∷ infos) role ≡ first_missing acls skips infos role
  unfolding first_missing
  passed_on skips info infos h = ground arith

  stopped_at :
      (skips : Bool) (info : PermissionInfo) (infos : List PermissionInfo)
      → passes skips info ≡ false
      → first_missing acls skips (info ∷ infos) role
        ≡ record { relid = info.relid; acl = get_missing_aclmode acls info role }
  unfolding first_missing
  stopped_at skips info infos h = ground arith

  behind_passed :
      (skips : Bool) (info : PermissionInfo) (infos : List PermissionInfo) (r : MissingPerm)
      → passes skips info ≡ true
      → FirstMissing skips infos r
      → FirstMissing skips (info ∷ infos) r
  behind_passed skips info infos r h (nothing_missing all e) = nothing_missing (h, all) e
  behind_passed skips info infos r h (missing_at before x behind parts all k e) =
      missing_at (info ∷ before) x behind (ap (λ l. info ∷ l) parts) (h, all) k e

  first_missing-FirstMissing :
      (skips : Bool) (infos : List PermissionInfo)
      → FirstMissing skips infos (first_missing acls skips infos role)
  first_missing-FirstMissing skips [] = nothing_missing tt (unfold first_missing in refl)
  first_missing-FirstMissing skips (info ∷ infos) = elim (Bool-cases (passes skips info)) [
    | inl h ↦
        rw (passed_on skips info infos h)
          (behind_passed skips info infos _ h (first_missing-FirstMissing skips infos))
    | inr h ↦ missing_at [] info infos refl tt h (stopped_at skips info infos h)
  ]

  -- The search finds the first entry of the plan that lacks a privilege and, before Postgres 16,
  -- has a relation, with what it lacks; where there is none, its result is zero.
  pub find_missing_perm-FirstMissing :
      (pg_version_num : ℕ) (ps : PlannedStmt)
      → let old = ltb pg_version_num 160000 in
        FirstMissing old
          (if old then ps.rtable else ps.perm_infos)
          (find_missing_perm acls pg_version_num ps role)
  unfolding find_missing_perm
  find_missing_perm-FirstMissing pg_version_num ps = elim (Bool-cases (ltb pg_version_num 160000)) [
    | inl h ↦ rw h (first_missing-FirstMissing true ps.rtable)
    | inr h ↦ rw h (first_missing-FirstMissing false ps.perm_infos)
  ]
