-- ===== src/PermissionHints/Missing.antt =====
-- Which privileges are missing.
use supautils.Prelude.{
  ◌≡◌, refl, ap, ℕ, ◌-◌, ◌/◌, ◌%◌, suc, ltb, ◌==◌, ◌&&◌, Bool, true, false, not, List, [], ◌∷◌,
  arith, if◌then◌else◌,
}
use supautils.Constrained.{pos, negsuc}
use supautils.PermissionHints.{
  Privileges, PermissionInfo, and_not, has_acl, without_acl, check_columns, has_column_perms,
  columns_allowed, column_allowed, attno, get_missing_aclmode, missing_table_perms, checked_user,
  acl_select, acl_insert, acl_update, acl_delete,
}

-- The privilege with this bit is in the set.
abbrev pub in_acl : ℕ → ℕ → Bool
in_acl acl bit = (acl / bit) % 2 == 1

-- One digit of `a & ~b`.
module _ (n a b : ℕ) where
  and_not-halves : and_not (suc n) a b / 2 ≡ and_not n (a / 2) (b / 2)
  unfolding and_not
  and_not-halves = ground arith

  and_not-digit : ((and_not (suc n) a b % 2) == 1) ≡ ((a % 2) == 1 && not ((b % 2) == 1))
  unfolding and_not
  and_not-digit = ground arith

-- A required privilege is missing for the table where it is not granted.
module _ (a b : ℕ) where
  and_not-insert : has_acl (and_not 64 a b) 1 ≡ (has_acl a 1 && not (has_acl b 1))
  unfolding has_acl
  and_not-insert = ground (arith, and_not-digit 63 a b)

  and_not-select : has_acl (and_not 64 a b) 2 ≡ (has_acl a 2 && not (has_acl b 2))
  unfolding has_acl
  and_not-select = rw (and_not-halves 63 a b) (and_not-digit 62 (a / 2) (b / 2))

  and_not-update : has_acl (and_not 64 a b) 4 ≡ (has_acl a 4 && not (has_acl b 4))
  unfolding has_acl
  and_not-update =
      let e = and_not-halves 63 a b in
      let e' = and_not-halves 62 (a / 2) (b / 2) in
      let d = and_not-digit 61 (a / 2 / 2) (b / 2 / 2) in
      let p : and_not 64 a b / 4 ≡ and_not 62 (a / 2 / 2) (b / 2 / 2) = omega (arith, e, e') in
      let q : a / 4 ≡ a / 2 / 2 = omega arith in
      let q' : b / 4 ≡ b / 2 / 2 = omega arith in rw p (rw q (rw q' d))

  and_not-delete : has_acl (and_not 64 a b) 8 ≡ (has_acl a 8 && not (has_acl b 8))
  unfolding has_acl
  and_not-delete =
      let e = and_not-halves 63 a b in
      let e' = and_not-halves 62 (a / 2) (b / 2) in
      let e'' = and_not-halves 61 (a / 2 / 2) (b / 2 / 2) in
      let d = and_not-digit 60 (a / 2 / 2 / 2) (b / 2 / 2 / 2) in
      let p : and_not 64 a b / 8 ≡ and_not 61 (a / 2 / 2 / 2) (b / 2 / 2 / 2) =
        omega (arith, e, e', e'') in
      let q : a / 8 ≡ a / 2 / 2 / 2 = omega arith in
      let q' : b / 8 ≡ b / 2 / 2 / 2 = omega arith in rw p (rw q (rw q' d))

-- Taking one privilege out leaves the others alone.
module _ (acl : ℕ) where
  without_select :
      (has_acl (without_acl acl 2) 2 ≡ false)
      × (has_acl (without_acl acl 2) 1 ≡ has_acl acl 1)
      × (has_acl (without_acl acl 2) 4 ≡ has_acl acl 4)
      × (has_acl (without_acl acl 2) 8 ≡ has_acl acl 8)
  unfolding has_acl without_acl
  without_select = (ground arith, ground arith, ground arith, ground arith)

  without_insert :
      (has_acl (without_acl acl 1) 1 ≡ false)
      × (has_acl (without_acl acl 1) 2 ≡ has_acl acl 2)
      × (has_acl (without_acl acl 1) 4 ≡ has_acl acl 4)
      × (has_acl (without_acl acl 1) 8 ≡ has_acl acl 8)
  unfolding has_acl without_acl
  without_insert = (ground arith, ground arith, ground arith, ground arith)

  without_update :
      (has_acl (without_acl acl 4) 4 ≡ false)
      × (has_acl (without_acl acl 4) 1 ≡ has_acl acl 1)
      × (has_acl (without_acl acl 4) 2 ≡ has_acl acl 2)
      × (has_acl (without_acl acl 4) 8 ≡ has_acl acl 8)
  unfolding has_acl without_acl
  without_update = (ground arith, ground arith, ground arith, ground arith)

module _ (acls : Privileges) (info : PermissionInfo) where
  module _ (userid : ℕ) (cols : List ℕ) (acl : ℕ) where
    after_select :
        let r = check_columns acls info userid cols 2 acl in
        (has_acl r 2 ≡ (has_acl acl 2 && not (has_column_perms acls info.relid userid cols 2)))
        × (has_acl r 1 ≡ has_acl acl 1)
        × (has_acl r 4 ≡ has_acl acl 4)
        × (has_acl r 8 ≡ has_acl acl 8)
    unfolding check_columns
    after_select =
        let k = without_select acl in (ground arith, ground arith, ground arith, ground arith)

    after_insert :
        let r = check_columns acls info userid cols 1 acl in
        (has_acl r 1 ≡ (has_acl acl 1 && not (has_column_perms acls info.relid userid cols 1)))
        × (has_acl r 2 ≡ has_acl acl 2)
        × (has_acl r 4 ≡ has_acl acl 4)
        × (has_acl r 8 ≡ has_acl acl 8)
    unfolding check_columns
    after_insert =
        let k = without_insert acl in (ground arith, ground arith, ground arith, ground arith)

    after_update :
        let r = check_columns acls info userid cols 4 acl in
        (has_acl r 4 ≡ (has_acl acl 4 && not (has_column_perms acls info.relid userid cols 4)))
        × (has_acl r 1 ≡ has_acl acl 1)
        × (has_acl r 2 ≡ has_acl acl 2)
        × (has_acl r 8 ≡ has_acl acl 8)
    unfolding check_columns
    after_update =
        let k = without_update acl in (ground arith, ground arith, ground arith, ground arith)

  table_perms-lacks :
      (userid : ℕ)
      → let missing = missing_table_perms acls info userid in
        let lacks = λ (bit : ℕ).
          has_acl info.required_perms bit
          && not (has_acl (acls.class_aclmask info.relid userid info.required_perms) bit) in
        (has_acl missing acl_select ≡ lacks acl_select)
        × (has_acl missing acl_insert ≡ lacks acl_insert)
        × (has_acl missing acl_update ≡ lacks acl_update)
        × (has_acl missing acl_delete ≡ lacks acl_delete)
  unfolding missing_table_perms
  table_perms-lacks userid =
      let required = info.required_perms in
      let granted = acls.class_aclmask info.relid userid required in
      (
        and_not-select required granted,
        and_not-insert required granted,
        and_not-update required granted,
        and_not-delete required granted,
      )

  -- The privilege is required, and not granted on the table.
  abbrev pub lacks_on_table : ℕ → ℕ → Bool
  lacks_on_table userid bit =
      in_acl info.required_perms bit
      && not (in_acl (acls.class_aclmask info.relid userid info.required_perms) bit)

  -- A column has its number in the set with an offset; SELECT of number 0, the whole row, needs all
  -- columns.
  abbrev granted_on_column : ℕ → ℕ → ℕ → Bool
  granted_on_column userid bit col =
      if col == acls.first_low_invalid && bit == 2
      then acls.attribute_aclcheck_all info.relid userid bit
      else if ltb col acls.first_low_invalid
      then acls.attribute_aclcheck info.relid (negsuc (acls.first_low_invalid - suc col)) userid bit
      else acls.attribute_aclcheck info.relid (pos (col - acls.first_low_invalid)) userid bit

  abbrev granted_on_all : ℕ → ℕ → List ℕ → Bool
  granted_on_all userid bit [] = true
  granted_on_all userid bit (col ∷ cols) =
      granted_on_column userid bit col && granted_on_all userid bit cols

  -- The privilege is not granted on one of the columns; where none is named, on no column at all.
  abbrev pub lacks_on_columns : ℕ → List ℕ → ℕ → Bool
  lacks_on_columns userid [] bit = not (acls.attribute_aclcheck_any info.relid userid bit)
  lacks_on_columns userid (col ∷ cols) bit = not (granted_on_all userid bit (col ∷ cols))

  column_allowed-granted :
      (userid bit col : ℕ)
      → column_allowed acls info.relid userid bit col ≡ granted_on_column userid bit col
  unfolding column_allowed attno
  column_allowed-granted userid bit col = ground arith

  columns_allowed-granted :
      (userid bit : ℕ) (cols : List ℕ)
      → columns_allowed acls info.relid userid bit cols ≡ granted_on_all userid bit cols
  unfolding columns_allowed
  columns_allowed-granted userid bit [] = refl
  columns_allowed-granted userid bit (col ∷ cols) =
      let k = column_allowed-granted userid bit col in
      let rest = columns_allowed-granted userid bit cols in ground arith

  column_perms-lacks :
      (userid : ℕ) (cols : List ℕ) (bit : ℕ)
      → not (has_column_perms acls info.relid userid cols bit) ≡ lacks_on_columns userid cols bit
  unfolding has_column_perms
  column_perms-lacks userid [] bit = refl
  column_perms-lacks userid (col ∷ cols) bit =
      ap not (columns_allowed-granted userid bit (col ∷ cols))

  -- Of the plan's entry, a privilege is missing exactly if it is required and not granted on the
  -- table and, for SELECT, INSERT and UPDATE, not on some column that the entry names for it, or on
  -- no column at all where it names none. SELECT of the whole row needs all columns. The role is
  -- that of `checkAsUser`, and the current one where that is 0.
  pub get_missing_aclmode-has_acl :
      (current_role_oid : ℕ)
      → let userid = if info.check_as_user == 0 then current_role_oid else info.check_as_user in
        let table = lacks_on_table userid in
        let r = get_missing_aclmode acls info current_role_oid in
        (in_acl r acl_select
          ≡ (table acl_select && lacks_on_columns userid info.selected_cols acl_select))
        × (in_acl r acl_insert
            ≡ (table acl_insert && lacks_on_columns userid info.inserted_cols acl_insert))
        × (in_acl r acl_update
            ≡ (table acl_update && lacks_on_columns userid info.updated_cols acl_update))
        × (in_acl r acl_delete ≡ table acl_delete)
  unfolding get_missing_aclmode checked_user has_acl
  get_missing_aclmode-has_acl current_role_oid =
      let userid = if info.check_as_user == 0 then current_role_oid else info.check_as_user in
      let same : checked_user acls info current_role_oid ≡ userid = ground arith in
      let m0 = missing_table_perms acls info userid in
      let m1 = check_columns acls info userid info.selected_cols acl_select m0 in
      let m2 = check_columns acls info userid info.inserted_cols acl_insert m1 in
      let t = table_perms-lacks userid in
      let s = after_select userid info.selected_cols m0 in
      let i = after_insert userid info.inserted_cols m1 in
      let u = after_update userid info.updated_cols m2 in
      let s' = column_perms-lacks userid info.selected_cols acl_select in
      let i' = column_perms-lacks userid info.inserted_cols acl_insert in
      let u' = column_perms-lacks userid info.updated_cols acl_update in
      rw same ((ground arith, ground arith, ground arith, ground arith))
