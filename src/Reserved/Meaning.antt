-- ===== src/Reserved/Meaning.antt =====
-- Which roles the lists name.
use supautils.Prelude.{
  ℕ, ◌≡◌, sym, ◌↔◌, Bool, true, false, ◌++◌, some, List, [], ◌∷◌, or_iff, ap, ◌||◌, arith, ◌&&◌,
  not, ◌≢◌, str_eq_refl, Any, CString, str_eq, str_eq_iff,
}
use mathlib.Core.Bool.{false≢true}
use supautils.Utils.{remove_ending_wildcard}
use supautils.Utils.Wildcard.{Pattern, literal, wildcard, remove-Pattern, remove_star}
use supautils.Reserved.{
  is_reserved_in, is_reserved_role, find_name, found, is_hint_role, confirm_reserved_memberships,
}

-- An element reserves a role that it names: as it stands, where it does not end in the wildcard
-- `*`, and with the `*` behind the name, where configurable roles are not let through.
pub data Reserves (allow : Bool) (e target : CString) : Type 0 where
  fixed : e ≡ target → ((x : ℕ) (p : CString) → e ≢ x ∷ (p ++ b'*' ∷ [])) → Reserves allow e target
  configurable :
      (x : ℕ) (p : CString)
      → e ≡ x ∷ (p ++ b'*' ∷ [])
      → target ≡ x ∷ p
      → allow ≡ false
      → Reserves allow e target

-- The two tests of the loop's body in one.
abbrev reserves_test : Bool → CString → Bool × CString → Bool
reserves_test allow t (w, r) = str_eq t r && not (w && allow)

test→Reserves :
    (allow : Bool) (t e : CString)
    → Pattern e (remove_ending_wildcard e)
    → reserves_test allow t (remove_ending_wildcard e) ≡ true
    → Reserves allow e t
test→Reserves allow t e (literal r) h =
    fixed (sym ((str_eq_iff t e).0 (ground (arith, ap (reserves_test allow t) r))))
      λ x p q. cc (r, remove_star x p, ap remove_ending_wildcard q)
test→Reserves allow t e (wildcard x p q r) h =
    configurable x p q ((str_eq_iff t (x ∷ p)).0 (ground (arith, ap (reserves_test allow t) r)))
      (ground (arith, ap (reserves_test allow t) r))

Reserves→test :
    (allow : Bool) (t e : CString)
    → Reserves allow e t
    → Pattern e (remove_ending_wildcard e)
    → reserves_test allow t (remove_ending_wildcard e) ≡ true
Reserves→test allow t e (fixed q n) (literal r) = rw r (rw q (ground (arith, str_eq_refl t)))
Reserves→test allow t e (fixed q n) (wildcard x p o r) = absurd (n x p o)
Reserves→test allow t e (configurable x p q o a) pat =
    rw q (rw (remove_star x p) (rw o (ground (arith, str_eq_refl (x ∷ p)))))

is_reserved_in_step :
    (allow : Bool) (t e : CString) (l : List CString)
    → is_reserved_in t allow (e ∷ l)
      ≡ (reserves_test allow t (remove_ending_wildcard e) || is_reserved_in t allow l)
unfolding is_reserved_in
is_reserved_in_step allow t e l = ground arith

is_reserved_in_iff :
    (allow : Bool) (t : CString) (l : List CString)
    → (is_reserved_in t allow l ≡ true) ↔ Any (λ e. Reserves allow e t) l
is_reserved_in_iff allow t [] =
    (λ h. absurd (false≢true (unfold is_reserved_in in h)), λ h. elim h [ ])
is_reserved_in_iff allow t (e ∷ l) = rw (is_reserved_in_step allow t e l) (
    or_iff _ _
      (
        test→Reserves allow t e (remove-Pattern e),
        λ r. Reserves→test allow t e r (remove-Pattern e),
      )
      (is_reserved_in_iff allow t l))

-- With `reserved_roles` set, a role is reserved exactly if an element of the list reserves it: one
-- that is the role's name and does not end in a wildcard, or, unless configurable roles are let
-- through, one that is the role's name followed by `*`.
pub is_reserved_role_iff :
    (split : CString → Bool × List CString) (reserved_roles target : CString) (allow : Bool)
    → (is_reserved_role split (some reserved_roles) target allow ≡ true)
      ↔ Any (λ e. Reserves allow e target) (split reserved_roles).1
unfolding is_reserved_role
is_reserved_role_iff split reserved_roles target allow =
    is_reserved_in_iff allow target (split reserved_roles).1

str_eq_iff_sym : (t x : CString) → (str_eq t x ≡ true) ↔ (x ≡ t)
str_eq_iff_sym t x = (λ h. sym ((str_eq_iff t x).0 h), λ h. (str_eq_iff t x).1 (sym h))

found-find_name :
    (t x : CString) (l : List CString)
    → found (find_name t (x ∷ l)) ≡ (str_eq t x || found (find_name t l))
unfolding find_name
found-find_name t x l = ground arith

find_name-eq : (t x : CString) (l : List CString) → find_name t l ≡ some x → x ≡ t
unfolding find_name
find_name-eq t x [] h = cc
find_name-eq t x (y ∷ l) h = ground (arith, str_eq_iff t y, find_name-eq t x l)

find_name_iff :
    (t : CString) (l : List CString) → (found (find_name t l) ≡ true) ↔ Any (λ e. e ≡ t) l
find_name_iff t [] = (λ h. absurd (false≢true (unfold find_name in h)), λ h. elim h [ ])
find_name_iff t (x ∷ l) =
    rw (found-find_name t x l) (or_iff _ _ (str_eq_iff_sym t x) (find_name_iff t l))

-- With `reserved_memberships` set, the check raises its error exactly for the names in the list,
-- and the name in the error is the one that was asked about.
pub confirm_reserved_memberships_iff :
    (split : CString → Bool × List CString) (reserved_memberships target : CString)
    → let raised = confirm_reserved_memberships split (some reserved_memberships) target in
      ((found raised ≡ true) ↔ Any (λ e. e ≡ target) (split reserved_memberships).1)
      × ((name : CString) → raised ≡ some name → name ≡ target)
unfolding confirm_reserved_memberships
confirm_reserved_memberships_iff split reserved_memberships target = (
  find_name_iff target (split reserved_memberships).1,
  λ name. find_name-eq target name (split reserved_memberships).1,
)

-- A role gets hints exactly if it is in the list `hint_roles`.
pub is_hint_role_iff :
    (split : CString → Bool × List CString) (hint_roles target : CString)
    → (is_hint_role split (some hint_roles) (some target) ≡ true)
      ↔ Any (λ e. e ≡ target) (split hint_roles).1
unfolding is_hint_role
is_hint_role_iff split hint_roles target = find_name_iff target (split hint_roles).1
