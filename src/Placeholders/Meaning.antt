-- ===== src/Placeholders/Meaning.antt =====
-- Which values the placeholders may have.
use supautils.Prelude.{
  ◌≡◌, refl, ap, sym, ◌∙◌, ◌↔◌, inl, inr, Bool, true, false, ◌||◌, ◌==◌, or_iff, some, List, [],
  ◌∷◌, ◌++◌, append-nil, append_assoc, Any, All, CString, arith, if◌then◌else◌, is_nil, Bool-cases,
  ◌≢◌,
}
use mathlib.Core.Bool.{false≢true}
use supautils.Utils.{strstarts}
use supautils.Utils.Wildcard.{strstarts_rest, strstarts-append}
use supautils.Placeholders.{
  Checked, allowed, has_separator, saw_sep, placeholders_check_hook, strsep_from, strstr,
  first_disallowed, restrict_placeholders_check_hook,
}

-- The value has the token somewhere.
pub record Contains (val token : CString) : Type 0 where
  pub before : CString
  pub behind : CString
  pub parts : val ≡ before ++ (token ++ behind)

strstr→Contains : (val token : CString) → strstr val token ≡ true → Contains val token
unfolding strstr
strstr→Contains [] token h =
    let (rest, e) = strstarts_rest [] token h in record { before = []; behind = rest; parts = e }
strstr→Contains (c ∷ val) token h = elim (Bool-cases (strstarts (c ∷ val) token)) [
  | inl q ↦
      let (rest, e) = strstarts_rest (c ∷ val) token q in
      record { before = []; behind = rest; parts = e }
  | inr q ↦
      let k = strstr→Contains val token (ground arith) in
      record { before = c ∷ k.before; behind = k.behind; parts = ap (λ l. c ∷ l) k.parts }
]

found_at : (before token behind : CString) → strstr (before ++ (token ++ behind)) token ≡ true
unfolding strstr
found_at [] [] [] = unfold strstarts in refl
found_at [] [] (x ∷ behind) = ground (arith, strstarts-append [] (x ∷ behind))
found_at [] (y ∷ token) behind = ground (arith, strstarts-append (y ∷ token) behind)
found_at (x ∷ before) token behind = ground (arith, found_at before token behind)

pub strstr_iff : (val token : CString) → (strstr val token ≡ true) ↔ Contains val token
strstr_iff val token = (
  strstr→Contains val token,
  λ k. ap (λ v. strstr v token) k.parts ∙ found_at k.before token k.behind,
)

-- The tokens with the commas between them.
abbrev pub join : List CString → CString
join [] = []
join (x ∷ []) = x
join (x ∷ y ∷ l) = x ++ (b',' ∷ join (y ∷ l))

-- Without a comma.
abbrev pub NoComma : CString → Type 0
NoComma = All (λ c. c ≢ b',')

comma_joins :
    (x token string : CString)
    → join (x ∷ strsep_from token string) ≡ x ++ (b',' ∷ join (strsep_from token string))
unfolding strsep_from
comma_joins x token [] = refl
comma_joins x token (c ∷ string) = elim (Bool-cases (c == b',')) [
  | inl q ↦ ground arith
  | inr q ↦ ground (arith, comma_joins x (token ++ c ∷ []) string)
]

strsep_join : (string token : CString) → join (strsep_from token string) ≡ token ++ string
unfolding strsep_from
strsep_join [] token = sym (append-nil token)
strsep_join (c ∷ string) token = elim (Bool-cases (c == b',')) [
  | inl q ↦
      let e : c ≡ b',' = ground arith in
      ground (arith, comma_joins token [] string, strsep_join string [])
  | inr q ↦ ground (arith, strsep_join string (token ++ c ∷ []), append_assoc token (c ∷ []) string)
]

All-append : (xs ys : CString) → NoComma xs → NoComma ys → NoComma (xs ++ ys)
All-append [] ys h k = k
All-append (x ∷ xs) ys h k = (h.0, All-append xs ys h.1 k)

strsep-NoComma : (string token : CString) → NoComma token → All NoComma (strsep_from token string)
unfolding strsep_from
strsep-NoComma [] token h = (h, tt)
strsep-NoComma (c ∷ string) token h = elim (Bool-cases (c == b',')) [
  | inl q ↦ rw q ((h, strsep-NoComma string [] tt))
  | inr q ↦
      let other : c ≢ b',' = λ e. cc in
      rw q (strsep-NoComma string (token ++ c ∷ []) (All-append token (c ∷ []) h (other, tt)))
]

-- The tokens of the disallowed values are the parts between the commas: none has a comma, and with
-- a comma between one and the next they are the string.
strsep_from-join :
    (values : CString)
    → (join (strsep_from [] values) ≡ values) × All NoComma (strsep_from [] values)
strsep_from-join values = (strsep_join values [], strsep-NoComma values [] tt)

abbrev pub is_allowed : Checked → Bool
is_allowed allowed = true
is_allowed _ = false

abbrev not_allowed : Checked → Bool
not_allowed c = if is_allowed c then false else true

first_step :
    (val token : CString) (tokens : List CString)
    → not_allowed (first_disallowed val (token ∷ tokens))
      ≡ (strstr val token || not_allowed (first_disallowed val tokens))
unfolding first_disallowed
first_step val token tokens = ground arith

first_disallowed_iff :
    (val : CString) (tokens : List CString)
    → (not_allowed (first_disallowed val tokens) ≡ true) ↔ Any (Contains val) tokens
first_disallowed_iff val [] =
    (λ h. absurd (false≢true (unfold first_disallowed in h)), λ h. elim h [ ])
first_disallowed_iff val (token ∷ tokens) =
    rw (first_step val token tokens)
      (or_iff _ _ (strstr_iff val token) (first_disallowed_iff val tokens))

-- A value of a placeholder is turned down exactly if disallowed values are set, and one of the
-- parts between their commas is somewhere in the value in lower case.
pub restrict_placeholders_check_hook_iff :
    (str_tolower : CString → CString) (values newval : CString)
    → let r = restrict_placeholders_check_hook str_tolower (some values) (some newval) in
      (is_allowed r ≡ false)
      ↔ ((is_nil values ≡ false) × Any (Contains (str_tolower newval)) (strsep_from [] values))
unfolding restrict_placeholders_check_hook
restrict_placeholders_check_hook_iff str_tolower [] newval = (λ h. cc, λ h. cc (h.0))
restrict_placeholders_check_hook_iff str_tolower (c ∷ values) newval =
    let k = first_disallowed_iff (str_tolower newval) (strsep_from [] (c ∷ values)) in
    (λ h. (refl, k.0 (ground arith)), λ h. let n = k.1 h.1 in ground arith)

-- A name with a dot.
abbrev pub IsPlaceholder : CString → Type 0
IsPlaceholder = Any (λ c. c ≡ b'.')

has_separator_iff : (l : CString) → (has_separator l ≡ true) ↔ IsPlaceholder l
unfolding has_separator
has_separator_iff [] = (λ h. absurd (false≢true h), λ h. elim h [ ])
has_separator_iff (c ∷ l) =
    or_iff (c == b'.') (has_separator l) (λ h. ground arith, λ h. ground arith)
      (has_separator_iff l)

saw_sep_iff : (l : List CString) → (saw_sep l ≡ true) ↔ Any IsPlaceholder l
unfolding saw_sep
saw_sep_iff [] = (λ h. absurd (false≢true h), λ h. elim h [ ])
saw_sep_iff (x ∷ l) = or_iff (has_separator x) (saw_sep l) (has_separator_iff x) (saw_sep_iff l)

-- A value of `supautils.placeholders` is taken exactly if it is a list of names and one of them, at
-- least, has a dot.
pub placeholders_check_hook_iff :
    (split : CString → Bool × List CString) (val : CString)
    → (placeholders_check_hook split (some val) ≡ allowed)
      ↔ (((split val).0 ≡ true) × Any IsPlaceholder (split val).1)
unfolding placeholders_check_hook
placeholders_check_hook_iff split val =
    let k = saw_sep_iff (split val).1 in
    (λ h. (ground arith, k.0 (ground arith)), λ h. let n = k.1 h.1 in ground (arith, h.0))
