-- ===== src/Overrides/Setting/Entries.antt =====
-- The entry that an extension of a document becomes in the array.
use supautils.Prelude.{
  ◌≡◌, refl, ap, ap₂, ◌∙◌, ℕ, ◌+◌, false, Option, none, some, List, [], ◌∷◌, map, CString, arith,
  ◌==◌,
}
use supautils.Json.Objects.{apply_all}
use supautils.Json.Arrays.{Fills}
use supautils.Overrides.{ExtensionParameterOverrides}
use supautils.Overrides.Options.{later}
use supautils.Overrides.Parser.{ParseState, set_entry, set_name, set_schema}
use supautils.Overrides.Schemas.{Override, apply_schema, apply_override_of, open_entry}
use supautils.Overrides.Setting.{blank}

abbrev pub last_of : List CString → Option CString
last_of [] = none
last_of (schema ∷ schemas) = later (some schema) (last_of schemas)

-- The extension's name and the last of its schemas.
abbrev pub entry_for : Override → ExtensionParameterOverrides
entry_for (name, schemas) = record { name = some name; schema = last_of schemas }

-- The entry of an extension with its schemas, the later ones over the earlier ones.
abbrev pub entry_of : Override → ExtensionParameterOverrides → ExtensionParameterOverrides
entry_of (name, schemas) x = apply_all set_schema schemas (set_name name x)

module _ (f : ExtensionParameterOverrides → ExtensionParameterOverrides) (p : ParseState) where
  set_entry-here : (n : ℕ) → p.total_epos ≡ n → (set_entry f p).epos n ≡ f (p.epos n)
  unfolding set_entry
  set_entry-here n h = ground arith

  set_entry-other : (i : ℕ) → (p.total_epos == i) ≡ false → (set_entry f p).epos i ≡ p.epos i
  unfolding set_entry
  set_entry-other i h = ground arith

  set_entry-total : (set_entry f p).total_epos ≡ p.total_epos
  unfolding set_entry
  set_entry-total = refl

  set_entry-msg : (set_entry f p).error_msg ≡ p.error_msg
  unfolding set_entry
  set_entry-msg = refl

schemas-total :
    (l : List CString) (p : ParseState) → (apply_all apply_schema l p).total_epos ≡ p.total_epos
schemas-total [] p = refl
schemas-total (x ∷ l) p = schemas-total l (apply_schema x p) ∙ set_entry-total (set_schema x) p

schemas-msg :
    (l : List CString) (p : ParseState) → (apply_all apply_schema l p).error_msg ≡ p.error_msg
schemas-msg [] p = refl
schemas-msg (x ∷ l) p = schemas-msg l (apply_schema x p) ∙ set_entry-msg (set_schema x) p

schemas-here :
    (l : List CString) (p : ParseState) (n : ℕ)
    → p.total_epos ≡ n
    → (apply_all apply_schema l p).epos n ≡ apply_all set_schema l (p.epos n)
schemas-here [] p n h = refl
schemas-here (x ∷ l) p n h =
    schemas-here l (apply_schema x p) n (set_entry-total (set_schema x) p ∙ h)
    ∙ ap (apply_all set_schema l) (set_entry-here (set_schema x) p n h)

schemas-other :
    (l : List CString) (p : ParseState) (i : ℕ)
    → (p.total_epos == i) ≡ false
    → (apply_all apply_schema l p).epos i ≡ p.epos i
schemas-other [] p i h = refl
schemas-other (x ∷ l) p i h =
    schemas-other l (apply_schema x p) i (ap (λ n. n == i) (set_entry-total (set_schema x) p) ∙ h)
    ∙ set_entry-other (set_schema x) p i h

pub override-Fills :
    Fills (λ (p : ParseState). p.epos) (λ p. p.total_epos) apply_override_of entry_of
override-Fills = record {
  counted = λ x p.
      ap (λ n. n + 1) (schemas-total x.1 (open_entry x.0 p) ∙ set_entry-total (set_name x.0) p);
  here = λ x p.
      schemas-here x.1 (open_entry x.0 p) p.total_epos (set_entry-total (set_name x.0) p)
      ∙ ap (apply_all set_schema x.1) (set_entry-here (set_name x.0) p p.total_epos refl);
  other = λ x p i h.
      schemas-other x.1 (open_entry x.0 p) i
        (ap (λ n. n == i) (set_entry-total (set_name x.0) p) ∙ h)
      ∙ set_entry-other (set_name x.0) p i h;
}

pub overrides-msg :
    (l : List Override) (p : ParseState) → (apply_all apply_override_of l p).error_msg ≡ p.error_msg
overrides-msg [] p = refl
overrides-msg (x ∷ l) p =
    overrides-msg l (apply_override_of x p)
    ∙ schemas-msg x.1 (open_entry x.0 p)
    ∙ set_entry-msg (set_name x.0) p

later-some :
    (o : Option CString) (s : CString) (o' : Option CString)
    → later (some s) o' ≡ later o (later (some s) o')
later-some o s none = refl
later-some o s (some s') = refl

later-none : (o : Option CString) → later none o ≡ o
later-none none = refl
later-none (some s) = refl

schemas-entry :
    (schemas : List CString) (name schema : Option CString)
    → apply_all set_schema schemas (record { name = name; schema = schema })
      ≡ record { name = name; schema = later schema (last_of schemas) }
schemas-entry [] name schema = refl
schemas-entry (s ∷ schemas) name schema =
    schemas-entry schemas name (some s)
    ∙ ap (λ o. record { name = name; schema = o }) (later-some schema s (last_of schemas))

entry_of-entry_for : (x : Override) → entry_of x blank ≡ entry_for x
entry_of-entry_for (name, schemas) =
    schemas-entry schemas (some name) none
    ∙ ap (λ o. record { name = some name; schema = o }) (later-none (last_of schemas))

pub entries_for : (l : List Override) → map (λ x. entry_of x blank) l ≡ map entry_for l
entries_for [] = refl
entries_for (x ∷ l) = ap₂ (λ e es. e ∷ es) (entry_of-entry_for x) (entries_for l)
