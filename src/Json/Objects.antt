-- ===== src/Json/Objects.antt =====
-- The fields of an object, where one field's run is known: either its value stands for something
-- that is applied to the state, or the state is bad from then on.
use supautils.Prelude.{
  ◌≡◌, refl, ap, sym, subst, ◌∙◌, Option, none, some, List, [], ◌∷◌, CString, arith,
}
use supautils.Json.{Json, Fields, no_fields, field, Event, object_field_start, walk, walk_fields}
use supautils.Json.Laws.{Invariant, walk_fields-Invariant}

-- What the fields stand for, where each of them stands for something.
abbrev pub all_fields : {A : Type 0} → (CString → Json → Option A) → Fields → Option (List A)
all_fields of no_fields = some []
all_fields of (field fname x fs) = elim (of fname x) [
  | none ↦ none
  | some a ↦ elim (all_fields of fs) [ none ↦ none | some rest ↦ some (a ∷ rest) ]
]

abbrev pub apply_all : {A S : Type 0} → (A → S → S) → List A → S → S
apply_all apply [] s = s
apply_all apply (a ∷ rest) s = apply_all apply rest (apply a s)

module _ {S A : Type 0} (action : Event → S → S) (of : CString → Json → Option A)
    (apply : A → S → S) (Bad : S → Type 0) where
  pub data FieldRun (fname : CString) (x : Json) (s : S) : Type 0 where
    taken :
        (a : A)
        → of fname x ≡ some a
        → walk action x (action (object_field_start fname) s) ≡ apply a s
        → FieldRun fname x s
    refused :
        of fname x ≡ none
        → Bad (walk action x (action (object_field_start fname) s))
        → FieldRun fname x s

  pub data FieldsRun (fs : Fields) (s : S) : Type 0 where
    all_taken :
        (rest : List A)
        → all_fields of fs ≡ some rest
        → walk_fields action fs s ≡ apply_all apply rest s
        → FieldsRun fs s
    one_refused : all_fields of fs ≡ none → Bad (walk_fields action fs s) → FieldsRun fs s

  module _ (fname : CString) (x : Json) (fs : Fields) (s : S) where
    taken_first :
        (a : A)
        → of fname x ≡ some a
        → walk action x (action (object_field_start fname) s) ≡ apply a s
        → FieldsRun fs (apply a s)
        → FieldsRun (field fname x fs) s
    unfolding walk
    taken_first a e w (all_taken rest f v) =
        all_taken (a ∷ rest) (ground arith) (ap (walk_fields action fs) w ∙ v)
    taken_first a e w (one_refused f bad) =
        one_refused (ground arith) (subst Bad (sym (ap (walk_fields action fs) w)) bad)

    refused_first :
        Invariant action Bad
        → of fname x ≡ none
        → Bad (walk action x (action (object_field_start fname) s))
        → FieldsRun (field fname x fs) s
    unfolding walk
    refused_first keeps e bad =
        one_refused (ground arith) (walk_fields-Invariant action Bad keeps fs _ bad)

  module _ (Good : S → Type 0) (keeps : Invariant action Bad)
      (good : (a : A) (s : S) → Good s → Good (apply a s))
      (run : (fname : CString) (x : Json) (s : S) → Good s → FieldRun fname x s) where
    pub fields_run : (fs : Fields) (s : S) → Good s → FieldsRun fs s
    unfolding walk
    fields_run no_fields s h = all_taken [] refl refl
    fields_run (field fname x fs) s h = elim (run fname x s h) [
      | taken a e w ↦ taken_first fname x fs s a e w (fields_run fs (apply a s) (good a s h))
      | refused e bad ↦ refused_first fname x fs s keeps e bad
    ]
