-- ===== src/Json/Laws.antt =====
-- A state that no action changes is not changed by a value.
use supautils.Prelude.{◌≡◌, refl, ◌∙◌, ap}
use supautils.Json.{
  Json, Items, Fields, scalar, array, object, no_items, item, no_fields, field, Event, object_start,
  object_end, array_start, array_end, object_field_start, walk, walk_items, walk_fields,
}

-- No action changes this state.
pub record Stuck {S : Type 0} (action : Event → S → S) (s : S) : Type 0 where
  pub at : (e : Event) → action e s ≡ s

module _ {S : Type 0} (action : Event → S → S) (s : S) (stuck : Stuck action s) where
  pub walk-Stuck : (j : Json) → walk action j s ≡ s
  unfolding walk
  walk-Stuck j =
      elim j
        as (λ j. walk action j s ≡ s) (λ xs. walk_items action xs s ≡ s) (λ fs.
          walk_fields action fs s ≡ s) [
            | scalar tokentype token ↦ stuck.at _
            | array (xs → ih) ↦
                ap (λ t. action array_end (walk_items action xs t)) (stuck.at array_start)
                ∙ ap (action array_end) ih
                ∙ stuck.at array_end
            | object (fs → ih) ↦
                ap (λ t. action object_end (walk_fields action fs t)) (stuck.at object_start)
                ∙ ap (action object_end) ih
                ∙ stuck.at object_end
            | no_items ↦ refl
            | item (x → ih) (xs → ihs) ↦ ap (walk_items action xs) ih ∙ ihs
            | no_fields ↦ refl
            | field fname (x → ih) (fs → ihs) ↦
                ap (λ t. walk_fields action fs (walk action x t))
                  (stuck.at (object_field_start fname))
                ∙ ap (walk_fields action fs) ih
                ∙ ihs
          ]

  pub walk_items-Stuck : (xs : Items) → walk_items action xs s ≡ s
  unfolding walk
  walk_items-Stuck no_items = refl
  walk_items-Stuck (item x xs) = ap (walk_items action xs) (walk-Stuck x) ∙ walk_items-Stuck xs

  pub walk_fields-Stuck : (fs : Fields) → walk_fields action fs s ≡ s
  unfolding walk
  walk_fields-Stuck no_fields = refl
  walk_fields-Stuck (field fname x fs) =
      ap (λ t. walk_fields action fs (walk action x t)) (stuck.at (object_field_start fname))
      ∙ ap (walk_fields action fs) (walk-Stuck x)
      ∙ walk_fields-Stuck fs

-- Every action keeps the property.
pub record Invariant {S : Type 0} (action : Event → S → S) (P : S → Type 0) : Type 0 where
  pub at : (e : Event) (s : S) → P s → P (action e s)

module _ {S : Type 0} (action : Event → S → S) (P : S → Type 0) (keeps : Invariant action P) where
  pub walk-Invariant : (j : Json) (s : S) → P s → P (walk action j s)
  unfolding walk
  walk-Invariant j =
      elim j
        as (λ j. (s : S) → P s → P (walk action j s)) (λ xs.
          (s : S) → P s → P (walk_items action xs s)) (λ fs.
            (s : S) → P s → P (walk_fields action fs s)) [
              | scalar tokentype token ↦ λ s h. keeps.at _ s h
              | array (xs → ih) ↦ λ s h. keeps.at _ _ (ih _ (keeps.at _ s h))
              | object (fs → ih) ↦ λ s h. keeps.at _ _ (ih _ (keeps.at _ s h))
              | no_items ↦ λ s h. h
              | item (x → ih) (xs → ihs) ↦ λ s h. ihs _ (ih s h)
              | no_fields ↦ λ s h. h
              | field fname (x → ih) (fs → ihs) ↦ λ s h. ihs _ (ih _ (keeps.at _ s h))
            ]

  pub walk_items-Invariant : (xs : Items) (s : S) → P s → P (walk_items action xs s)
  unfolding walk
  walk_items-Invariant no_items s h = h
  walk_items-Invariant (item x xs) s h = walk_items-Invariant xs _ (walk-Invariant x s h)

  pub walk_fields-Invariant : (fs : Fields) (s : S) → P s → P (walk_fields action fs s)
  unfolding walk
  walk_fields-Invariant no_fields s h = h
  walk_fields-Invariant (field fname x fs) s h =
      walk_fields-Invariant fs _ (walk-Invariant x _ (keeps.at _ s h))
