-- ===== src/Json.antt =====
-- JSON texts as `pg_parse_json` of Postgres reads them: it calls the semantic actions of a
-- `JsonSemAction` in the order of the text. The parsers of src/policy_grants.c,
-- src/drop_trigger_grants.c, src/constrained_extensions.c and
-- src/extensions_parameter_overrides.c are such actions.
pub mod Laws
pub mod Objects
pub mod Arrays
use supautils.Prelude.{List, [], ◌∷◌, CString}

-- `JsonTokenType` of a scalar
pub data JsonTokenType : Type 0 where
  json_token_string json_token_number json_token_true json_token_false json_token_null :
      JsonTokenType

-- A value, the elements of an array and the fields of an object.
mutual
  pub data Json : Type 0 where
    scalar : JsonTokenType → CString → Json
    array : Items → Json
    object : Fields → Json

  pub data Items : Type 0 where
    no_items : Items
    item : Json → Items → Items

  pub data Fields : Type 0 where
    no_fields : Fields
    field : CString → Json → Fields → Fields

-- The semantic actions that the parsers set; `token` is that of a scalar.
pub data Event : Type 0 where
  object_start object_end array_start array_end : Event
  object_field_start : CString → Event
  scalar_token : JsonTokenType → CString → Event

-- What `pg_parse_json` makes of a text: the value, or the actions that it called before it found
-- that the text is no JSON.
pub data Reading : Type 0 where
  whole : Json → Reading
  broken : List Event → Reading

module _ {S : Type 0} (action : Event → S → S) where
  unfoldable mutual
    pub walk : Json → S → S
    walk (scalar tokentype token) s = action (scalar_token tokentype token) s
    walk (array xs) s = action array_end (walk_items xs (action array_start s))
    walk (object fs) s = action object_end (walk_fields fs (action object_start s))

    pub walk_items : Items → S → S
    walk_items no_items s = s
    walk_items (item x xs) s = walk_items xs (walk x s)

    pub walk_fields : Fields → S → S
    walk_fields no_fields s = s
    walk_fields (field fname x fs) s = walk_fields fs (walk x (action (object_field_start fname) s))

  unfoldable pub walk_events : List Event → S → S
  walk_events [] s = s
  walk_events (e ∷ es) s = walk_events es (action e s)
