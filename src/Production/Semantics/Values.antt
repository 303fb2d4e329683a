-- ===== src/Production/Semantics/Values.antt =====
-- The checks of single values in production/semantics.py: identifiers, texts, and lists of ids.
use uv_studio.Base.{
  ℕ, Bool, not, ◌&&◌, List, [], ◌∷◌, map, Option, none, some, Text, ltb, length, is_empty, strip,
  all_distinct, Outcome, ok, raised, ◌>>=◌, ◌>>◌, raise_if, or_raise, traverse,
}
use uv_studio.Json.{Json, Fields, of_list, to_list}
use uv_studio.Projects.Errors.{ValidationError}
use uv_studio.Projects.Identifiers.{validate_identifier}

-- `ProductionSemanticError`, a constructor for each message; `not_iterable` is the `TypeError` of
-- `tuple(value)`.
pub data SemanticError : Type 0 where
  bad_identifier : ValidationError → SemanticError
  not_text empty_text long_text ids_not_list repeated_id not_iterable : SemanticError
  scene_not_object unknown_scene_fields missing_scene_fields : SemanticError
  shot_not_object unknown_shot_fields missing_shot_fields : SemanticError
  take_not_object unknown_take_fields missing_take_fields : SemanticError
  bad_schema duplicate_scene duplicate_shot duplicate_take : SemanticError
  unknown_shot foreign_shot shot_linked_twice unlinked_shots : SemanticError
  unknown_scene unknown_take foreign_take take_linked_twice : SemanticError
  not_candidate unlinked_takes : SemanticError
  scene_not_found shot_not_found take_not_found : SemanticError
  document_not_object unknown_document_fields bad_document_kind : SemanticError
  scenes_not_list shots_not_list takes_not_list : SemanticError

-- `_MAX_TEXT_LENGTH`
abbrev pub max_text_length : ℕ
max_text_length = 4000

-- `_identifier`
unfoldable pub identifier : Json → Outcome SemanticError Text
identifier v = or_raise (validate_identifier v) bad_identifier

-- `_text`; the arguments are its `required` and its `limit`.
unfoldable pub text_of : Bool → ℕ → Json → Outcome SemanticError Text
text_of required limit (Json.str s) = do
  raise_if (required && is_empty (strip s)) empty_text
  raise_if (ltb limit (length (strip s))) long_text
  ok (strip s)
text_of required limit _ = raised not_text

-- `_id_tuple`
unfoldable pub id_tuple : Json → Outcome SemanticError (List Text)
unfolding identifier
id_tuple (Json.arr items) = do
  ids ← traverse identifier (to_list items)
  raise_if (not (all_distinct ids)) repeated_id
  ok ids
id_tuple _ = raised ids_not_list

-- The keys of a dict, as values
abbrev pub key_values : Fields → List Json
key_values Fields.end = []
key_values (Fields.field k v d) = Json.str k ∷ key_values d

-- `tuple(value)`: a text gives its characters, a dict its keys.
unfoldable pub tuple_of : Json → Outcome SemanticError Json
tuple_of (Json.arr items) = ok (Json.arr items)
tuple_of (Json.str s) = ok (Json.arr (of_list (map (λ c. Json.str (c ∷ [])) s)))
tuple_of (Json.obj d) = ok (Json.arr (of_list (key_values d)))
tuple_of _ = raised not_iterable

-- `list(ids)`, in JSON
abbrev pub id_list : List Text → Json
id_list ids = Json.arr (of_list (map (λ id. Json.str id) ids))

-- None, or an identifier
unfoldable pub optional_identifier : Json → Outcome SemanticError (Option Text)
unfolding identifier
optional_identifier Json.null = ok none
optional_identifier v = identifier v >>= λ id. ok (some id)

unfoldable pub optional_text : Option Text → Json
optional_text none = Json.null
optional_text (some s) = Json.str s
