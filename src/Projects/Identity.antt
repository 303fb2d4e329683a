-- ===== src/Projects/Identity.antt =====
-- uv_studio/projects/identity.py: what kind of project this is, by its compatibility recipe and the
-- extension `studio`; with the ids of uv_studio/production/directions.py.
pub mod Modern
pub mod Shape
pub mod Required
use uv_studio.Base.{
  Bool, true, false, not, ◌&&◌, List, [], ◌∷◌, Option, none, some, Text, codes, ◌==◌, nat_eq,
  contains, is_empty, Outcome, ok, raised, ◌>>=◌, ◌>>◌, raise_if, if◌then◌else◌,
}
use uv_studio.Json.{
  Json, pos, Fields, field, end, num, get, get_or, only_keys, has_keys, equals_one,
}

-- What identity looks at: the recipe of the compatibility state, and `extensions.get("studio")`,
-- none where the key is missing.
pub record Claims : Type 0 where
  pub recipe_id : Text
  pub studio : Option Json

-- `StudioIdentityError`, a constructor for each reason
pub data IdentityError : Type 0 where
  no_direction legacy_recipe legacy_studio not_neutral : IdentityError
  not_object unknown_fields missing_fields : IdentityError
  bad_schema bad_product_model bad_direction unknown_direction : IdentityError

-- `_DIRECTION_BY_ID`
abbrev pub direction_ids : List Text
direction_ids =
    codes "micro_drama"
    ∷ codes "commercial"
    ∷ codes "music_video"
    ∷ codes "narrated_video"
    ∷ codes "dub_battle"
    ∷ codes "free_project"
    ∷ []

-- `STUDIO_COMPAT_RECIPE_ID` and `STUDIO_PRODUCT_MODEL`
abbrev pub studio_recipe : Text
studio_recipe = codes "studio_v2"

abbrev pub product_model : Text
product_model = codes "production_directions"

-- `value == text`
unfoldable pub equals_text : Text → Json → Bool
equals_text s (Json.str t) = t == s
equals_text s _ = false

-- `value == 2`, where `2.0` is equal to 2 as well
unfoldable pub equals_two : Json → Bool
equals_two (Json.int (pos n)) = nat_eq n 2
equals_two (Json.float bits) = nat_eq bits 0x4000000000000000
equals_two _ = false

-- `isinstance(value, int) and not isinstance(value, bool) and value == 1`
unfoldable pub is_one : Json → Bool
is_one (Json.int (pos n)) = nat_eq n 1
is_one _ = false

abbrev pub identity_keys : List Text
identity_keys = codes "schema_version" ∷ codes "product_model" ∷ codes "direction_id" ∷ []

abbrev pub legacy_keys : List Text
legacy_keys = codes "schema_version" ∷ codes "product_model" ∷ []

-- `set(value) == {...}`
unfoldable pub exact_keys : List Text → Fields → Bool
exact_keys keys d = only_keys keys d && has_keys keys d

-- `isinstance(direction_id, str) and direction_id`, and a known direction
unfoldable pub direction_of : Json → Outcome IdentityError Text
direction_of (Json.str s) = do
  raise_if (is_empty s) bad_direction
  raise_if (not (contains s direction_ids)) unknown_direction
  ok s
direction_of _ = raised bad_direction

-- `StudioProjectIdentity.from_mapping`, which gives the direction
unfoldable pub identity_from_mapping : Json → Outcome IdentityError Text
unfolding is_one equals_text direction_of
identity_from_mapping (Json.obj d) = do
  raise_if (not (only_keys identity_keys d)) unknown_fields
  raise_if (not (has_keys identity_keys d)) missing_fields
  raise_if (not (is_one (get_or (codes "schema_version") Json.null d))) bad_schema
  raise_if (not (equals_text product_model (get_or (codes "product_model") Json.null d)))
      bad_product_model
  direction_of (get_or (codes "direction_id") Json.null d)
identity_from_mapping _ = raised not_object

-- `_is_legacy_studio_first`
unfoldable pub is_legacy_studio_first : Json → Bool
unfolding exact_keys equals_text
is_legacy_studio_first (Json.obj d) =
    exact_keys legacy_keys d
    && equals_one (get_or (codes "schema_version") Json.null d)
    && equals_text (codes "studio_first") (get_or (codes "product_model") Json.null d)
is_legacy_studio_first _ = false

abbrev pub returned : Outcome IdentityError Text → Option Text
returned (ok s) = some s
returned (raised e) = none

-- `_pr63_direction_v2`
unfoldable pub pr63_direction : Json → Option Text
unfolding exact_keys equals_two equals_text direction_of
pr63_direction (Json.obj d) =
    if exact_keys identity_keys d
      && equals_two (get_or (codes "schema_version") Json.null d)
      && equals_text product_model (get_or (codes "product_model") Json.null d)
    then returned (direction_of (get_or (codes "direction_id") Json.null d))
    else none
pr63_direction _ = none

-- `ProjectIdentityProjection`
pub data Classification : Type 0 where
  modern : Text → Classification
  legacy : IdentityError → Classification
  invalid : IdentityError → Classification

abbrev pub modern_or_invalid : Outcome IdentityError Text → Classification
modern_or_invalid (ok direction) = modern direction
modern_or_invalid (raised e) = invalid e

-- The end of `classify_project_identity`, for an extension of a neutral project
unfoldable pub classify_studio : Json → Classification
unfolding is_legacy_studio_first pr63_direction identity_from_mapping
classify_studio v =
    if is_legacy_studio_first v then legacy legacy_studio else elim (pr63_direction v) [
      | some direction ↦ modern direction
      | none ↦ modern_or_invalid (identity_from_mapping v)
    ]

-- `classify_project_identity`
unfoldable pub classify_project_identity : Claims → Classification
unfolding classify_studio
classify_project_identity c = elim c.studio [
  | none ↦ if c.recipe_id == studio_recipe then legacy no_direction else legacy legacy_recipe
  | some v ↦ if c.recipe_id == studio_recipe then classify_studio v else invalid not_neutral
]

-- `require_valid_project_identity`
unfoldable pub require_valid_project_identity : Claims → Outcome IdentityError Classification
unfolding classify_project_identity
require_valid_project_identity c = elim (classify_project_identity c) [
  | modern direction ↦ ok (modern direction)
  | legacy e ↦ ok (legacy e)
  | invalid e ↦ raised e
]

-- The identity that is read anew once the project is known to be modern
unfoldable pub reread_identity : Json → Outcome IdentityError Text
unfolding pr63_direction identity_from_mapping
reread_identity v = elim (pr63_direction v) [
  | some direction ↦ ok direction
  | none ↦ identity_from_mapping v
]

abbrev pub or_missing : Option Json → Json
or_missing none = Json.null
or_missing (some v) = v

-- `require_modern_studio_identity`, which gives the direction
unfoldable pub require_modern_studio_identity : Claims → Outcome IdentityError Text
unfolding classify_project_identity reread_identity
require_modern_studio_identity c = elim (classify_project_identity c) [
  | modern _ ↦ reread_identity (or_missing c.studio)
  | legacy e ↦ raised e
  | invalid e ↦ raised e
]

-- `StudioProjectIdentity.to_dict`
unfoldable pub studio_extension : Text → Fields
studio_extension direction = field (codes "schema_version") (num 1) (
    field (codes "product_model") (Json.str product_model)
      (field (codes "direction_id") (Json.str direction) end))
