-- ===== src/Examples/Identities.antt =====
-- Runs of the theorems on identities: a project with the schema version of an older release.
use uv_studio.Base.{◌≡◌, refl, inr, true, codes, ok, some, contains, ◌==◌}
use uv_studio.Json.{Json, Fields, num, field, end, get, get_or, only_keys, has_keys}
use uv_studio.Projects.Identity.{
  Claims, studio_recipe, product_model, equals_two, require_modern_studio_identity,
}
use uv_studio.Projects.Identity.Shape.{IsIdentity}
use uv_studio.Projects.Identity.Required.{require_modern-IsIdentity_iff}

abbrev extension : Fields
extension = field (codes "schema_version") (num 2) (
    field (codes "product_model") (Json.str product_model)
      (field (codes "direction_id") (Json.str (codes "commercial")) end))

abbrev claims : Claims
claims = record { recipe_id = studio_recipe; studio = some (Json.obj extension) }

extension-IsIdentity : IsIdentity extension (codes "commercial")
unfolding only_keys has_keys get get_or contains ◌==◌
extension-IsIdentity = record {
  keys_known = refl;
  keys_there = refl;
  product = refl;
  is_direction = refl;
  known = refl;
}

has_two : equals_two (get_or (codes "schema_version") Json.null extension) ≡ true
unfolding get get_or equals_two ◌==◌
has_two = refl

require_modern-IsIdentity_iff_example :
    require_modern_studio_identity claims ≡ ok (codes "commercial")
require_modern-IsIdentity_iff_example =
    (require_modern-IsIdentity_iff claims (codes "commercial")).1
      (refl, extension, refl, inr has_two, extension-IsIdentity)
