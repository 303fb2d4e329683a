-- ===== src/Projects/Identity/Required.antt =====
-- What the identity of a project must be for a direction to be required of it.
use uv_studio.Base.{
  ◌≡◌, ◌↔◌, ◌⊎◌, refl, sym, ◌∙◌, inl, inr, true, false, and-eq-true, Option, none, some,
  Option-cases, Text, codes, ◌==◌, text_eq_iff, ok, ok_inj, Bool-cases,
}
use mathlib.Core.Path.{ap}
use uv_studio.Json.{Json, Fields}
use uv_studio.Projects.Identity.{
  Claims, IdentityError, studio_recipe, product_model, is_legacy_studio_first, pr63_direction,
  reread_identity, require_modern_studio_identity,
}
use uv_studio.Projects.Identity.Modern.{classify_iff, classify_studio_iff, require_modern_iff}
use uv_studio.Projects.Identity.Shape.{
  value_of, IsIdentity, AcceptedSchema, from_mapping_iff, pr63_iff, str_inj, equals_text-eq-str,
}

-- An identity is read anew, by either reading.
reread-of_identity :
    (d : Fields) (s : Text)
    → AcceptedSchema (value_of (codes "schema_version") d)
    → IsIdentity d s
    → reread_identity (Json.obj d) ≡ ok s
unfolding reread_identity
reread-of_identity d s schema i = elim (Option-cases (pr63_direction (Json.obj d))) [
  | inr (t, g) ↦
      let (_, other) = (pr63_iff d t).0 g in
      rw (g, reread_identity) (ap ok (str_inj (sym other.is_direction ∙ i.is_direction)))
  | inl g ↦ elim schema [
    | inl one ↦ rw (g, reread_identity) ((from_mapping_iff d s).1 (one, i))
    | inr two ↦
        let k : ◌≡◌ {A = Option Text} none (some s) = sym g ∙ (pr63_iff d s).1 (two, i) in cc
  ]
]

reread_iff :
    (v : Json) (s : Text)
    → (reread_identity v ≡ ok s) ↔ (
        (d : Fields) × (v ≡ Json.obj d)
        × AcceptedSchema (value_of (codes "schema_version") d)
        × IsIdentity d s)
unfolding reread_identity
reread_iff v s = (
  reread_inv v (Option-cases (pr63_direction v)),
  λ (d, e, schema, i). rw (e) (reread-of_identity d s schema i),
)
  where
    reread_inv :
        (w : Json)
        → (pr63_direction w ≡ none) ⊎ ((t : Text) × (pr63_direction w ≡ some t))
        → reread_identity w ≡ ok s
        → (d : Fields) × (w ≡ Json.obj d)
          × AcceptedSchema (value_of (codes "schema_version") d)
          × IsIdentity d s
    reread_inv (Json.obj d) (inl g) h =
        let (one, i) = (from_mapping_iff d s).0 (rw (g, reread_identity) at h) in
        (d, refl, inl one, i)
    reread_inv (Json.obj d) (inr (t, g)) h =
        let t_s = ok_inj {E = IdentityError} (rw (g, reread_identity) at h) in
        let (two, i) = (pr63_iff d s).0 (g ∙ ap some t_s) in (d, refl, inr two, i)
    reread_inv Json.null _ h = cc
    reread_inv (Json.bool b) _ h = cc
    reread_inv (Json.int n) _ h = cc
    reread_inv (Json.float n) _ h = cc
    reread_inv (Json.str t) _ h = cc
    reread_inv (Json.arr n) _ h = cc

not_legacy : (d : Fields) (s : Text) → IsIdentity d s → is_legacy_studio_first (Json.obj d) ≡ false
unfolding is_legacy_studio_first ◌==◌
not_legacy d s i = elim (Bool-cases (is_legacy_studio_first (Json.obj d))) [
  | inr e ↦ e
  | inl e ↦
      let first : value_of (codes "product_model") d ≡ Json.str (codes "studio_first") =
        (equals_text-eq-str (codes "studio_first") _).0 ((and-eq-true _ _).0 e).1 in
      let k : product_model == codes "studio_first" ≡ true =
        (text_eq_iff _ _).1 (str_inj (sym i.product ∙ first)) in
      cc
]

-- What the identity of a project must be for a direction to be required of it: the neutral
-- recipe, and an extension with exactly the keys of an identity, of this product, with a schema
-- version that is accepted and a known direction.
pub require_modern-IsIdentity_iff :
    (c : Claims) (direction : Text)
    → (require_modern_studio_identity c ≡ ok direction) ↔ (
        (c.recipe_id ≡ studio_recipe)
        × (d : Fields) × (c.studio ≡ some (Json.obj d))
        × AcceptedSchema (value_of (codes "schema_version") d)
        × IsIdentity d direction)
require_modern-IsIdentity_iff c direction = (
  λ h.
      let (e, v, g, k) = (classify_iff c direction).0 ((require_modern_iff c direction).0 h) in
      let (d, w, schema, i) =
        (reread_iff v direction).0 ((classify_studio_iff v direction).0 k).1 in
      (e, d, g ∙ ap some w, schema, i),
  λ (e, d, g, schema, i). (require_modern_iff c direction).1 (
      (classify_iff c direction).1 (
        e,
        Json.obj d,
        g,
        (classify_studio_iff _ direction).1
            (not_legacy d direction i, reread-of_identity d direction schema i),
      )),
)
