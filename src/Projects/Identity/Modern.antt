-- ===== src/Projects/Identity/Modern.antt =====
-- A project is classified as modern exactly where its identity can be required.
use uv_studio.Base.{
  ◌≡◌, ◌↔◌, ◌⊎◌, refl, sym, ◌∙◌, inl, inr, true, false, [], ◌∷◌, none, some, Option-cases, Text,
  ◌==◌, text_eq_refl, text_eq_iff, contains, Outcome, ok, raised, ok_inj, Bool-cases,
}
use mathlib.Core.Path.{ap}
use uv_studio.Json.{Json, get, get_or, only_keys, has_keys}
use uv_studio.Projects.Identity.{
  Claims, IdentityError, no_direction, legacy_recipe, not_neutral, direction_ids, studio_recipe,
  direction_of, identity_from_mapping, is_legacy_studio_first, pr63_direction, Classification,
  modern, legacy, invalid, modern_or_invalid, classify_studio, classify_project_identity,
  reread_identity, require_modern_studio_identity, or_missing, studio_extension, exact_keys,
  equals_two, equals_text, is_one,
}

modern_inj : {s t : Text} → modern s ≡ modern t → s ≡ t
modern_inj h = cc

modern_or_invalid_iff :
    (m : Outcome IdentityError Text) (s : Text) → (modern_or_invalid m ≡ modern s) ↔ (m ≡ ok s)
modern_or_invalid_iff (ok t) s = (λ h. ap ok (modern_inj h), λ h. ap modern (ok_inj h))
modern_or_invalid_iff (raised e) s = (λ h. cc, λ h. cc)

-- The extension of a neutral project
pub classify_studio_iff :
    (v : Json) (s : Text)
    → (classify_studio v ≡ modern s)
      ↔ ((is_legacy_studio_first v ≡ false) × (reread_identity v ≡ ok s))
unfolding classify_studio reread_identity
classify_studio_iff v s = elim (Bool-cases (is_legacy_studio_first v)) [
  | inl e ↦ (
    λ h. let k : legacy IdentityError.legacy_studio ≡ modern s = rw (e, classify_studio) at h in cc,
    λ h. let k : true ≡ false = sym e ∙ h.0 in cc,
  )
  | inr e ↦ elim (Option-cases (pr63_direction v)) [
    | inl g ↦ (
      λ h. (
        e,
        rw (g, reread_identity)
            ((modern_or_invalid_iff (identity_from_mapping v) s).0
              (rw (e, g, classify_studio) at h)),
      ),
      λ h.
          rw (e, g, classify_studio)
            ((modern_or_invalid_iff (identity_from_mapping v) s).1
              (rw (g, reread_identity) at h.1)),
    )
    | inr (t, g) ↦ (
      λ h. (e, rw (g, reread_identity) (ap ok (modern_inj (rw (e, g, classify_studio) at h)))),
      λ h.
          rw (e, g, classify_studio)
            (ap modern (ok_inj {E = IdentityError} (rw (g, reread_identity) at h.1))),
    )
  ]
]

Classification-cases :
    (k : Classification)
    → ((s : Text) × (k ≡ modern s)) ⊎ ((e : IdentityError) × ((k ≡ legacy e) ⊎ (k ≡ invalid e)))
Classification-cases (modern s) = inl (s, refl)
Classification-cases (legacy e) = inr (e, inl refl)
Classification-cases (invalid e) = inr (e, inr refl)

pub classify_iff :
    (c : Claims) (s : Text)
    → (classify_project_identity c ≡ modern s) ↔ (
        (c.recipe_id ≡ studio_recipe)
        × (v : Json) × (c.studio ≡ some v)
        × (classify_studio v ≡ modern s))
unfolding classify_project_identity
classify_iff c s = (
  λ h. elim (Bool-cases (c.recipe_id == studio_recipe)) [
    | inl e ↦ elim (Option-cases c.studio) [
      | inl g ↦ let k : legacy no_direction ≡ modern s = rw (g, e) at h in cc
      | inr (v, g) ↦ ((text_eq_iff _ _).0 e, v, g, rw (g, e) at h)
    ]
    | inr e ↦ elim (Option-cases c.studio) [
      | inl g ↦ let k : legacy legacy_recipe ≡ modern s = rw (g, e) at h in cc
      | inr (v, g) ↦ let k : invalid not_neutral ≡ modern s = rw (g, e) at h in cc
    ]
  ],
  λ (e, v, g, h). rw (g, (text_eq_iff c.recipe_id studio_recipe).1 e) h,
)

modern-reread :
    (c : Claims) (s : Text)
    → classify_project_identity c ≡ modern s
    → reread_identity (or_missing c.studio) ≡ ok s
modern-reread c s h =
    let (_, v, g, k) = (classify_iff c s).0 h in rw (g) ((classify_studio_iff v s).0 k).1

-- A modern identity can be required exactly where the project is classified as modern, and the
-- direction that is returned is the one of the classification.
pub require_modern_iff :
    (c : Claims) (direction : Text)
    → (require_modern_studio_identity c ≡ ok direction)
      ↔ (classify_project_identity c ≡ modern direction)
unfolding require_modern_studio_identity
require_modern_iff c direction = elim (Classification-cases (classify_project_identity c)) [
  | inl (s, e) ↦
      let reread = modern-reread c s e in
      (
        λ h.
            e
            ∙ ap modern (
                ok_inj {E = IdentityError}
                  (sym reread ∙ (rw (e, require_modern_studio_identity) at h))),
        λ h. rw (e, require_modern_studio_identity) (reread ∙ ap ok (modern_inj (sym e ∙ h))),
      )
  | inr (r, inl e) ↦ (
    λ h. let k : raised r ≡ ok direction = rw (e, require_modern_studio_identity) at h in cc,
    λ h. cc,
  )
  | inr (r, inr e) ↦ (
    λ h. let k : raised r ≡ ok direction = rw (e, require_modern_studio_identity) at h in cc,
    λ h. cc,
  )
]

pub direction_of-known :
    (s : Text) → contains s direction_ids ≡ true → direction_of (Json.str s) ≡ ok s
unfolding direction_of contains ◌==◌
direction_of-known [] h = cc
direction_of-known (x ∷ xs) h = rw (h) refl

studio_extension-not_legacy :
    (s : Text) → is_legacy_studio_first (Json.obj (studio_extension s)) ≡ false
unfolding is_legacy_studio_first studio_extension exact_keys only_keys contains ◌==◌
studio_extension-not_legacy s = refl

studio_extension-not_pr63 : (s : Text) → pr63_direction (Json.obj (studio_extension s)) ≡ none
unfolding pr63_direction studio_extension exact_keys only_keys has_keys get get_or contains
    equals_two ◌==◌
studio_extension-not_pr63 s = refl

identity_from_mapping-studio_extension :
    (s : Text) → identity_from_mapping (Json.obj (studio_extension s)) ≡ direction_of (Json.str s)
unfolding identity_from_mapping studio_extension only_keys has_keys get get_or contains is_one
    equals_text ◌==◌
identity_from_mapping-studio_extension s = refl

reread-studio_extension :
    (s : Text)
    → contains s direction_ids ≡ true
    → reread_identity (Json.obj (studio_extension s)) ≡ ok s
unfolding reread_identity
reread-studio_extension s h =
    rw (studio_extension-not_pr63 s, reread_identity)
      (identity_from_mapping-studio_extension s ∙ direction_of-known s h)

classify-neutral :
    (v : Json)
    → classify_project_identity (record { recipe_id = studio_recipe; studio = some v })
      ≡ classify_studio v
unfolding classify_project_identity
classify-neutral v = rw (text_eq_refl studio_recipe) refl

-- The extension that is written for a known direction, in a project with the neutral recipe, is
-- read back as that direction.
require_modern-studio_extension :
    (direction : Text)
    → contains direction direction_ids ≡ true
    → require_modern_studio_identity (record {
      recipe_id = studio_recipe;
      studio = some (Json.obj (studio_extension direction));
    })
      ≡ ok direction
require_modern-studio_extension direction h = (require_modern_iff _ direction).1 (
    classify-neutral (Json.obj (studio_extension direction))
    ∙ (classify_studio_iff _ direction).1
        (studio_extension-not_legacy direction, reread-studio_extension direction h))
