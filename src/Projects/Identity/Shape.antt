-- ===== src/Projects/Identity/Shape.antt =====
-- What an extension `studio` is read as: its keys and its values.
use uv_studio.Base.{
  ◌≡◌, ◌↔◌, ◌⊎◌, refl, Bool, true, false, not, and-eq-true, Option, none, some, Text, codes,
  text_eq_iff, contains, is_empty, Outcome, ok, raised, ok_inj, ◌>>◌, >>=-eq-ok, raise_if,
  if◌then◌else◌,
}
use mathlib.Core.Path.{subst, ap}
use uv_studio.Json.{Json, Fields, get_or, only_keys, has_keys}
use uv_studio.Projects.Identity.{
  IdentityError, bad_direction, unknown_direction, direction_ids, product_model, identity_keys,
  direction_of, identity_from_mapping, pr63_direction, returned, exact_keys, equals_two,
  equals_text, is_one,
}
use uv_studio.Projects.Identity.Modern.{direction_of-known}

pub equals_text-eq-str : (s : Text) (v : Json) → (equals_text s v ≡ true) ↔ (v ≡ Json.str s)
unfolding equals_text
equals_text-eq-str s (Json.str t) =
    (λ h. ap Json.str ((text_eq_iff t s).0 h), λ h. (text_eq_iff t s).1 cc)
equals_text-eq-str s Json.null = (λ h. cc, λ h. cc)
equals_text-eq-str s (Json.bool b) = (λ h. cc, λ h. cc)
equals_text-eq-str s (Json.int n) = (λ h. cc, λ h. cc)
equals_text-eq-str s (Json.float n) = (λ h. cc, λ h. cc)
equals_text-eq-str s (Json.arr n) = (λ h. cc, λ h. cc)
equals_text-eq-str s (Json.obj n) = (λ h. cc, λ h. cc)

-- A test that must pass before the `rest`
unless_iff :
    {E A : Type 0} (b : Bool) (e : E) (rest : Outcome E A) (a : A)
    → ((raise_if (not b) e >> rest) ≡ ok a) ↔ ((b ≡ true) × (rest ≡ ok a))
unless_iff true e rest a = (λ h. (refl, h), λ h. h.1)
unless_iff false e rest a = (λ h. cc, λ h. cc)

pub str_inj : {s t : Text} → Json.str s ≡ Json.str t → s ≡ t
str_inj h = cc

direction_of-eq-ok :
    (v : Json) (s : Text)
    → (direction_of v ≡ ok s) ↔ ((v ≡ Json.str s) × (contains s direction_ids ≡ true))
unfolding direction_of
direction_of-eq-ok v s = (direction_of_inv v, λ h. rw (h.0) (direction_of-known s h.1))
  where
    direction_of_inv :
        (w : Json) → direction_of w ≡ ok s → (w ≡ Json.str s) × (contains s direction_ids ≡ true)
    direction_of_inv (Json.str t) h =
        let (_, _, h0) = >>=-eq-ok (raise_if (is_empty t) bad_direction) _ h in
        let (known, h1) = (unless_iff (contains t direction_ids) unknown_direction (ok t) s).0 h0 in
        let t_s = ok_inj h1 in
        (ap Json.str t_s, subst (λ x. contains x direction_ids ≡ true) t_s known)
    direction_of_inv Json.null h = cc
    direction_of_inv (Json.bool b) h = cc
    direction_of_inv (Json.int n) h = cc
    direction_of_inv (Json.float n) h = cc
    direction_of_inv (Json.arr n) h = cc
    direction_of_inv (Json.obj n) h = cc

-- The value of a key that is there
abbrev pub value_of : Text → Fields → Json
value_of k d = get_or k Json.null d

-- An object whose keys are those of an identity, of this product, with a known direction
pub record IsIdentity (d : Fields) (direction : Text) : Type 0 where
  pub keys_known : only_keys identity_keys d ≡ true
  pub keys_there : has_keys identity_keys d ≡ true
  pub product : value_of (codes "product_model") d ≡ Json.str product_model
  pub is_direction : value_of (codes "direction_id") d ≡ Json.str direction
  pub known : contains direction direction_ids ≡ true

pub from_mapping_iff :
    (d : Fields) (s : Text)
    → (identity_from_mapping (Json.obj d) ≡ ok s)
      ↔ ((is_one (value_of (codes "schema_version") d) ≡ true) × IsIdentity d s)
unfolding identity_from_mapping
from_mapping_iff d s = (
  λ h.
      let (keys, h0) = (unless_iff _ _ _ s).0 h in
      let (there, h1) = (unless_iff _ _ _ s).0 h0 in
      let (one, h2) = (unless_iff _ _ _ s).0 h1 in
      let (product, h3) = (unless_iff _ _ _ s).0 h2 in
      let (direction, known) = (direction_of-eq-ok _ s).0 h3 in
      (
        one,
        record {
          keys_known = keys;
          keys_there = there;
          product = (equals_text-eq-str product_model _).0 product;
          is_direction = direction;
          known = known;
        },
      ),
  λ (one, i). (unless_iff _ _ _ s).1 (
    i.keys_known,
    (unless_iff _ _ _ s).1 (
      i.keys_there,
      (unless_iff _ _ _ s).1 (
        one,
        (unless_iff _ _ _ s).1 (
          (equals_text-eq-str product_model _).1 i.product,
          (direction_of-eq-ok _ s).1 (i.is_direction, i.known),
        ),
      ),
    ),
  ),
)

returned-eq-some : (m : Outcome IdentityError Text) (s : Text) → (returned m ≡ some s) ↔ (m ≡ ok s)
returned-eq-some (ok t) s = (λ h. ap ok cc, λ h. ap some (ok_inj h))
returned-eq-some (raised e) s = (λ h. cc, λ h. cc)

if_none_iff :
    (b : Bool) (o : Option Text) (s : Text)
    → ((if b then o else none) ≡ some s) ↔ ((b ≡ true) × (o ≡ some s))
if_none_iff true o s = (λ h. (refl, h), λ h. h.1)
if_none_iff false o s = (λ h. cc, λ h. cc)

pub pr63_iff :
    (d : Fields) (s : Text)
    → (pr63_direction (Json.obj d) ≡ some s)
      ↔ ((equals_two (value_of (codes "schema_version") d) ≡ true) × IsIdentity d s)
unfolding pr63_direction exact_keys
pr63_iff d s = (
  λ h.
      let (tests, h0) = (if_none_iff _ _ s).0 h in
      let (h1, product) = (and-eq-true _ _).0 tests in
      let (keys, two) = (and-eq-true _ _).0 h1 in
      let (known, there) = (and-eq-true _ _).0 keys in
      let (direction, is_known) = (direction_of-eq-ok _ s).0 ((returned-eq-some _ s).0 h0) in
      (
        two,
        record {
          keys_known = known;
          keys_there = there;
          product = (equals_text-eq-str product_model _).0 product;
          is_direction = direction;
          known = is_known;
        },
      ),
  λ (two, i). (if_none_iff _ _ s).1 (
    (and-eq-true _ _).1 (
      (and-eq-true _ _).1 ((and-eq-true _ _).1 (i.keys_known, i.keys_there), two),
      (equals_text-eq-str product_model _).1 i.product,
    ),
    (returned-eq-some _ s).1 ((direction_of-eq-ok _ s).1 (i.is_direction, i.known)),
  ),
)

-- The schema versions of an identity: 1, or what is equal to 2
abbrev pub AcceptedSchema : Json → Type 0
AcceptedSchema v = (is_one v ≡ true) ⊎ (equals_two v ≡ true)
