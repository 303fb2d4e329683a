-- ===== src/Projects/Migrations/Upgrading.antt =====
-- What one turn of the migration makes of data of the first version.
use uv_studio.Base.{
  ℕ, suc, ◌≡◌, ◌↔◌, refl, sym, ◌∙◌, inl, inr, true, false, not, Option, none, some, Option-cases,
  Text, codes, ◌==◌, text_eq_refl, ok, ok_inj, >>=-eq-ok, raise_if, raise_if-eq-ok,
  raise_unless_inv, or_raise, or_raise-eq-ok, Bool-cases, Outcome-cases,
}
use mathlib.Core.Path.{ap}
use uv_studio.Json.{pos, Json, Fields, num, get, get_or, int_of, set_field}
use uv_studio.Projects.Identifiers.{
  matches_id, validate_identifier, validate_identifier-eq_self, validate_identifier-eq-ok,
}
use uv_studio.Projects.Migrations.{
  missing_recipe, reserved_compatibility, invalid, is_missing, upgraded, migrate_v1_to_v2,
  migration, migrate_loop,
}

get-set_field : (k : Text) (v : Json) (d : Fields) → get k (set_field k v d) ≡ some v
unfolding get set_field
get-set_field k v Fields.end = rw (text_eq_refl k) refl
get-set_field k v (Fields.field j w d) = elim (Bool-cases (k == j)) [
  | inl e ↦ rw (e, text_eq_refl k) refl
  | inr e ↦ rw (e, e) (get-set_field k v d)
]

pub version-upgraded :
    (id : Text) (d : Fields) → get (codes "schema_version") (upgraded id d) ≡ some (num 2)
version-upgraded id d = get-set_field (codes "schema_version") (num 2) _

is_missing-none : (o : Option Json) → is_missing o ≡ true → o ≡ none
is_missing-none none h = refl
is_missing-none (some v) h = cc

-- What the migration needs, and makes
abbrev pub Upgrade : Fields → Fields → Type 0
Upgrade d e =
    (id : Text) × (get (codes "recipe_id") d ≡ some (Json.str id))
    × (matches_id id ≡ true)
    × (get (codes "compatibility") d ≡ none)
    × (e ≡ upgraded id d)

present :
    (k : Text) (d : Fields) (v : Json)
    → get_or k Json.null d ≡ v
    → is_missing (get k d) ≡ false
    → get k d ≡ some v
unfolding get_or
present k d v h m = elim (Option-cases (get k d)) [
  | inl e ↦ let a : true ≡ false = rw e at m in cc
  | inr (w, e) ↦ let same : w ≡ v = rw (e, get_or) at h in e ∙ ap some same
]

pub get_or-some : (k : Text) (d : Fields) (v : Json) → get k d ≡ some v → get_or k Json.null d ≡ v
unfolding get_or
get_or-some k d v h = rw (h, get_or) refl

pub migrate_v1_iff : (d e : Fields) → (migrate_v1_to_v2 d ≡ ok e) ↔ Upgrade d e
unfolding migrate_v1_to_v2
migrate_v1_iff d e = (
  λ h.
      let (_, e0, h0) =
        >>=-eq-ok (raise_if (is_missing (get (codes "recipe_id") d)) missing_recipe) _ h in
      let (_, e1, h1) =
        >>=-eq-ok
          (raise_if (not (is_missing (get (codes "compatibility") d))) reserved_compatibility) _
          h0 in
      let named = validate_identifier (get_or (codes "recipe_id") Json.null d) in
      let (id, e2, h2) = >>=-eq-ok (or_raise named invalid) _ h1 in
      let (is, matches) =
        validate_identifier-eq-ok (get_or (codes "recipe_id") Json.null d) id
          (or_raise-eq-ok named invalid e2) in
      (
        id,
        present (codes "recipe_id") d (Json.str id) is (raise_if-eq-ok _ missing_recipe e0),
        matches,
        is_missing-none (get (codes "compatibility") d)
            (raise_unless_inv _ reserved_compatibility e1),
        sym (ok_inj h2),
      ),
  λ (id, there, matches, free, same).
      rw
        (
          there,
          free,
          get_or-some (codes "recipe_id") d (Json.str id) there,
          validate_identifier-eq_self id matches,
          same,
        )
        refl,
)

-- Current data is returned as it is.
pub loop_current : (f : ℕ) (d : Fields) → migrate_loop (suc f) (pos 2) d ≡ ok d
unfolding migrate_loop
loop_current f d = refl

-- Old data takes one turn.
pub loop_old : (f : ℕ) (d : Fields) → migrate_loop (suc (suc f)) (pos 1) d ≡ migrate_v1_to_v2 d
unfolding migrate_loop migration int_of
loop_old f d = elim (Outcome-cases (migrate_v1_to_v2 d)) [
  | inr (e, h) ↦ rw h refl
  | inl (e, h) ↦
      let (id, _, _, _, same) = (migrate_v1_iff d e).0 h in
      let two =
        get_or-some (codes "schema_version") (upgraded id d) (num 2) (version-upgraded id d) in
      let next : get_or (codes "schema_version") Json.null e ≡ num 2 = rw same two in
      rw (h, next) refl
]
