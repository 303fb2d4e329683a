-- ===== src/Projects/Migrations/Ending.antt =====
-- The migration ends, and yields current data, which it then leaves as it is.
use uv_studio.Base.{
  ℕ, zero, suc, ◌≡◌, ◌≢◌, ltb, ◌⊎◌, ◌↔◌, refl, sym, ◌∙◌, inl, inr, true, false, Option, none, some,
  Option-cases, codes, Outcome, ok, raised, ok_inj, ◌>>◌, raise_if, Bool-cases, Outcome-cases,
  arith,
}
use mathlib.Core.Path.{ap}
use uv_studio.Json.{ℤ, pos, negsuc, Json, Fields, num, get, get_or, int_of}
use uv_studio.Projects.Identifiers.{validate_identifier}
use uv_studio.Projects.Migrations.{
  MigrationError, no_version, bad_version, below_one, too_new, missing_recipe,
  reserved_compatibility, out_of_fuel, invalid, is_missing, upgraded, migrate_v1_to_v2, int_or,
  migrate_loop, is_below_one, is_above_two, migrate_within, migrate_project_data,
}
use uv_studio.Projects.Migrations.Upgrading.{
  version-upgraded, Upgrade, get_or-some, migrate_v1_iff, loop_current, loop_old,
}

-- Both bounds of the version are checked before the loop.
abbrev checked_loop : ℕ → ℤ → Fields → Outcome MigrationError Fields
checked_loop f version d = do
  raise_if (is_below_one version) below_one
  raise_if (is_above_two version) too_new
  migrate_loop f version d

-- The loop runs on the first version or the current one, whatever fuel from two on it is given.
checked_cases :
    (version : ℤ) (d : Fields)
    → ((f : ℕ) → checked_loop (suc (suc f)) version d ≡ raised below_one)
      ⊎ ((f : ℕ) → checked_loop (suc (suc f)) version d ≡ raised too_new)
      ⊎ ((version ≡ pos 1) × ((f : ℕ) → checked_loop (suc (suc f)) version d ≡ migrate_v1_to_v2 d))
      ⊎ ((version ≡ pos 2) × ((f : ℕ) → checked_loop (suc (suc f)) version d ≡ ok d))
checked_cases (negsuc n) d = inl (λ f. refl)
checked_cases (pos zero) d = inl (λ f. refl)
checked_cases (pos (suc zero)) d = inr (inr (inl (refl, λ f. loop_old f d)))
checked_cases (pos (suc (suc zero))) d = inr (inr (inr (refl, λ f. loop_current (suc f) d)))
checked_cases (pos (suc (suc (suc n)))) d =
    let low : ltb (suc (suc (suc n))) 1 ≡ false = ground arith in
    let high : ltb 2 (suc (suc (suc n))) ≡ true = ground arith in
    inr (inl (λ f. rw (low, high) refl))

int_of-some : (v : Json) (n : ℤ) → int_of v ≡ some n → v ≡ Json.int n
unfolding int_of
int_of-some (Json.int m) n h = ground arith
int_of-some Json.null n h = cc
int_of-some (Json.bool b) n h = cc
int_of-some (Json.float b) n h = cc
int_of-some (Json.str b) n h = cc
int_of-some (Json.arr b) n h = cc
int_of-some (Json.obj b) n h = cc

int_or-eq :
    (e : MigrationError) (v : Json) (o : Option ℤ)
    → int_of v ≡ o
    → int_or e v ≡ elim o [ none ↦ raised e | some n ↦ ok n ]
int_or-eq e v o h = ap (λ o. elim o [ none ↦ raised e | some n ↦ ok n ]) h

runs_at :
    (f : ℕ) (d : Fields) (n : ℤ)
    → get (codes "schema_version") d ≡ some (Json.int n)
    → migrate_within f (Json.obj d) ≡ checked_loop f n d
unfolding migrate_within int_of
runs_at f d n h = rw (h, get_or-some (codes "schema_version") d (Json.int n) h) refl

-- What the migration of an object comes to, whatever fuel from two on it is given.
abbrev ObjectEnds : Fields → Type 0
ObjectEnds d =
    ((e : MigrationError) × (e ≢ out_of_fuel)
      × ((f : ℕ) → migrate_within (suc (suc f)) (Json.obj d) ≡ raised e))
    ⊎ ((get (codes "schema_version") d ≡ some (num 1))
        × ((f : ℕ) → migrate_within (suc (suc f)) (Json.obj d) ≡ migrate_v1_to_v2 d))
    ⊎ ((get (codes "schema_version") d ≡ some (num 2))
        × ((f : ℕ) → migrate_within (suc (suc f)) (Json.obj d) ≡ ok d))

object-Ends : (d : Fields) → ObjectEnds d
unfolding migrate_within
object-Ends d = elim (Option-cases (get (codes "schema_version") d)) [
  | inl e ↦ inl (no_version, (λ h. cc), λ f. rw e refl)
  | inr (v, e) ↦
      let is = get_or-some (codes "schema_version") d v e in
      elim (Option-cases (int_of v)) [
        | inl g ↦ inl (bad_version, (λ h. cc), λ f. rw (e, is, int_or-eq bad_version v none g) refl)
        | inr (n, g) ↦
            let there = e ∙ ap some (int_of-some v n g) in
            let runs = λ (f : ℕ). runs_at (suc (suc f)) d n there in
            elim (checked_cases n d) [
              | inl h ↦ inl (below_one, (λ q. cc), λ f. runs f ∙ h f)
              | inr (inl h) ↦ inl (too_new, (λ q. cc), λ f. runs f ∙ h f)
              | inr (inr (inl (one, h))) ↦
                  inr (inl (there ∙ ap (λ m. some (Json.int m)) one, λ f. runs f ∙ h f))
              | inr (inr (inr (two, h))) ↦
                  inr (inr (there ∙ ap (λ m. some (Json.int m)) two, λ f. runs f ∙ h f))
            ]
      ]
]

v1_fuel : (d : Fields) → migrate_v1_to_v2 d ≢ raised out_of_fuel
unfolding migrate_v1_to_v2
v1_fuel d h = elim (Bool-cases (is_missing (get (codes "recipe_id") d))) [
  | inl e ↦ let k : raised missing_recipe ≡ raised out_of_fuel = rw e at h in cc
  | inr e ↦ elim (Bool-cases (is_missing (get (codes "compatibility") d))) [
    | inr g ↦ let k : raised reserved_compatibility ≡ raised out_of_fuel = rw (e, g) at h in cc
    | inl g ↦ elim (Outcome-cases (validate_identifier (get_or (codes "recipe_id") Json.null d))) [
      | inl (id, k) ↦ let q : ok (upgraded id d) ≡ raised out_of_fuel = rw (e, g, k) at h in cc
      | inr (x, k) ↦
          let q : ◌≡◌ {A = Outcome MigrationError Fields} (raised (invalid x))
              (raised out_of_fuel) =
            rw (e, g, k) at h in
          cc
    ]
  ]
]

raised_inj :
    {A : Type 0} {e f : MigrationError}
    → ◌≡◌ {A = Outcome MigrationError A} (raised e) (raised f)
    → e ≡ f
raised_inj h = cc

-- The loop ends: with more fuel the migration comes to the same, and it never runs out of fuel.
pub migrate_project_data_total :
    (v : Json)
    → ((f : ℕ) → migrate_within (suc (suc f)) v ≡ migrate_project_data v)
      × (migrate_project_data v ≢ raised out_of_fuel)
unfolding migrate_project_data migrate_within
migrate_project_data_total (Json.obj d) = elim (object-Ends d) [
  | inl (e, ne, r) ↦ ((λ f. r f ∙ sym (r 0)), λ h. ne (raised_inj (sym (r 0) ∙ h)))
  | inr (inl (_, r)) ↦ ((λ f. r f ∙ sym (r 0)), λ h. v1_fuel d (sym (r 0) ∙ h))
  | inr (inr (_, r)) ↦ ((λ f. r f ∙ sym (r 0)), λ h. let k = sym (r 0) ∙ h in cc)
]
migrate_project_data_total Json.null = ((λ f. refl), λ h. cc)
migrate_project_data_total (Json.bool b) = ((λ f. refl), λ h. cc)
migrate_project_data_total (Json.int b) = ((λ f. refl), λ h. cc)
migrate_project_data_total (Json.float b) = ((λ f. refl), λ h. cc)
migrate_project_data_total (Json.str b) = ((λ f. refl), λ h. cc)
migrate_project_data_total (Json.arr b) = ((λ f. refl), λ h. cc)

-- An object is migrated exactly if its schema version is 2, and it is returned as it is, or its
-- version is 1, its recipe is an identifier and it has no compatibility state, and it is upgraded.
pub migrate_project_data_iff :
    (d e : Fields)
    → (migrate_project_data (Json.obj d) ≡ ok e) ↔ (
        ((get (codes "schema_version") d ≡ some (num 2)) × (e ≡ d))
        ⊎ ((get (codes "schema_version") d ≡ some (num 1)) × Upgrade d e))
unfolding migrate_project_data
migrate_project_data_iff d e = (
  λ h. elim (object-Ends d) [
    | inl (x, ne, r) ↦ let k = sym (r 0) ∙ h in cc
    | inr (inl (one, r)) ↦ inr (one, (migrate_v1_iff d e).0 (sym (r 0) ∙ h))
    | inr (inr (two, r)) ↦ inl (two, sym (ok_inj (sym (r 0) ∙ h)))
  ],
  λ s. elim s [
    | inl (two, same) ↦ runs_at 2 d (pos 2) two ∙ loop_current 1 d ∙ ap ok (sym same)
    | inr (one, up) ↦ runs_at 2 d (pos 1) one ∙ loop_old 0 d ∙ (migrate_v1_iff d e).1 up
  ],
)

-- Data that was migrated is current: migrating it again returns it as it is.
migrate_project_data_idem :
    (d e : Fields)
    → migrate_project_data (Json.obj d) ≡ ok e
    → migrate_project_data (Json.obj e) ≡ ok e
migrate_project_data_idem d e h = (migrate_project_data_iff e e).1 (
    inl (elim ((migrate_project_data_iff d e).0 h) [
      | inl (two, same) ↦ (ap (λ x. get (codes "schema_version") x) same ∙ two, refl)
      | inr (_, (id, _, _, _, same)) ↦
          (ap (λ x. get (codes "schema_version") x) same ∙ version-upgraded id d, refl)
    ]))
