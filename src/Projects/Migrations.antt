-- ===== src/Projects/Migrations.antt =====
-- uv_studio/projects/migrations.py: project data is upgraded to the current schema.
use uv_studio.Base.{
  ℕ, zero, suc, ◌+◌, Bool, true, false, not, ◌&&◌, List, [], ◌∷◌, Option, none, some, Text, codes,
  ◌==◌, ltb, nat_eq, Outcome, ok, raised, ◌>>=◌, ◌>>◌, raise_if, or_raise,
}
use uv_studio.Json.{
  ℤ, pos, negsuc, Json, Fields, num, field, end, get, get_or, int_of, set_field, remove_field,
}
use uv_studio.Projects.Errors.{ValidationError}
use uv_studio.Projects.Identifiers.{validate_identifier}
pub mod Upgrading
pub mod Ending

-- `UnsupportedProjectSchema` and the `ProjectValidationError`s; `out_of_fuel` is raised by the model
-- alone.
pub data MigrationError : Type 0 where
  not_object no_version bad_version below_one too_new no_path : MigrationError
  missing_recipe reserved_compatibility bad_result out_of_fuel : MigrationError
  invalid : ValidationError → MigrationError

abbrev pub is_missing : Option Json → Bool
is_missing none = true
is_missing (some _) = false

-- `ProjectCompatibility(recipe_id=...).to_dict()`
abbrev pub compatibility : Text → Json
compatibility id =
    Json.obj (field (codes "schema_version") (num 1) (field (codes "recipe_id") (Json.str id) end))

-- What the migration makes of the data
abbrev pub upgraded : Text → Fields → Fields
upgraded id d =
    set_field (codes "schema_version") (num 2)
      (set_field (codes "compatibility") (compatibility id) (remove_field (codes "recipe_id") d))

-- `_migrate_v1_to_v2`
unfoldable pub migrate_v1_to_v2 : Fields → Outcome MigrationError Fields
unfolding get get_or
migrate_v1_to_v2 d = do
  raise_if (is_missing (get (codes "recipe_id") d)) missing_recipe
  raise_if (not (is_missing (get (codes "compatibility") d))) reserved_compatibility
  id ← or_raise (validate_identifier (get_or (codes "recipe_id") Json.null d)) invalid
  ok (upgraded id d)

-- `_MIGRATIONS.get(version)`, applied
unfoldable pub migration : ℤ → Fields → Outcome MigrationError Fields
unfolding migrate_v1_to_v2
migration (negsuc n) d = raised no_path
migration (pos zero) d = raised no_path
migration (pos (suc zero)) d = migrate_v1_to_v2 d
migration (pos (suc (suc n))) d = raised no_path

-- `version < PROJECT_SCHEMA_VERSION`
abbrev pub is_old : ℤ → Bool
is_old (pos n) = ltb n 2
is_old (negsuc n) = true

-- An int of the data, or the error
abbrev pub int_or : MigrationError → Json → Outcome MigrationError ℤ
int_or e v = elim (int_of v) [ none ↦ raised e | some n ↦ ok n ]

-- The while loop, with as much fuel as it may take turns
unfoldable pub migrate_loop : ℕ → ℤ → Fields → Outcome MigrationError Fields
unfolding migration int_of get_or
migrate_loop zero version d = raised out_of_fuel
migrate_loop (suc fuel) version d = elim (is_old version) [
  | false ↦ ok d
  | true ↦ (do
    current ← migration version d
    next ← int_or bad_result (get_or (codes "schema_version") Json.null current)
    migrate_loop fuel next current)
]

abbrev pub is_below_one : ℤ → Bool
is_below_one (pos n) = ltb n 1
is_below_one (negsuc n) = true

abbrev pub is_above_two : ℤ → Bool
is_above_two (pos n) = ltb 2 n
is_above_two (negsuc n) = false

-- `migrate_project_data`, with fuel for the loop
unfoldable pub migrate_within : ℕ → Json → Outcome MigrationError Fields
unfolding migrate_loop int_of get get_or
migrate_within fuel (Json.obj d) = do
  raise_if (is_missing (get (codes "schema_version") d)) no_version
  version ← int_or bad_version (get_or (codes "schema_version") Json.null d)
  raise_if (is_below_one version) below_one
  raise_if (is_above_two version) too_new
  migrate_loop fuel version d
migrate_within fuel _ = raised not_object

-- The loop takes one turn at most, and looks at the version once more.
unfoldable pub migrate_project_data : Json → Outcome MigrationError Fields
unfolding migrate_within
migrate_project_data v = migrate_within 2 v
