-- ===== src/Examples/Migrations.antt =====
-- Runs of the theorems on migrations: a project of the first version.
use uv_studio.Base.{◌≡◌, ◌≢◌, refl, inr, true, none, some, ℕ, suc, codes, ok, raised, ◌==◌}
use uv_studio.Json.{Json, Fields, num, field, end, get, set_field, remove_field}
use uv_studio.Projects.Identifiers.{matches_id, is_id_char, is_alnum}
use uv_studio.Projects.Migrations.{out_of_fuel, upgraded, migrate_within, migrate_project_data}
use uv_studio.Projects.Migrations.Ending.{migrate_project_data_total, migrate_project_data_iff}

abbrev old : Fields
old =
    field (codes "schema_version") (num 1) (field (codes "recipe_id") (Json.str (codes "dub")) end)

abbrev new : Fields
new = field (codes "schema_version") (num 2) (
    field (codes "compatibility")
      (Json.obj (
        field (codes "schema_version") (num 1)
          (field (codes "recipe_id") (Json.str (codes "dub")) end)))
      end)

first_version : get (codes "schema_version") old ≡ some (num 1)
unfolding get ◌==◌
first_version = refl

named : get (codes "recipe_id") old ≡ some (Json.str (codes "dub"))
unfolding get ◌==◌
named = refl

free : get (codes "compatibility") old ≡ none
unfolding get ◌==◌
free = refl

matches : matches_id (codes "dub") ≡ true
unfolding matches_id is_id_char is_alnum
matches = refl

made : new ≡ upgraded (codes "dub") old
unfolding set_field remove_field ◌==◌
made = refl

migrate_project_data_iff_example : migrate_project_data (Json.obj old) ≡ ok new
migrate_project_data_iff_example =
    (migrate_project_data_iff old new).1
      (inr (first_version, (codes "dub", named, matches, free, made)))

migrate_project_data_total_example :
    ((f : ℕ) → migrate_within (suc (suc f)) (Json.obj old) ≡ migrate_project_data (Json.obj old))
    × (migrate_project_data (Json.obj old) ≢ raised out_of_fuel)
migrate_project_data_total_example = migrate_project_data_total (Json.obj old)
