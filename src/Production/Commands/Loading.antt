-- ===== src/Production/Commands/Loading.antt =====
-- Loading a production: it is valid whatever the file holds, and what is written is read back.
use uv_studio.Base.{
  ◌≡◌, refl, true, List, [], ◌∷◌, map, Text, codes, ◌==◌, Option, none, some, Outcome, ok, raised,
  ok_inj, or_raise-eq-ok,
}
use mathlib.Core.Path.{subst}
use uv_studio.Json.{Json, Fields, of_list, get, get_or}
use uv_studio.Projects.Files.{JsonFile}
use uv_studio.Production.State.{
  StateError, is_portable, portable_items, is_positive_int, validate_production_document,
  load_document,
}
use uv_studio.Production.Semantics.Values.{optional_text}
use uv_studio.Production.Semantics.Entities.{
  Scene, Shot, Take, scene_to_dict, shot_to_dict, take_to_dict,
}
use uv_studio.Production.Semantics.Document.{
  Semantics, empty_semantics, semantics_to_dict, semantics_from_dict,
}
use uv_studio.Production.Semantics.Reading.{IsProduction, semantics_from_dict-IsProduction}
use uv_studio.Production.Semantics.Printing.{semantics_from_dict-to_dict}
use uv_studio.Production.Commands.Errors.{semantic}
use uv_studio.Production.Commands.Service.{or_empty, load_semantics}

pub empty_semantics-IsProduction : IsProduction empty_semantics
empty_semantics-IsProduction = record {
  scenes = tt;
  shots = tt;
  takes = tt;
  consistent = record {
    scenes_differ = tt;
    shots_differ = tt;
    takes_differ = tt;
    shot_links = record { down = tt; up = tt };
    take_links = record { down = tt; up = tt };
    accepted = tt;
  };
}

or_empty-IsProduction :
    (m : Outcome StateError Fields) (d : Semantics) → or_empty m ≡ ok d → IsProduction d
or_empty-IsProduction (ok f) d h =
    semantics_from_dict-IsProduction (Json.obj f) d
      (or_raise-eq-ok (semantics_from_dict (Json.obj f)) semantic h)
or_empty-IsProduction (raised StateError.not_found) d h =
    subst IsProduction (ok_inj h) empty_semantics-IsProduction
or_empty-IsProduction (raised StateError.not_object) d h = cc
or_empty-IsProduction (raised StateError.bad_schema) d h = cc
or_empty-IsProduction (raised StateError.not_portable) d h = cc
or_empty-IsProduction (raised StateError.unresolved) d h = cc
or_empty-IsProduction (raised StateError.irregular) d h = cc
or_empty-IsProduction (raised StateError.malformed) d h = cc

-- Whatever the file holds, a production that is loaded is valid.
pub load_semantics-IsProduction :
    (file : JsonFile) (d : Semantics) → load_semantics file ≡ ok d → IsProduction d
unfolding load_semantics
load_semantics-IsProduction file d h = or_empty-IsProduction (load_document file) d h

portable_list :
    {A : Type 0} (f : A → Json)
    → ((x : A) → is_portable (f x) ≡ true)
    → (xs : List A) → portable_items (of_list (map f xs)) ≡ true
unfolding is_portable
portable_list f h [] = refl
portable_list f h (x ∷ xs) = rw (h x, portable_list f h xs) refl

portable_ids : (ids : List Text) → portable_items (of_list (map (λ id. Json.str id) ids)) ≡ true
unfolding is_portable
portable_ids ids = portable_list (λ id. Json.str id) (λ id. refl) ids

portable_scene : (s : Scene) → is_portable (Json.obj (scene_to_dict s)) ≡ true
unfolding is_portable scene_to_dict
portable_scene s = rw (portable_ids s.shot_ids) refl

portable_optional : (o : Option Text) → is_portable (optional_text o) ≡ true
unfolding is_portable optional_text
portable_optional none = refl
portable_optional (some s) = refl

portable_shot : (s : Shot) → is_portable (Json.obj (shot_to_dict s)) ≡ true
unfolding is_portable shot_to_dict
portable_shot s =
    rw
      (
        portable_ids s.reference_ids,
        portable_ids s.take_ids,
        portable_optional s.accepted_take_id,
        portable_ids s.timeline_clip_ids,
      )
      refl

portable_take : (t : Take) → is_portable (Json.obj (take_to_dict t)) ≡ true
unfolding is_portable take_to_dict
portable_take t = refl

portable_semantics : (d : Semantics) → is_portable (Json.obj (semantics_to_dict d)) ≡ true
unfolding is_portable semantics_to_dict
portable_semantics d =
    rw
      (
        portable_list (λ s. Json.obj (scene_to_dict s)) portable_scene d.scenes,
        portable_list (λ s. Json.obj (shot_to_dict s)) portable_shot d.shots,
        portable_list (λ t. Json.obj (take_to_dict t)) portable_take d.takes,
      )
      refl

version_one :
    (d : Semantics)
    → is_positive_int (get_or (codes "schema_version") Json.null (semantics_to_dict d)) ≡ true
unfolding is_positive_int semantics_to_dict get_or get ◌==◌
version_one d = refl

-- A valid production is loaded again from the document that is written for it.
pub load_semantics-to_dict :
    (d : Semantics)
    → IsProduction d
    → load_semantics (JsonFile.document (Json.obj (semantics_to_dict d))) ≡ ok d
unfolding load_semantics load_document validate_production_document
load_semantics-to_dict d v =
    rw (version_one d, portable_semantics d) (rw (semantics_from_dict-to_dict d v) refl)
