-- ===== src/Examples/Acceptance.antt =====
-- Runs of the theorems on the productions that are made in Examples/Production.
use uv_studio.Base.{
  ◌≡◌, ◌↔◌, refl, true, false, [], ◌∷◌, none, some, codes, ok, raised, contains, all_distinct,
  traverse, strip, strip_left, is_space, to_set, ◌==◌,
}
use uv_studio.Json.{int_of, set_field, Json, Items, num, field, end, equals_one, get, get_or}
use uv_studio.Projects.Identifiers.{matches_id, is_id_char, is_alnum, validate_identifier}
use uv_studio.Projects.Files.{JsonFile, resolve_project_file, in_roots, locate, is_regular}
use uv_studio.Projects.Paths.{validate_project_relative_path, parts, as_posix}
use uv_studio.Projects.References.{Reference, find_reference}
use uv_studio.Projects.Timeline.Clip.{Clip, make_clip, check_bounds, time_us, flag, title_of}
use uv_studio.Projects.Timeline.Track.{TrackKind, make_track, kind_of}
use uv_studio.Projects.Timeline.Document.{make_timeline}
use uv_studio.Projects.Timeline.Store.{load, positive_duration}
use uv_studio.Projects.Identity.{studio_recipe, studio_extension}
use uv_studio.Production.Semantics.Values.{
  identifier, text_of, id_tuple, optional_identifier, optional_text,
}
use uv_studio.Production.Semantics.Entities.{make_shot, shot_arguments}
use uv_studio.Production.Semantics.Links.{link_each, link, find_child, same_set}
use uv_studio.Production.Semantics.Document.{
  empty_semantics, shot_pass, accepts_other, make_semantics, find_shot, find_take,
  semantics_to_dict,
}
use uv_studio.Production.Semantics.Reading.{
  IsProduction, IsProduction-ListsOnce, semantics_from_dict-IsProduction,
}
use uv_studio.Production.Semantics.Printing.{semantics_from_dict-to_dict}
use uv_studio.Production.Semantics.Construction.{IsSemantics, make_semantics_iff}
use uv_studio.Production.Commands.Errors.{already_accepted}
use uv_studio.Production.Commands.Updates.{registered, require_visual, first_part}
use uv_studio.Production.Commands.Acceptance.{
  Acceptance, Choice, choose, carry_out, accept_take, add_video_clip, put_clip, missing_track,
  accepted_clip, mark_accepted,
}
use uv_studio.Production.Commands.Binding.{
  AcceptTake, validate_source_range, within_media, or_new, is_falsy, annotate, bindings_of,
  binds_shot, replace_reference,
}
use uv_studio.Projects.Timeline.Clip.{timeline_end_us, source_end_us}
use uv_studio.Projects.Timeline.Track.{check_non_overlapping}
use uv_studio.Base.Sort.{sort, insert_sorted}
use uv_studio.Projects.Transactions.Commit.{Services}
use uv_studio.Production.Commands.Accepting.{Accepted, accept_take-Accepted}
use uv_studio.Production.Commands.Once.{accept_take_once}
use uv_studio.Production.Commands.Service.{
  creates, shoots, Surroundings, just_production, compute, load_semantics,
}
use uv_studio.Production.Commands.Loading.{load_semantics-to_dict}
use uv_studio.Production.Commands.Running.{Reached, Reached-IsProduction}
use uv_studio.Examples.Production.{
  scene_command, one_scene, scene_created, shot_command, shot, reference, project, disk, one_shot,
  shot_created, take, one_take, one_take-IsProduction,
}

-- The document of a production with an accepted take is consistent, and is built.
make_semantics_iff_example :
    (make_semantics (num 1) one_take.scenes one_take.shots one_take.takes ≡ ok one_take)
    ↔ ((equals_one (num 1) ≡ true) × IsSemantics one_take)
make_semantics_iff_example =
    make_semantics_iff (num 1) one_take
      (IsProduction-ListsOnce one_take-IsProduction.scenes one_take-IsProduction.shots)

load_semantics-to_dict_example :
    load_semantics (JsonFile.document (Json.obj (semantics_to_dict one_take))) ≡ ok one_take
load_semantics-to_dict_example = load_semantics-to_dict one_take one_take-IsProduction

semantics_from_dict-IsProduction_example : IsProduction one_take
semantics_from_dict-IsProduction_example =
    semantics_from_dict-IsProduction (Json.obj (semantics_to_dict one_take)) one_take
      (semantics_from_dict-to_dict one_take one_take-IsProduction)

abbrev accept_command : AcceptTake
accept_command = record {
  take_id = Json.str (codes "t1");
  timeline_start_us = num 0;
  duration_us = num 2000000;
  source_start_us = num 500000;
  track_id = Json.str (codes "v");
  clip_id = Json.null;
}

abbrev annotated : Reference
annotated = record reference {
  metadata = field (codes "duration_us") (num 10000000) (
      field (codes "production_role") (Json.str (codes "accepted_take")) (
        field (codes "production_acceptances")
          (Json.arr (
            Items.cons
              (Json.obj (
                field (codes "shot_id") (Json.str (codes "h1")) (
                  field (codes "take_id") (Json.str (codes "t1")) (
                    field (codes "timeline_clip_id") (Json.str (codes "clip_0f")) (
                      field (codes "source_start_us") (num 500000)
                        (field (codes "duration_us") (num 2000000) end))))))
              Items.nil))
          end));
}

abbrev clip : Clip
clip = record {
  clip_id = codes "clip_0f";
  reference_id = codes "r1";
  timeline_start_us = 0;
  source_start_us = 500000;
  duration_us = 2000000;
  enabled = true;
  muted = false;
}

abbrev accepted : Acceptance
accepted = record {
  project = record project { sources = annotated ∷ [] };
  production = record one_take {
    shots =
        record shot {
          take_ids = codes "t1" ∷ [];
          accepted_take_id = some (codes "t1");
          timeline_clip_ids = codes "clip_0f" ∷ [];
        }
        ∷ [];
  };
  timeline = record {
    timeline_id = codes "main";
    tracks =
        record {
          track_id = codes "v";
          kind = TrackKind.video;
          title = codes "Production Video";
          clips = clip ∷ [];
          enabled = true;
          muted = false;
        }
        ∷ [];
  };
}

abbrev chosen : Choice
chosen = record {
  take = take (codes "t1");
  shot = record shot { take_ids = codes "t1" ∷ [] };
  reference = reference;
  track_id = codes "v";
  clip_id = codes "clip_0f";
}

take_chosen : choose disk project (codes "0f") accept_command one_take ≡ ok chosen
unfolding choose find_take find_shot identifier validate_identifier matches_id is_id_char is_alnum
    registered find_reference require_visual first_part resolve_project_file in_roots locate
    is_regular validate_project_relative_path strip strip_left is_space parts as_posix contains
    validate_source_range int_of within_media get positive_duration or_new is_falsy ◌==◌
take_chosen = refl

take_accepted : carry_out project JsonFile.no_file accept_command one_take chosen ≡ ok accepted
unfolding carry_out annotate bindings_of binds_shot set_field replace_reference add_video_clip
    put_clip missing_track accepted_clip mark_accepted get get_or load make_clip check_bounds
    timeline_end_us source_end_us time_us flag make_track kind_of title_of check_non_overlapping
    make_timeline make_shot shot_arguments optional_text optional_identifier identifier
    validate_identifier matches_id is_id_char is_alnum text_of strip strip_left is_space id_tuple
    traverse all_distinct to_set contains make_semantics equals_one link_each link find_child
    shot_pass accepts_other same_set sort insert_sorted ◌==◌
take_accepted = refl

accepts_t1 :
    accept_take disk project JsonFile.no_file (codes "0f") accept_command one_take ≡ ok accepted
unfolding accept_take
accepts_t1 = rw (take_chosen) take_accepted

accept_take-Accepted_example : Accepted accept_command one_take accepted
accept_take-Accepted_example =
    accept_take-Accepted disk project JsonFile.no_file (codes "0f") accept_command one_take accepted
      one_take-IsProduction accepts_t1

t1_found : find_take one_take (Json.str (codes "t1")) ≡ ok (take (codes "t1"))
unfolding find_take identifier validate_identifier matches_id is_id_char is_alnum ◌==◌
t1_found = refl

-- The same take again, elsewhere on the timeline
accept_take_once_example :
    accept_take disk project JsonFile.malformed
      (codes "10")
      (record accept_command { timeline_start_us = num 9000000 })
      accepted.production
    ≡ raised already_accepted
accept_take_once_example =
    accept_take_once disk disk project project JsonFile.no_file JsonFile.malformed (codes "0f")
      (codes "10") accept_command (record accept_command { timeline_start_us = num 9000000 })
      one_take accepted (take (codes "t1")) (take (codes "t1")) one_take-IsProduction accepts_t1
      t1_found t1_found refl

abbrev surroundings : Surroundings
surroundings = record {
  disk = disk;
  project = ok project;
  claims = record {
    recipe_id = studio_recipe;
    studio = some (Json.obj (studio_extension (codes "free_project")));
  };
  print_project = λ p. end;
  loads = λ bytes. none;
}

step_scene :
    compute surroundings project JsonFile.no_file (creates scene_command) empty_semantics
    ≡ ok (just_production one_scene)
unfolding compute
step_scene = rw (scene_created) refl

step_shot :
    compute surroundings project JsonFile.no_file (shoots shot_command) one_scene
    ≡ ok (just_production one_shot)
unfolding compute
step_shot = rw (shot_created) refl

reached : Reached one_shot
reached =
    Reached.step surroundings project JsonFile.no_file (shoots shot_command)
      (Reached.step surroundings project JsonFile.no_file (creates scene_command) Reached.start
        step_scene)
      step_shot

Reached-IsProduction_example : IsProduction one_shot
Reached-IsProduction_example = Reached-IsProduction reached

-- A digest that is the content, a serializer that knows one document, and checks that pass
abbrev services : Services
services = record {
  sha256 = λ bytes. bytes;
  dumps = λ d. some (3 ∷ []);
  validate = λ current staged. ok tt;
  authorized = λ current staged. ok tt;
}
