-- ===== src/Examples/Production.antt =====
-- Runs of the theorems on productions: a scene, a shot and two takes are made, and one is accepted.
use uv_studio.Base.{
  inr, In, sym, ◌≡◌, refl, [], ◌∷◌, none, codes, Text, ok, contains, all_distinct, traverse, strip,
  strip_left, is_space, to_set, ◌==◌,
}
use uv_studio.Json.{Json, Items, num, field, end, equals_one}
use uv_studio.Projects.Identifiers.{matches_id, is_id_char, is_alnum, validate_identifier}
use uv_studio.Projects.Files.{Disk, Entry, resolve_project_file, in_roots, locate, is_regular}
use uv_studio.Projects.Paths.{validate_project_relative_path, parts, as_posix}
use uv_studio.Projects.References.{Reference, Project, find_reference}
use uv_studio.Production.Semantics.Values.{
  identifier, text_of, id_tuple, optional_identifier, optional_text,
}
use uv_studio.Production.Semantics.Entities.{
  Scene, Shot, Take, make_scene, make_shot, make_take, shot_arguments,
}
use uv_studio.Production.Semantics.Links.{link_each, link, find_child, same_set}
use uv_studio.Production.Semantics.Document.{
  Semantics, empty_semantics, shot_pass, accepts_other, make_semantics, find_scene, find_shot,
}
use uv_studio.Production.Semantics.Reading.{IsProduction}
use uv_studio.Production.Commands.Updates.{
  CreateScene, CreateShot, RegisterTake, create_scene, create_shot, register_take, list_shot,
  list_take, new_shot, registered, require_visual, first_part, all_registered,
}
use uv_studio.Production.Commands.Registering.{Names, IsVisual}
use uv_studio.Production.Commands.Scenes.{create_scene-IsProduction}
use uv_studio.Production.Commands.Shots.{create_shot_iff, create_shot-IsProduction}
use uv_studio.Production.Commands.Takes.{made_take, register_take_iff, register_take-IsProduction}
use uv_studio.Production.Commands.WithShot.{with_shot}
use uv_studio.Production.Commands.WithTake.{with_take}
use uv_studio.Production.Commands.Loading.{empty_semantics-IsProduction}

abbrev pub text : Text → Json
text s = Json.str s

abbrev pub scene_command : CreateScene
scene_command = record {
  scene_id = text (codes "s1");
  title = text (codes " Opening ");
  summary = text [];
}

abbrev pub scene : Scene
scene = record { scene_id = codes "s1"; title = codes "Opening"; summary = []; shot_ids = [] }

abbrev pub one_scene : Semantics
one_scene = record { scenes = scene ∷ []; shots = []; takes = [] }

pub scene_created : create_scene scene_command empty_semantics ≡ ok one_scene
unfolding create_scene make_scene identifier validate_identifier matches_id is_id_char is_alnum
    text_of strip strip_left is_space id_tuple traverse all_distinct to_set contains make_semantics
    equals_one link_each link find_child shot_pass accepts_other same_set ◌==◌
scene_created = refl

abbrev pub shot_command : CreateShot
shot_command = record {
  shot_id = text (codes "h1");
  scene_id = text (codes "s1");
  intent = text (codes "a door");
  reference_ids = Json.arr Items.nil;
}

abbrev pub shot : Shot
shot = record {
  shot_id = codes "h1";
  scene_id = codes "s1";
  intent = codes "a door";
  reference_ids = [];
  take_ids = [];
  accepted_take_id = none;
  timeline_clip_ids = [];
}

abbrev pub reference : Reference
reference = record {
  id = codes "r1";
  kind = codes "video";
  path = codes "sources/a.mp4";
  metadata = field (codes "duration_us") (num 10000000) end;
}

abbrev pub project : Project
project = record { project_id = codes "p"; sources = reference ∷ []; artifacts = [] }

abbrev pub disk : Disk
disk _ _ = Entry.regular

abbrev pub one_shot : Semantics
one_shot = record {
  scenes = record scene { shot_ids = codes "h1" ∷ [] } ∷ [];
  shots = shot ∷ [];
  takes = [];
}

pub shot_created : create_shot project shot_command one_scene ≡ ok one_shot
unfolding create_shot make_shot list_shot all_registered find_scene optional_identifier make_scene
    identifier validate_identifier matches_id is_id_char is_alnum text_of strip strip_left is_space
    id_tuple traverse all_distinct to_set contains make_semantics equals_one link_each link
    find_child shot_pass accepts_other same_set ◌==◌
shot_created = refl

abbrev pub take_command : Text → RegisterTake
take_command id = record {
  take_id = text id;
  shot_id = text (codes "h1");
  reference_id = text (codes "r1");
  label = text [];
  notes = text [];
}

abbrev pub take : Text → Take
take id = record {
  take_id = id;
  shot_id = codes "h1";
  reference_id = codes "r1";
  label = [];
  notes = [];
}

abbrev pub one_take : Semantics
one_take = record {
  scenes = record scene { shot_ids = codes "h1" ∷ [] } ∷ [];
  shots = record shot { take_ids = codes "t1" ∷ [] } ∷ [];
  takes = take (codes "t1") ∷ [];
}

pub take_registered : register_take disk project (take_command (codes "t1")) one_shot ≡ ok one_take
unfolding register_take make_take make_shot list_take shot_arguments optional_text registered
    require_visual first_part find_reference resolve_project_file in_roots locate is_regular
    validate_project_relative_path parts as_posix find_shot optional_identifier identifier
    validate_identifier matches_id is_id_char is_alnum text_of strip strip_left is_space id_tuple
    traverse all_distinct to_set contains make_semantics equals_one link_each link find_child
    shot_pass accepts_other same_set ◌==◌
take_registered = refl

pub one_scene-IsProduction : IsProduction one_scene
one_scene-IsProduction =
    create_scene-IsProduction scene_command empty_semantics one_scene empty_semantics-IsProduction
      scene_created

pub one_shot-IsProduction : IsProduction one_shot
one_shot-IsProduction =
    create_shot-IsProduction project shot_command one_scene one_shot one_scene-IsProduction
      shot_created

pub one_take-IsProduction : IsProduction one_take
one_take-IsProduction =
    register_take-IsProduction disk project (take_command (codes "t1")) one_shot one_take
      one_shot-IsProduction take_registered

made_scene :
    make_scene scene_command.scene_id scene_command.title scene_command.summary (Json.arr Items.nil)
    ≡ ok scene
unfolding make_scene identifier validate_identifier matches_id is_id_char is_alnum text_of strip
    strip_left is_space id_tuple traverse all_distinct to_set contains
made_scene = refl

found_scene : find_scene one_scene shot_command.scene_id ≡ ok scene
unfolding find_scene identifier validate_identifier matches_id is_id_char is_alnum ◌==◌
found_scene = refl

made_shot : make_shot (new_shot shot_command (codes "s1")) ≡ ok shot
unfolding make_shot optional_identifier identifier validate_identifier matches_id is_id_char
    is_alnum text_of strip strip_left is_space id_tuple traverse all_distinct to_set contains
made_shot = refl

scene_lists : with_shot one_scene (codes "s1") shot ≡ one_shot
unfolding ◌==◌
scene_lists = refl

create_shot_iff_example : create_shot project shot_command one_scene ≡ ok one_shot
create_shot_iff_example =
    (create_shot_iff project shot_command one_scene one_shot one_scene-IsProduction).1
      (scene, shot, found_scene, made_shot, tt, tt, sym scene_lists)

found_shot : find_shot one_shot (text (codes "h1")) ≡ ok shot
unfolding find_shot identifier validate_identifier matches_id is_id_char is_alnum ◌==◌
found_shot = refl

take_valid : made_take (take_command (codes "t1")) (codes "h1") ≡ ok (take (codes "t1"))
unfolding make_take identifier validate_identifier matches_id is_id_char is_alnum text_of strip
    strip_left is_space
take_valid = refl

named : Names project (codes "r1") reference
unfolding ◌==◌
named = refl

visual : IsVisual disk reference
unfolding resolve_project_file in_roots locate validate_project_relative_path strip strip_left
    is_space parts as_posix contains ◌==◌
visual = record {
  kind = inr refl;
  root = codes "sources";
  rest = codes "a.mp4" ∷ [];
  path = refl;
  accepted = In.there (In.there (In.there In.here));
  entry = Entry.regular;
  resolved = refl;
  regular = refl;
}

shot_offers : with_take one_shot (codes "h1") (take (codes "t1")) ≡ one_take
unfolding ◌==◌
shot_offers = refl

register_take_iff_example :
    register_take disk project (take_command (codes "t1")) one_shot ≡ ok one_take
register_take_iff_example =
    (register_take_iff disk project (take_command (codes "t1")) one_shot one_take
        one_shot-IsProduction).1
      (
        shot,
        take (codes "t1"),
        reference,
        found_shot,
        take_valid,
        tt,
        named,
        visual,
        sym shot_offers,
      )
