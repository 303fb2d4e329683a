-- ===== src/Production/Commands/Updates.antt =====
-- What create_scene, create_shot and register_take compute from the loaded production.
use uv_studio.Base.{
  true, not, List, [], ◌∷◌, ◌++◌, none, some, Text, codes, ◌==◌, any, contains, Outcome, ok, raised,
  ◌>>=◌, ◌>>◌, raise_if, or_raise, traverse, if◌then◌else◌,
}
use uv_studio.Json.{Json, Items, num}
use uv_studio.Projects.Identifiers.{validate_identifier}
use uv_studio.Projects.Paths.{parts}
use uv_studio.Projects.Files.{Disk, resolve_project_file, is_regular}
use uv_studio.Projects.References.{Reference, Project, find_reference}
use uv_studio.Production.Semantics.Values.{id_list}
use uv_studio.Production.Semantics.Entities.{
  Scene, Shot, ShotArguments, Take, make_scene, make_shot, make_take, shot_arguments,
}
use uv_studio.Production.Semantics.Document.{Semantics, make_semantics, find_scene, find_shot}
use uv_studio.Production.Commands.Errors.{
  ProductionError, semantic, scene_exists, shot_exists, take_exists, bad_reference_id, unregistered,
  not_visual, no_root, root_not_accepted, unresolved_reference, irregular_reference,
}

abbrev pub Result : Type 0 → Type 0
Result A = Outcome ProductionError A

-- The keyword arguments of the three commands
pub record CreateScene : Type 0 where
  pub scene_id : Json
  pub title : Json
  pub summary : Json

pub record CreateShot : Type 0 where
  pub shot_id : Json
  pub scene_id : Json
  pub intent : Json
  pub reference_ids : Json

pub record RegisterTake : Type 0 where
  pub take_id : Json
  pub shot_id : Json
  pub reference_id : Json
  pub label : Json
  pub notes : Json

-- `_reference`
unfoldable pub registered : Project → Text → Result Reference
registered p id = do
  canonical ← or_raise (validate_identifier (Json.str id)) bad_reference_id
  elim (find_reference p canonical) [ none ↦ raised unregistered | some found ↦ ok found ]

-- `sorted(_ACCEPTED_MEDIA_ROOTS)`
abbrev pub media_roots : List Text
media_roots = codes "artifacts" ∷ codes "assets" ∷ codes "exports" ∷ codes "sources" ∷ []

abbrev pub visual_kinds : List Text
visual_kinds = codes "image" ∷ codes "video" ∷ []

-- `PurePosixPath(path).parts[0]`
unfoldable pub first_part : Text → Result Text
first_part path = elim (parts path) [ [] ↦ raised no_root | root ∷ _ ↦ ok root ]

-- `_require_visual_take_reference`
unfoldable pub require_visual : Disk → Reference → Result (Unit {0})
unfolding first_part
require_visual disk r = do
  raise_if (not (contains r.kind visual_kinds)) not_visual
  root ← first_part r.path
  raise_if (not (contains root media_roots)) root_not_accepted
  entry ←
      or_raise (resolve_project_file disk true media_roots (Json.str r.path)) unresolved_reference
  raise_if (not (is_regular entry)) irregular_reference

-- `ProductionSemanticsDocument(scenes=..., shots=..., takes=...)`
abbrev pub rebuild : List Scene → List Shot → List Take → Result Semantics
rebuild scenes shots takes = or_raise (make_semantics (num 1) scenes shots takes) semantic

unfoldable pub create_scene : CreateScene → Semantics → Result Semantics
create_scene c d = do
  scene ← or_raise (make_scene c.scene_id c.title c.summary (Json.arr Items.nil)) semantic
  raise_if (any (λ s. s.scene_id == scene.scene_id) d.scenes) scene_exists
  rebuild (d.scenes ++ scene ∷ []) d.shots d.takes

-- `replace(item, shot_ids=(*item.shot_ids, shot_id)) if item.scene_id == scene_id else item`
unfoldable pub list_shot : Text → Text → Scene → Result Scene
list_shot scene_id shot_id s =
    if s.scene_id == scene_id
    then or_raise
        (make_scene (Json.str s.scene_id) (Json.str s.title) (Json.str s.summary)
          (id_list (s.shot_ids ++ shot_id ∷ [])))
        semantic
    else ok s

-- The loop over `shot.reference_ids`
unfoldable pub all_registered : Project → List Text → Result (Unit {0})
unfolding registered
all_registered p [] = ok tt
all_registered p (id ∷ ids) = do _ ← registered p id; all_registered p ids

-- `Shot(...)` with the defaults of the command
abbrev pub new_shot : CreateShot → Text → ShotArguments
new_shot c scene_id = record {
  shot_id = c.shot_id;
  scene_id = Json.str scene_id;
  intent = c.intent;
  reference_ids = c.reference_ids;
  take_ids = Json.arr Items.nil;
  accepted_take_id = Json.null;
  timeline_clip_ids = Json.arr Items.nil;
}

unfoldable pub create_shot : Project → CreateShot → Semantics → Result Semantics
unfolding all_registered list_shot
create_shot p c d = do
  scene ← or_raise (find_scene d c.scene_id) semantic
  shot ← or_raise (make_shot (new_shot c scene.scene_id)) semantic
  raise_if (any (λ s. s.shot_id == shot.shot_id) d.shots) shot_exists
  all_registered p shot.reference_ids
  scenes ← traverse (list_shot scene.scene_id shot.shot_id) d.scenes
  rebuild scenes (d.shots ++ shot ∷ []) d.takes

-- `replace(item, take_ids=(*item.take_ids, take_id)) if item.shot_id == shot_id else item`
unfoldable pub list_take : Text → Text → Shot → Result Shot
list_take shot_id take_id s =
    if s.shot_id == shot_id
    then or_raise
        (make_shot (record (shot_arguments s) { take_ids = id_list (s.take_ids ++ take_id ∷ []) }))
        semantic
    else ok s

unfoldable pub register_take : Disk → Project → RegisterTake → Semantics → Result Semantics
unfolding registered require_visual list_take
register_take disk p c d = do
  shot ← or_raise (find_shot d c.shot_id) semantic
  take ←
      or_raise (make_take c.take_id (Json.str shot.shot_id) c.reference_id c.label c.notes) semantic
  raise_if (any (λ t. t.take_id == take.take_id) d.takes) take_exists
  reference ← registered p take.reference_id
  require_visual disk reference
  shots ← traverse (list_take shot.shot_id take.take_id) d.shots
  rebuild d.scenes shots (d.takes ++ take ∷ [])
