-- ===== src/Production/Semantics/Entities.antt =====
-- `Scene`, `Shot` and `Take`.
use uv_studio.Base.{
  true, false, not, List, [], ◌∷◌, Option, Text, codes, Outcome, ok, raised, ◌>>=◌, ◌>>◌, raise_if,
}
use uv_studio.Json.{Json, Items, Fields, end, field, get_or, only_keys, has_keys}
use uv_studio.Production.Semantics.Values.{
  SemanticError, scene_not_object, unknown_scene_fields, missing_scene_fields, shot_not_object,
  unknown_shot_fields, missing_shot_fields, take_not_object, unknown_take_fields,
  missing_take_fields, max_text_length, identifier, text_of, id_tuple, tuple_of, id_list,
  optional_identifier, optional_text,
}

pub record Scene : Type 0 where
  pub scene_id : Text
  pub title : Text
  pub summary : Text
  pub shot_ids : List Text

-- `Scene.__post_init__`
unfoldable pub make_scene : Json → Json → Json → Json → Outcome SemanticError Scene
unfolding text_of id_tuple
make_scene scene_id title summary shot_ids = do
  id ← identifier scene_id
  t ← text_of true 500 title
  s ← text_of false max_text_length summary
  shots ← id_tuple shot_ids
  ok (record { scene_id = id; title = t; summary = s; shot_ids = shots })

unfoldable pub scene_to_dict : Scene → Fields
scene_to_dict s = field (codes "scene_id") (Json.str s.scene_id) (
    field (codes "title") (Json.str s.title) (
      field (codes "summary") (Json.str s.summary)
        (field (codes "shot_ids") (id_list s.shot_ids) end)))

abbrev pub scene_keys : List Text
scene_keys = codes "scene_id" ∷ codes "title" ∷ codes "summary" ∷ codes "shot_ids" ∷ []

unfoldable pub scene_from_dict : Json → Outcome SemanticError Scene
unfolding tuple_of make_scene
scene_from_dict (Json.obj d) = do
  raise_if (not (only_keys scene_keys d)) unknown_scene_fields
  raise_if (not (has_keys (codes "scene_id" ∷ codes "title" ∷ []) d)) missing_scene_fields
  shots ← tuple_of (get_or (codes "shot_ids") (Json.arr Items.nil) d)
  make_scene (get_or (codes "scene_id") Json.null d) (get_or (codes "title") Json.null d)
      (get_or (codes "summary") (Json.str []) d) shots
scene_from_dict _ = raised scene_not_object

pub record Shot : Type 0 where
  pub shot_id : Text
  pub scene_id : Text
  pub intent : Text
  pub reference_ids : List Text
  pub take_ids : List Text
  pub accepted_take_id : Option Text
  pub timeline_clip_ids : List Text

-- The arguments of `Shot(...)` before they are validated.
pub record ShotArguments : Type 0 where
  pub shot_id : Json
  pub scene_id : Json
  pub intent : Json
  pub reference_ids : Json
  pub take_ids : Json
  pub accepted_take_id : Json
  pub timeline_clip_ids : Json

-- `Shot.__post_init__`
unfoldable pub make_shot : ShotArguments → Outcome SemanticError Shot
unfolding text_of id_tuple optional_identifier
make_shot a = do
  id ← identifier a.shot_id
  scene ← identifier a.scene_id
  intent ← text_of true max_text_length a.intent
  references ← id_tuple a.reference_ids
  takes ← id_tuple a.take_ids
  accepted ← optional_identifier a.accepted_take_id
  clips ← id_tuple a.timeline_clip_ids
  ok (record {
    shot_id = id;
    scene_id = scene;
    intent = intent;
    reference_ids = references;
    take_ids = takes;
    accepted_take_id = accepted;
    timeline_clip_ids = clips;
  })

-- The fields of a shot as arguments: what `dataclasses.replace` hands over.
unfoldable pub shot_arguments : Shot → ShotArguments
unfolding optional_text
shot_arguments s = record {
  shot_id = Json.str s.shot_id;
  scene_id = Json.str s.scene_id;
  intent = Json.str s.intent;
  reference_ids = id_list s.reference_ids;
  take_ids = id_list s.take_ids;
  accepted_take_id = optional_text s.accepted_take_id;
  timeline_clip_ids = id_list s.timeline_clip_ids;
}

unfoldable pub shot_to_dict : Shot → Fields
unfolding optional_text
shot_to_dict s = field (codes "shot_id") (Json.str s.shot_id) (
    field (codes "scene_id") (Json.str s.scene_id) (
      field (codes "intent") (Json.str s.intent) (
        field (codes "reference_ids") (id_list s.reference_ids) (
          field (codes "take_ids") (id_list s.take_ids) (
            field (codes "accepted_take_id") (optional_text s.accepted_take_id)
              (field (codes "timeline_clip_ids") (id_list s.timeline_clip_ids) end))))))

abbrev pub shot_keys : List Text
shot_keys =
    codes "shot_id"
    ∷ codes "scene_id"
    ∷ codes "intent"
    ∷ codes "reference_ids"
    ∷ codes "take_ids"
    ∷ codes "accepted_take_id"
    ∷ codes "timeline_clip_ids"
    ∷ []

unfoldable pub shot_from_dict : Json → Outcome SemanticError Shot
unfolding tuple_of make_shot
shot_from_dict (Json.obj d) = do
  raise_if (not (only_keys shot_keys d)) unknown_shot_fields
  raise_if (not (has_keys (codes "shot_id" ∷ codes "scene_id" ∷ codes "intent" ∷ []) d))
      missing_shot_fields
  references ← tuple_of (get_or (codes "reference_ids") (Json.arr Items.nil) d)
  takes ← tuple_of (get_or (codes "take_ids") (Json.arr Items.nil) d)
  clips ← tuple_of (get_or (codes "timeline_clip_ids") (Json.arr Items.nil) d)
  make_shot (record {
    shot_id = get_or (codes "shot_id") Json.null d;
    scene_id = get_or (codes "scene_id") Json.null d;
    intent = get_or (codes "intent") Json.null d;
    reference_ids = references;
    take_ids = takes;
    accepted_take_id = get_or (codes "accepted_take_id") Json.null d;
    timeline_clip_ids = clips;
  })
shot_from_dict _ = raised shot_not_object

pub record Take : Type 0 where
  pub take_id : Text
  pub shot_id : Text
  pub reference_id : Text
  pub label : Text
  pub notes : Text

-- `Take.__post_init__`
unfoldable pub make_take : Json → Json → Json → Json → Json → Outcome SemanticError Take
unfolding text_of identifier
make_take take_id shot_id reference_id label notes = do
  id ← identifier take_id
  shot ← identifier shot_id
  reference ← identifier reference_id
  l ← text_of false 500 label
  n ← text_of false max_text_length notes
  ok (record { take_id = id; shot_id = shot; reference_id = reference; label = l; notes = n })

unfoldable pub take_to_dict : Take → Fields
take_to_dict t = field (codes "take_id") (Json.str t.take_id) (
    field (codes "shot_id") (Json.str t.shot_id) (
      field (codes "reference_id") (Json.str t.reference_id)
        (field (codes "label") (Json.str t.label) (field (codes "notes") (Json.str t.notes) end))))

abbrev pub take_keys : List Text
take_keys =
    codes "take_id" ∷ codes "shot_id" ∷ codes "reference_id" ∷ codes "label" ∷ codes "notes" ∷ []

unfoldable pub take_from_dict : Json → Outcome SemanticError Take
unfolding make_take
take_from_dict (Json.obj d) = do
  raise_if (not (only_keys take_keys d)) unknown_take_fields
  raise_if (not (has_keys (codes "take_id" ∷ codes "shot_id" ∷ codes "reference_id" ∷ []) d))
      missing_take_fields
  make_take (get_or (codes "take_id") Json.null d) (get_or (codes "shot_id") Json.null d)
      (get_or (codes "reference_id") Json.null d) (get_or (codes "label") (Json.str []) d)
      (get_or (codes "notes") (Json.str []) d)
take_from_dict _ = raised take_not_object
