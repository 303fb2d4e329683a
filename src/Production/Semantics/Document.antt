-- ===== src/Production/Semantics/Document.antt =====
-- `ProductionSemanticsDocument`.
use uv_studio.Base.{
  Bool, false, not, List, [], ◌∷◌, map, Option, none, some, Text, codes, ◌==◌, find?, contains,
  all_distinct, Outcome, ok, raised, ◌>>=◌, ◌>>◌, raise_if, traverse,
}
use uv_studio.Json.{
  Json, Items, Fields, num, end, field, get, get_or, only_keys, equals_one, of_list, to_list,
}
use uv_studio.Production.Semantics.Entities.{
  Scene, Shot, Take, scene_to_dict, scene_from_dict, shot_to_dict, shot_from_dict, take_to_dict,
  take_from_dict,
}
use uv_studio.Production.Semantics.Values.{
  SemanticError, identifier, bad_schema, duplicate_scene, duplicate_shot, duplicate_take,
  unknown_shot, foreign_shot, shot_linked_twice, unlinked_shots, unknown_scene, unknown_take,
  foreign_take, take_linked_twice, not_candidate, unlinked_takes, scene_not_found, shot_not_found,
  take_not_found, document_not_object, unknown_document_fields, bad_document_kind, scenes_not_list,
  shots_not_list, takes_not_list,
}
use uv_studio.Production.Semantics.Links.{Kind, Pass, link_each, same_set}

-- The class has one more field, `schema_version`, which equals 1.
pub record Semantics : Type 0 where
  pub scenes : List Scene
  pub shots : List Shot
  pub takes : List Take

-- `ProductionSemanticsDocument()`
abbrev pub empty_semantics : Semantics
empty_semantics = record { scenes = []; shots = []; takes = [] }

abbrev pub scene_ids : List Scene → List Text
scene_ids = map (λ s. s.scene_id)

abbrev pub shot_ids : List Shot → List Text
shot_ids = map (λ s. s.shot_id)

abbrev pub take_ids : List Take → List Text
take_ids = map (λ t. t.take_id)

abbrev pub shot_kind : Kind Shot
shot_kind = record {
  id = λ s. s.shot_id;
  parent = λ s. s.scene_id;
  unknown = unknown_shot;
  foreign = foreign_shot;
  twice = shot_linked_twice;
}

abbrev pub take_kind : Kind Take
take_kind = record {
  id = λ t. t.take_id;
  parent = λ t. t.shot_id;
  unknown = unknown_take;
  foreign = foreign_take;
  twice = take_linked_twice;
}

-- `accepted_take_id is not None and accepted_take_id not in take_ids`
unfoldable pub accepts_other : Shot → Bool
accepts_other s = elim s.accepted_take_id [ none ↦ false | some id ↦ not (contains id s.take_ids) ]

-- The loop over the scenes
abbrev pub scene_pass : Pass Scene
scene_pass = record {
  name = λ s. s.scene_id;
  listed = λ s. s.shot_ids;
  before = λ s. ok tt;
  after = λ s. ok tt;
}

-- The loop over the shots
unfoldable pub shot_pass : List Scene → Pass Shot
unfolding accepts_other
shot_pass scenes = record {
  name = λ s. s.shot_id;
  listed = λ s. s.take_ids;
  before = λ s. raise_if (not (contains s.scene_id (scene_ids scenes))) unknown_scene;
  after = λ s. raise_if (accepts_other s) not_candidate;
}

-- `ProductionSemanticsDocument.__post_init__`
unfoldable pub make_semantics :
    Json → List Scene → List Shot → List Take → Outcome SemanticError Semantics
unfolding link_each shot_pass same_set
make_semantics schema scenes shots takes = do
  raise_if (not (equals_one schema)) bad_schema
  raise_if (not (all_distinct (scene_ids scenes))) duplicate_scene
  raise_if (not (all_distinct (shot_ids shots))) duplicate_shot
  raise_if (not (all_distinct (take_ids takes))) duplicate_take
  linked_shots ← link_each shot_kind scene_pass shots [] scenes
  raise_if (not (same_set linked_shots (shot_ids shots))) unlinked_shots
  linked_takes ← link_each take_kind (shot_pass scenes) takes [] shots
  raise_if (not (same_set linked_takes (take_ids takes))) unlinked_takes
  ok (record { scenes = scenes; shots = shots; takes = takes })

-- `scene`, `shot` and `take`
unfoldable pub find_scene : Semantics → Json → Outcome SemanticError Scene
find_scene d v = identifier v >>= λ id. elim (find? (λ s. s.scene_id == id) d.scenes) [
  | none ↦ raised scene_not_found
  | some s ↦ ok s
]

unfoldable pub find_shot : Semantics → Json → Outcome SemanticError Shot
find_shot d v = identifier v >>= λ id. elim (find? (λ s. s.shot_id == id) d.shots) [
  | none ↦ raised shot_not_found
  | some s ↦ ok s
]

unfoldable pub find_take : Semantics → Json → Outcome SemanticError Take
find_take d v = identifier v >>= λ id. elim (find? (λ t. t.take_id == id) d.takes) [
  | none ↦ raised take_not_found
  | some t ↦ ok t
]

unfoldable pub semantics_to_dict : Semantics → Fields
unfolding scene_to_dict shot_to_dict take_to_dict
semantics_to_dict d = field (codes "schema_version") (num 1) (
    field (codes "document_kind") (Json.str (codes "production_semantics")) (
      field (codes "scenes") (Json.arr (of_list (map (λ s. Json.obj (scene_to_dict s)) d.scenes))) (
        field (codes "shots") (Json.arr (of_list (map (λ s. Json.obj (shot_to_dict s)) d.shots))) (
          field (codes "takes") (Json.arr (of_list (map (λ t. Json.obj (take_to_dict t)) d.takes)))
            end))))

abbrev pub semantics_keys : List Text
semantics_keys =
    codes "schema_version"
    ∷ codes "document_kind"
    ∷ codes "scenes"
    ∷ codes "shots"
    ∷ codes "takes"
    ∷ []

-- `data.get("document_kind") == "production_semantics"`
unfoldable pub is_semantics_kind : Option Json → Bool
is_semantics_kind (some (Json.str s)) = s == codes "production_semantics"
is_semantics_kind _ = false

-- A value that must be a list, or the error
unfoldable pub list_items : SemanticError → Json → Outcome SemanticError (List Json)
list_items e (Json.arr items) = ok (to_list items)
list_items e _ = raised e

unfoldable pub semantics_from_dict : Json → Outcome SemanticError Semantics
unfolding is_semantics_kind list_items make_semantics
semantics_from_dict (Json.obj d) = do
  raise_if (not (only_keys semantics_keys d)) unknown_document_fields
  raise_if (not (is_semantics_kind (get (codes "document_kind") d))) bad_document_kind
  raw_scenes ← list_items scenes_not_list (get_or (codes "scenes") (Json.arr Items.nil) d)
  raw_shots ← list_items shots_not_list (get_or (codes "shots") (Json.arr Items.nil) d)
  raw_takes ← list_items takes_not_list (get_or (codes "takes") (Json.arr Items.nil) d)
  scenes ← traverse scene_from_dict raw_scenes
  shots ← traverse shot_from_dict raw_shots
  takes ← traverse take_from_dict raw_takes
  make_semantics (get_or (codes "schema_version") Json.null d) scenes shots takes
semantics_from_dict _ = raised document_not_object
