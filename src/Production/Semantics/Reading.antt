-- ===== src/Production/Semantics/Reading.antt =====
-- Reading a production document: what is accepted is valid.
use uv_studio.Base.{
  ◌≡◌, not, [], ◌∷◌, Text, codes, All, All-map, Outcome, ok, >>=-eq-ok, raise_if, traverse,
  All-traverse, sym,
}
use mathlib.Core.Path.{subst}
use uv_studio.Json.{Json, Items, Fields, get, get_or, only_keys, has_keys}
use uv_studio.Production.Semantics.Values.{
  SemanticError, unknown_scene_fields, missing_scene_fields, unknown_shot_fields,
  missing_shot_fields, unknown_take_fields, missing_take_fields, tuple_of, unknown_document_fields,
  bad_document_kind, scenes_not_list, shots_not_list, takes_not_list,
}
use uv_studio.Production.Semantics.Entities.{
  Scene, Shot, Take, scene_keys, shot_keys, take_keys, scene_from_dict, shot_from_dict,
  take_from_dict,
}
use uv_studio.Production.Semantics.Entries.{
  IsScene, IsShot, IsTake, make_scene-IsScene, make_shot-IsShot, make_take-IsTake,
}
use uv_studio.Production.Semantics.Document.{
  Semantics, semantics_keys, is_semantics_kind, list_items, semantics_from_dict,
}
use uv_studio.Production.Semantics.Construction.{IsSemantics, ListsOnce, make_semantics_inv}

-- A valid document: valid entries that are consistent.
pub record IsProduction (d : Semantics) : Type 0 where
  pub scenes : All IsScene d.scenes
  pub shots : All IsShot d.shots
  pub takes : All IsTake d.takes
  pub consistent : IsSemantics d

pub IsProduction-ListsOnce :
    {d : Semantics} → All IsScene d.scenes → All IsShot d.shots → ListsOnce d
IsProduction-ListsOnce {d} a b = record {
  shots_once = All-map {P = IsScene} (λ s v. v.shots.differ) d.scenes a;
  takes_once = All-map {P = IsShot} (λ s v. v.takes.differ) d.shots b;
}

abbrev items_of : Fields → Text → Json
items_of d key = get_or key (Json.arr Items.nil) d

abbrev list_of : Fields → Text → Outcome SemanticError Json
list_of d key = tuple_of (items_of d key)

scene_from_dict-IsScene : (v : Json) (s : Scene) → scene_from_dict v ≡ ok s → IsScene s
unfolding scene_from_dict
scene_from_dict-IsScene (Json.obj d) s h =
    let (_, _, h0) = >>=-eq-ok (raise_if (not (only_keys scene_keys d)) unknown_scene_fields) _ h in
    let (_, _, h1) =
      >>=-eq-ok
        (raise_if (not (has_keys (codes "scene_id" ∷ codes "title" ∷ []) d)) missing_scene_fields) _
        h0 in
    let (ids, _, h2) = >>=-eq-ok (list_of d (codes "shot_ids")) _ h1 in
    make_scene-IsScene (get_or (codes "scene_id") Json.null d) (get_or (codes "title") Json.null d)
      (get_or (codes "summary") (Json.str []) d) ids s h2
scene_from_dict-IsScene Json.null s h = cc
scene_from_dict-IsScene (Json.bool b) s h = cc
scene_from_dict-IsScene (Json.int b) s h = cc
scene_from_dict-IsScene (Json.float b) s h = cc
scene_from_dict-IsScene (Json.str b) s h = cc
scene_from_dict-IsScene (Json.arr b) s h = cc

shot_from_dict-IsShot : (v : Json) (s : Shot) → shot_from_dict v ≡ ok s → IsShot s
unfolding shot_from_dict
shot_from_dict-IsShot (Json.obj d) s h =
    let (_, _, h0) = >>=-eq-ok (raise_if (not (only_keys shot_keys d)) unknown_shot_fields) _ h in
    let (_, _, h1) =
      >>=-eq-ok
        (raise_if (not (has_keys (codes "shot_id" ∷ codes "scene_id" ∷ codes "intent" ∷ []) d))
          missing_shot_fields)
        _ h0 in
    let (rs, _, h2) = >>=-eq-ok (list_of d (codes "reference_ids")) _ h1 in
    let (ts, _, h3) = >>=-eq-ok (list_of d (codes "take_ids")) _ h2 in
    let (cs, _, h4) = >>=-eq-ok (list_of d (codes "timeline_clip_ids")) _ h3 in
    make_shot-IsShot
      (record {
        shot_id = get_or (codes "shot_id") Json.null d;
        scene_id = get_or (codes "scene_id") Json.null d;
        intent = get_or (codes "intent") Json.null d;
        reference_ids = rs;
        take_ids = ts;
        accepted_take_id = get_or (codes "accepted_take_id") Json.null d;
        timeline_clip_ids = cs;
      })
      s h4
shot_from_dict-IsShot Json.null s h = cc
shot_from_dict-IsShot (Json.bool b) s h = cc
shot_from_dict-IsShot (Json.int b) s h = cc
shot_from_dict-IsShot (Json.float b) s h = cc
shot_from_dict-IsShot (Json.str b) s h = cc
shot_from_dict-IsShot (Json.arr b) s h = cc

take_from_dict-IsTake : (v : Json) (t : Take) → take_from_dict v ≡ ok t → IsTake t
unfolding take_from_dict
take_from_dict-IsTake (Json.obj d) t h =
    let (_, _, h0) = >>=-eq-ok (raise_if (not (only_keys take_keys d)) unknown_take_fields) _ h in
    let (_, _, h1) =
      >>=-eq-ok
        (raise_if (not (has_keys (codes "take_id" ∷ codes "shot_id" ∷ codes "reference_id" ∷ []) d))
          missing_take_fields)
        _ h0 in
    make_take-IsTake (get_or (codes "take_id") Json.null d) (get_or (codes "shot_id") Json.null d)
      (get_or (codes "reference_id") Json.null d) (get_or (codes "label") (Json.str []) d)
      (get_or (codes "notes") (Json.str []) d) t h1
take_from_dict-IsTake Json.null t h = cc
take_from_dict-IsTake (Json.bool b) t h = cc
take_from_dict-IsTake (Json.int b) t h = cc
take_from_dict-IsTake (Json.float b) t h = cc
take_from_dict-IsTake (Json.str b) t h = cc
take_from_dict-IsTake (Json.arr b) t h = cc

-- Whatever JSON value is accepted as a production document, the document is valid: its scenes, shots
-- and takes are, and they are consistent.
pub semantics_from_dict-IsProduction :
    (v : Json) (d : Semantics) → semantics_from_dict v ≡ ok d → IsProduction d
unfolding semantics_from_dict
semantics_from_dict-IsProduction (Json.obj f) d h =
    let (_, _, h0) =
      >>=-eq-ok (raise_if (not (only_keys semantics_keys f)) unknown_document_fields) _ h in
    let (_, _, h1) =
      >>=-eq-ok
        (raise_if (not (is_semantics_kind (get (codes "document_kind") f))) bad_document_kind) _
        h0 in
    let (rs, _, h2) = >>=-eq-ok (list_items scenes_not_list (items_of f (codes "scenes"))) _ h1 in
    let (rh, _, h3) = >>=-eq-ok (list_items shots_not_list (items_of f (codes "shots"))) _ h2 in
    let (rt, _, h4) = >>=-eq-ok (list_items takes_not_list (items_of f (codes "takes"))) _ h3 in
    let (ss, es, h5) = >>=-eq-ok (traverse scene_from_dict rs) _ h4 in
    let (hs, eh, h6) = >>=-eq-ok (traverse shot_from_dict rh) _ h5 in
    let (ts, et, h7) = >>=-eq-ok (traverse take_from_dict rt) _ h6 in
    let (_, i, same) =
      make_semantics_inv (get_or (codes "schema_version") Json.null f)
        (record { scenes = ss; shots = hs; takes = ts }) d h7 in
    subst IsProduction (sym same) (record {
      scenes = All-traverse IsScene scene_from_dict scene_from_dict-IsScene rs ss es;
      shots = All-traverse IsShot shot_from_dict shot_from_dict-IsShot rh hs eh;
      takes = All-traverse IsTake take_from_dict take_from_dict-IsTake rt ts et;
      consistent = i;
    })
semantics_from_dict-IsProduction Json.null d h = cc
semantics_from_dict-IsProduction (Json.bool b) d h = cc
semantics_from_dict-IsProduction (Json.int b) d h = cc
semantics_from_dict-IsProduction (Json.float b) d h = cc
semantics_from_dict-IsProduction (Json.str b) d h = cc
semantics_from_dict-IsProduction (Json.arr b) d h = cc
