-- ===== src/Production/Semantics/Printing.antt =====
-- A valid production document is read back from what it prints.
use uv_studio.Base.{◌≡◌, refl, ◌∙◌, map, ◌==◌, contains, ok, ◌>>=◌, traverse, traverse-map}
use uv_studio.Json.{
  Json, get, get_or, only_keys, has_keys, equals_one, of_list, to_list, to_list-of_list, num,
}
use uv_studio.Production.Semantics.Values.{tuple_of, id_list}
use uv_studio.Production.Semantics.Entities.{
  Scene, Shot, Take, make_scene, make_shot, make_take, shot_arguments, scene_to_dict,
  scene_from_dict, shot_to_dict, shot_from_dict, take_to_dict, take_from_dict,
}
use uv_studio.Production.Semantics.Entries.{
  IsScene, IsShot, IsTake, make_scene-eq_self, make_shot-eq_self, make_take-eq_self,
}
use uv_studio.Production.Semantics.Document.{
  Semantics, is_semantics_kind, list_items, make_semantics, semantics_to_dict, semantics_from_dict,
}
use uv_studio.Production.Semantics.Construction.{make_semantics_iff}
use uv_studio.Production.Semantics.Reading.{IsProduction, IsProduction-ListsOnce}

scene_from_dict-to_dict :
    (s : Scene) → IsScene s → scene_from_dict (Json.obj (scene_to_dict s)) ≡ ok s
scene_from_dict-to_dict s v = reads s ∙ make_scene-eq_self s v
  where
    reads :
        (s : Scene)
        → scene_from_dict (Json.obj (scene_to_dict s))
          ≡ make_scene
              (Json.str s.scene_id)
              (Json.str s.title)
              (Json.str s.summary)
              (id_list s.shot_ids)
    reads s =
        unfold scene_from_dict scene_to_dict tuple_of get get_or only_keys has_keys ◌==◌ contains in
        refl

shot_from_dict-to_dict : (s : Shot) → IsShot s → shot_from_dict (Json.obj (shot_to_dict s)) ≡ ok s
shot_from_dict-to_dict s v = reads s ∙ make_shot-eq_self s v
  where
    reads : (s : Shot) → shot_from_dict (Json.obj (shot_to_dict s)) ≡ make_shot (shot_arguments s)
    reads s =
        unfold shot_from_dict shot_to_dict shot_arguments tuple_of get get_or only_keys has_keys
          ◌==◌ contains in
        refl

take_from_dict-to_dict : (t : Take) → IsTake t → take_from_dict (Json.obj (take_to_dict t)) ≡ ok t
take_from_dict-to_dict t v = reads t ∙ make_take-eq_self t v
  where
    reads :
        (t : Take)
        → take_from_dict (Json.obj (take_to_dict t))
          ≡ make_take
              (Json.str t.take_id)
              (Json.str t.shot_id)
              (Json.str t.reference_id)
              (Json.str t.label)
              (Json.str t.notes)
    reads t = unfold take_from_dict take_to_dict get get_or only_keys has_keys ◌==◌ contains in refl

semantics_step :
    (d : Semantics)
    → semantics_from_dict (Json.obj (semantics_to_dict d)) ≡ (
        traverse scene_from_dict
          (to_list (of_list (map (λ s. Json.obj (scene_to_dict s)) d.scenes)))
        >>= λ ss.
            traverse shot_from_dict
              (to_list (of_list (map (λ s. Json.obj (shot_to_dict s)) d.shots)))
            >>= λ hs.
                traverse take_from_dict
                  (to_list (of_list (map (λ t. Json.obj (take_to_dict t)) d.takes)))
                >>= λ ts. make_semantics (num 1) ss hs ts)
unfolding semantics_from_dict semantics_to_dict is_semantics_kind list_items get get_or only_keys
    has_keys ◌==◌ contains
semantics_step d = refl

-- Reading what a valid production document prints gives the document.
pub semantics_from_dict-to_dict :
    (d : Semantics) → IsProduction d → semantics_from_dict (Json.obj (semantics_to_dict d)) ≡ ok d
semantics_from_dict-to_dict d v =
    semantics_step d
    ∙ rw
        (
          to_list-of_list (map (λ s. Json.obj (scene_to_dict s)) d.scenes),
          traverse-map IsScene (λ s. Json.obj (scene_to_dict s)) scene_from_dict
              scene_from_dict-to_dict d.scenes v.scenes,
          to_list-of_list (map (λ s. Json.obj (shot_to_dict s)) d.shots),
          traverse-map IsShot (λ s. Json.obj (shot_to_dict s)) shot_from_dict shot_from_dict-to_dict
              d.shots v.shots,
          to_list-of_list (map (λ t. Json.obj (take_to_dict t)) d.takes),
          traverse-map IsTake (λ t. Json.obj (take_to_dict t)) take_from_dict take_from_dict-to_dict
              d.takes v.takes,
        )
        ((make_semantics_iff (num 1) d (IsProduction-ListsOnce v.scenes v.shots)).1
          (unfold equals_one in refl, v.consistent))
