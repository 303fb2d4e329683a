-- ===== src/Production/Commands/WithShot.antt =====
-- A production with one more shot stays valid.
use uv_studio.Base.{
  ◌≡◌, ◌≢◌, refl, sym, ◌∙◌, inl, inr, true, false, [], ◌∷◌, ◌++◌, map, none, Text, ◌==◌,
  text_eq_iff, text_eq_ne, All, All-append_last, All-In, In-All, All-of_map, AllPairs-append_last,
  In, Bool-cases, if◌then◌else◌,
}
use uv_studio.Base.Keyed.{AllPairs-same_keys}
use uv_studio.Production.Semantics.Checks.{IsIdentifier}
use uv_studio.Production.Semantics.Entities.{Scene, Shot}
use uv_studio.Production.Semantics.Entries.{IsScene, IsShot}
use uv_studio.Production.Semantics.Document.{Semantics, shot_kind, take_kind, scene_pass, shot_pass}
use uv_studio.Production.Semantics.Growing.{Linked-add_parent, Linked-add_child, Linked-fresh}
use uv_studio.Production.Semantics.Construction.{DifferentShots, AcceptsOwn}
use uv_studio.Production.Semantics.Reading.{IsProduction}
use uv_studio.Production.Commands.Extending.{relink, IsIds-append}

-- The scene of this id lists one more shot.
abbrev pub listing_shot : Text → Text → Scene → Scene
listing_shot scene_id shot_id s =
    if s.scene_id == scene_id then record s { shot_ids = s.shot_ids ++ shot_id ∷ [] } else s

abbrev pub with_shot : Semantics → Text → Shot → Semantics
with_shot d scene_id s = record d {
  scenes = map (listing_shot scene_id s.shot_id) d.scenes;
  shots = d.shots ++ s ∷ [];
}

listing_shot_id : (a b : Text) (s : Scene) → (listing_shot a b s).scene_id ≡ s.scene_id
listing_shot_id a b s = elim (Bool-cases (s.scene_id == a)) [
  | inl e ↦ rw e refl
  | inr e ↦ rw e refl
]

pub listing_shot-IsScene :
    (a b : Text) (s : Scene)
    → IsScene s
    → IsIdentifier b
    → All (λ x. x ≢ b) s.shot_ids
    → IsScene (listing_shot a b s)
listing_shot-IsScene a b s v i n = elim (Bool-cases (s.scene_id == a)) [
  | inl e ↦ rw e (record {
    id = v.id;
    title = v.title;
    summary = v.summary;
    shots = IsIds-append s.shot_ids b v.shots i n;
  })
  | inr e ↦ rw e v
]

pub with_shot-IsProduction :
    (d : Semantics) (scene : Scene) (s : Shot)
    → IsProduction d
    → IsShot s
    → In scene d.scenes
    → s.scene_id ≡ scene.scene_id
    → s.take_ids ≡ []
    → s.accepted_take_id ≡ none
    → All (λ t. t.shot_id ≢ s.shot_id) d.shots
    → IsProduction (with_shot d scene.scene_id s)
unfolding shot_pass
with_shot-IsProduction d scene s v i m e takes_empty unaccepted n =
    let add = listing_shot scene.scene_id s.shot_id in
    let fresh =
      Linked-fresh shot_kind scene_pass d.scenes d.shots s.shot_id v.consistent.shot_links n in
    let scenes_valid =
      In-All (λ t. IsScene (add t)) d.scenes
        (λ t k.
          listing_shot-IsScene scene.scene_id s.shot_id t (All-In IsScene v.scenes k) i.id
            (All-In (λ (t : Scene). All (λ x. x ≢ s.shot_id) t.shot_ids) fresh k)) in
    let grown = λ (t : Scene) (f : t.scene_id ≡ s.scene_id).
      let same : t.scene_id == scene.scene_id ≡ true =
        (text_eq_iff t.scene_id scene.scene_id).1 (f ∙ e) in
      let out : (add t).shot_ids ≡ t.shot_ids ++ s.shot_id ∷ [] = rw same refl in out in
    let kept = λ (t : Scene) (f : t.scene_id ≢ s.scene_id).
      let other : t.scene_id == scene.scene_id ≡ false =
        text_eq_ne t.scene_id scene.scene_id (λ g. f (g ∙ sym e)) in
      let out : (add t).shot_ids ≡ t.shot_ids = rw other refl in out in
    record {
      scenes = (All-of_map IsScene add d.scenes).1 scenes_valid;
      shots = (All-append_last IsShot d.shots s).1 (v.shots, i);
      takes = v.takes;
      consistent = record {
        scenes_differ =
            AllPairs-same_keys (λ t. t.scene_id) add d.scenes
              (listing_shot_id scene.scene_id s.shot_id) v.consistent.scenes_differ;
        shots_differ =
            (AllPairs-append_last DifferentShots d.shots s).1 (v.consistent.shots_differ, n);
        takes_differ = v.consistent.takes_differ;
        shot_links =
            Linked-add_child shot_kind scene_pass add d.scenes d.shots s scene
              (listing_shot_id scene.scene_id s.shot_id) grown kept m (sym e)
              v.consistent.shot_links;
        take_links =
            Linked-add_parent take_kind (shot_pass (map add d.scenes)) d.shots s d.takes takes_empty
              (relink d.scenes (map add d.scenes) v.consistent.take_links);
        accepted =
            (All-append_last AcceptsOwn d.shots s).1
              (v.consistent.accepted, λ id f. let k = sym unaccepted ∙ f in cc);
      };
    }
