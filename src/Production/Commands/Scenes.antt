-- ===== src/Production/Commands/Scenes.antt =====
-- `create_scene` adds a scene of a new id, and only that.
use uv_studio.Base.{
  ◌≡◌, ◌≢◌, ◌↔◌, sym, [], ◌∷◌, ◌++◌, ◌==◌, All, All-append_last, AllPairs-append_last, ok, or_raise,
  or_raise-eq-ok, any, raise_if, raise_if-eq-ok, >>=-eq-ok,
}
use uv_studio.Base.Keyed.{any-false_iff}
use mathlib.Core.Path.{subst}
use uv_studio.Json.{Json, Items}
use uv_studio.Production.Semantics.Entities.{Scene, make_scene}
use uv_studio.Production.Semantics.Entries.{IsScene, make_scene-IsScene, make_scene-no_shots}
use uv_studio.Production.Semantics.Document.{Semantics, shot_kind, scene_pass}
use uv_studio.Production.Semantics.Growing.{Linked-add_parent}
use uv_studio.Production.Semantics.Construction.{DifferentScenes}
use uv_studio.Production.Semantics.Reading.{IsProduction}
use uv_studio.Production.Commands.Errors.{semantic, scene_exists}
use uv_studio.Production.Commands.Updates.{CreateScene, create_scene}
use uv_studio.Production.Commands.Extending.{rebuild_iff, rebuild-eq-ok, relink}

abbrev pub with_scene : Semantics → Scene → Semantics
with_scene d s = record d { scenes = d.scenes ++ s ∷ [] }

pub with_scene-IsProduction :
    (d : Semantics) (s : Scene)
    → IsProduction d
    → IsScene s
    → s.shot_ids ≡ []
    → All (λ t. t.scene_id ≢ s.scene_id) d.scenes
    → IsProduction (with_scene d s)
with_scene-IsProduction d s v i e n = record {
  scenes = (All-append_last IsScene d.scenes s).1 (v.scenes, i);
  shots = v.shots;
  takes = v.takes;
  consistent = record {
    scenes_differ =
        (AllPairs-append_last DifferentScenes d.scenes s).1 (v.consistent.scenes_differ, n);
    shots_differ = v.consistent.shots_differ;
    takes_differ = v.consistent.takes_differ;
    shot_links =
        Linked-add_parent shot_kind scene_pass d.scenes s d.shots e v.consistent.shot_links;
    take_links = relink d.scenes (d.scenes ++ s ∷ []) v.consistent.take_links;
    accepted = v.consistent.accepted;
  };
}

-- From a valid production, `create_scene` computes one (which it then commits) exactly if a scene can
-- be constructed from the fields and its id is new; the result is the production with that scene at
-- the end.
pub create_scene_iff :
    (c : CreateScene) (d out : Semantics)
    → IsProduction d
    → (create_scene c d ≡ ok out) ↔ (
        (s : Scene) × (make_scene c.scene_id c.title c.summary (Json.arr Items.nil) ≡ ok s)
        × All (λ t. t.scene_id ≢ s.scene_id) d.scenes
        × (out ≡ with_scene d s))
unfolding create_scene
create_scene_iff c d out v = (
  λ h.
      let made = make_scene c.scene_id c.title c.summary (Json.arr Items.nil) in
      let (s, e0, h0) = >>=-eq-ok (or_raise made semantic) _ h in
      let (_, e1, h1) =
        >>=-eq-ok (raise_if (any (λ t. t.scene_id == s.scene_id) d.scenes) scene_exists) _ h0 in
      (
        s,
        or_raise-eq-ok made semantic e0,
        (any-false_iff (λ t. t.scene_id) d.scenes s.scene_id).0 (raise_if-eq-ok _ scene_exists e1),
        (rebuild-eq-ok (with_scene d s) out h1).0,
      ),
  λ (s, e, n, same).
      let i = make_scene-IsScene c.scene_id c.title c.summary (Json.arr Items.nil) s e in
      let none_yet = make_scene-no_shots c.scene_id c.title c.summary s e in
      let w = with_scene-IsProduction d s v i none_yet n in
      rw (e, (any-false_iff (λ t. t.scene_id) d.scenes s.scene_id).1 n, same)
        ((rebuild_iff (with_scene d s) w.scenes w.shots).1 w.consistent),
)

pub create_scene-IsProduction :
    (c : CreateScene) (d out : Semantics)
    → IsProduction d
    → create_scene c d ≡ ok out
    → IsProduction out
create_scene-IsProduction c d out v h =
    let (s, e, n, same) = (create_scene_iff c d out v).0 h in
    let i = make_scene-IsScene c.scene_id c.title c.summary (Json.arr Items.nil) s e in
    let none_yet = make_scene-no_shots c.scene_id c.title c.summary s e in
    subst IsProduction (sym same) (with_scene-IsProduction d s v i none_yet n)
