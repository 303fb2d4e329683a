-- ===== src/Production/Commands/Shots.antt =====
-- `create_shot` adds a shot of a new id, which its scene lists from then on.
use uv_studio.Base.{
  find?, Option-cases, ◌≡◌, ◌≢◌, ◌↔◌, refl, sym, ◌∙◌, inl, inr, List, [], ◌∷◌, ◌++◌, map, none,
  some, Text, ◌==◌, All, All-map, All-In, All-of_map, In, ok, ok_inj, or_raise, or_raise-eq-ok,
  traverse, traverse-eq-map, Bool-cases, any, raise_if, raise_if-eq-ok, >>=-eq-ok,
}
use uv_studio.Base.Keyed.{any-false_iff, find-found}
use mathlib.Core.Path.{subst, ap}
use uv_studio.Json.{Json}
use uv_studio.Projects.References.{Project, Reference}
use uv_studio.Production.Commands.Registering.{Names, all_registered_iff}
use uv_studio.Production.Semantics.Values.{SemanticError, identifier, optional_identifier}
use uv_studio.Production.Semantics.Checks.{IsIdentifier, identifier-eq_self, id_tuple-nil}
use uv_studio.Production.Semantics.Entities.{Scene, Shot, make_shot}
use uv_studio.Production.Semantics.Entries.{
  IsScene, make_shot-IsShot, make_shot_inv, make_scene-eq_self,
}
use uv_studio.Production.Semantics.Document.{Semantics, find_scene}
use uv_studio.Production.Semantics.Reading.{IsProduction}
use uv_studio.Production.Commands.Errors.{semantic, shot_exists}
use uv_studio.Production.Commands.Updates.{
  rebuild, CreateShot, create_shot, list_shot, new_shot, all_registered,
}
use uv_studio.Production.Commands.Extending.{rebuild_iff, rebuild-eq-ok}
use uv_studio.Production.Commands.WithShot.{listing_shot, with_shot, with_shot-IsProduction}

list_shot-eq-ok :
    (a b : Text) (s : Scene)
    → IsScene (listing_shot a b s)
    → list_shot a b s ≡ ok (listing_shot a b s)
unfolding list_shot
list_shot-eq-ok a b s v = elim (Bool-cases (s.scene_id == a)) [
  | inl e ↦
      let t = record s { shot_ids = s.shot_ids ++ b ∷ [] } in
      let valid : IsScene t = rw e at v in rw (e, make_scene-eq_self t valid, list_shot) refl
  | inr e ↦ rw (e, list_shot) refl
]

-- A scene that is found is one of the document's.
find_scene-In : (d : Semantics) (v : Json) (s : Scene) → find_scene d v ≡ ok s → In s d.scenes
unfolding find_scene
find_scene-In d v s h =
    let (id, _, h1) = >>=-eq-ok (identifier v) _ h in
    elim (Option-cases (find? (λ s. s.scene_id == id) d.scenes)) [
      | inl e ↦ cc
      | inr (t, e) ↦
          let same : t ≡ s = ok_inj {E = SemanticError} (rw e at h1) in
          (find-found (λ t. t.scene_id) d.scenes id s (e ∙ ap some same)).0
    ]

optional_identifier-null : optional_identifier Json.null ≡ ok none
unfolding optional_identifier
optional_identifier-null = refl

-- A new shot belongs to the scene, has no takes and accepts none.
new_shot_inv :
    (c : CreateShot) (scene_id : Text) (s : Shot)
    → IsIdentifier scene_id
    → make_shot (new_shot c scene_id) ≡ ok s
    → (s.scene_id ≡ scene_id) × (s.take_ids ≡ []) × (s.accepted_take_id ≡ none)
new_shot_inv c scene_id s i h =
    let (e, f, g, _) = make_shot_inv (new_shot c scene_id) s h in
    (
      ok_inj (sym e ∙ identifier-eq_self scene_id i),
      ok_inj (sym f ∙ id_tuple-nil),
      ok_inj (sym g ∙ optional_identifier-null),
    )

-- The scenes as the command changes them, and the production that it builds.
shot_made :
    (c : CreateShot) (d : Semantics) (scene : Scene) (s : Shot)
    → IsProduction d
    → find_scene d c.scene_id ≡ ok scene
    → make_shot (new_shot c scene.scene_id) ≡ ok s
    → All (λ t. t.shot_id ≢ s.shot_id) d.shots
    → (traverse (list_shot scene.scene_id s.shot_id) d.scenes
        ≡ ok (map (listing_shot scene.scene_id s.shot_id) d.scenes))
      × IsProduction (with_shot d scene.scene_id s)
shot_made c d scene s v f h n =
    let m = find_scene-In d c.scene_id scene f in
    let (e, takes, accepted) = new_shot_inv c scene.scene_id s (All-In IsScene v.scenes m).id h in
    let w =
      with_shot-IsProduction d scene s v (make_shot-IsShot (new_shot c scene.scene_id) s h) m e
        takes accepted n in
    let add = listing_shot scene.scene_id s.shot_id in
    let valid = (All-of_map IsScene add d.scenes).0 w.scenes in
    (
      traverse-eq-map (list_shot scene.scene_id s.shot_id) add d.scenes (
          All-map {P = λ t. IsScene (add t)} (λ t. list_shot-eq-ok scene.scene_id s.shot_id t)
            d.scenes valid),
      w,
    )

-- From a valid production, `create_shot` computes a production (which it then commits) exactly if
-- the scene is there, a shot can be constructed from the fields, its id is new, and each of its
-- references is among the sources and artifacts of the project; the result is the production with
-- that shot at the end, and in its scene's list. The identity of the project and the commit are not
-- part of this.
pub create_shot_iff :
    (p : Project) (c : CreateShot) (d out : Semantics)
    → IsProduction d
    → (create_shot p c d ≡ ok out) ↔ (
        (scene : Scene) × (s : Shot) × (find_scene d c.scene_id ≡ ok scene)
        × (make_shot (new_shot c scene.scene_id) ≡ ok s)
        × All (λ t. t.shot_id ≢ s.shot_id) d.shots
        × All (λ id. (r : Reference) × Names p id r) s.reference_ids
        × (out ≡ with_shot d scene.scene_id s))
unfolding create_shot
create_shot_iff p c d out v = (
  λ h.
      let (scene, e0, h0) = >>=-eq-ok (or_raise (find_scene d c.scene_id) semantic) _ h in
      let found = or_raise-eq-ok (find_scene d c.scene_id) semantic e0 in
      let made = make_shot (new_shot c scene.scene_id) in
      let (s, e1, h1) = >>=-eq-ok (or_raise made semantic) _ h0 in
      let valid = or_raise-eq-ok made semantic e1 in
      let (_, e2, h2) =
        >>=-eq-ok (raise_if (any (λ t. t.shot_id == s.shot_id) d.shots) shot_exists) _ h1 in
      let n =
        (any-false_iff (λ t. t.shot_id) d.shots s.shot_id).0 (raise_if-eq-ok _ shot_exists e2) in
      let (_, e3, h3) = >>=-eq-ok (all_registered p s.reference_ids) _ h2 in
      let (_, e4, h4) = >>=-eq-ok (traverse (list_shot scene.scene_id s.shot_id) d.scenes) _ h3 in
      let (mapped, _) = shot_made c d scene s v found valid n in
      let built =
        subst (λ (ss : List Scene). rebuild ss (d.shots ++ s ∷ []) d.takes ≡ ok out)
          (ok_inj (sym e4 ∙ mapped)) h4 in
      let ids = (make_shot-IsShot (new_shot c scene.scene_id) s valid).references.each in
      let known = (all_registered_iff p s.reference_ids ids).0 e3 in
      (
        scene,
        s,
        found,
        valid,
        n,
        known,
        (rebuild-eq-ok (with_shot d scene.scene_id s) out built).0,
      ),
  λ (scene, s, found, valid, n, known, same).
      let (mapped, w) = shot_made c d scene s v found valid n in
      let ids = (make_shot-IsShot (new_shot c scene.scene_id) s valid).references.each in
      let registers = (all_registered_iff p s.reference_ids ids).1 known in
      rw
        (
          found,
          valid,
          (any-false_iff (λ t. t.shot_id) d.shots s.shot_id).1 n,
          registers,
          mapped,
          same,
        )
        ((rebuild_iff (with_shot d scene.scene_id s) w.scenes w.shots).1 w.consistent),
)

pub create_shot-IsProduction :
    (p : Project) (c : CreateShot) (d out : Semantics)
    → IsProduction d
    → create_shot p c d ≡ ok out
    → IsProduction out
create_shot-IsProduction p c d out v h =
    let (scene, s, found, valid, n, _, same) = (create_shot_iff p c d out v).0 h in
    subst IsProduction (sym same) (shot_made c d scene s v found valid n).1
