-- ===== src/Production/Commands/Marking.antt =====
-- The shots that `accept_take` marks: one accepts the take, and all stay valid.
use uv_studio.Base.{
  ◌≡◌, sym, ◌∙◌, inl, inr, List, [], ◌∷◌, ◌++◌, map, some, Text, ◌==◌, All-map, ok, ok_inj,
  or_raise-eq-ok, traverse, traverse-map_inv, All-traverse_valid, Bool-cases, if◌then◌else◌,
}
use mathlib.Core.Path.{subst, ap}
use uv_studio.Json.{Json}
use uv_studio.Production.Semantics.Values.{id_list, optional_text}
use uv_studio.Production.Semantics.Checks.{IsIdentifier, IsIds, id_tuple-id_list}
use uv_studio.Production.Semantics.Entities.{Shot, make_shot, shot_arguments}
use uv_studio.Production.Semantics.Entries.{
  IsShot, make_shot-IsShot, make_shot_inv, make_shot-eq_self,
}
use uv_studio.Production.Semantics.Document.{Semantics}
use uv_studio.Production.Semantics.Reading.{IsProduction}
use uv_studio.Production.Commands.Errors.{semantic}
use uv_studio.Production.Commands.Updates.{rebuild}
use uv_studio.Production.Commands.Extending.{rebuild-eq-ok}
use uv_studio.Production.Commands.Acceptance.{mark_accepted}

-- The shot of this id accepts the take, which this clip shows.
abbrev pub accepting : Text → Text → Text → Shot → Shot
accepting shot_id take_id clip_id s =
    if s.shot_id == shot_id
    then record s {
      accepted_take_id = some take_id;
      timeline_clip_ids = s.timeline_clip_ids ++ clip_id ∷ [];
    }
    else s

-- A marked shot is that, and valid.
mark_accepted_inv :
    (a b c : Text) (s t : Shot)
    → IsShot s
    → IsIdentifier b
    → mark_accepted a b c s ≡ ok t
    → (t ≡ accepting a b c s) × IsShot t
unfolding mark_accepted shot_arguments optional_text
mark_accepted_inv a b c s t v i h = elim (Bool-cases (s.shot_id == a)) [
  | inr e ↦
      let same : s ≡ t = ok_inj (rw (e, mark_accepted) at h) in
      (rw e (sym same), subst IsShot same v)
  | inl e ↦
      let arguments = record (shot_arguments s) {
        accepted_take_id = Json.str b;
        timeline_clip_ids = id_list (s.timeline_clip_ids ++ c ∷ []);
      } in
      let made : make_shot arguments ≡ ok t =
        or_raise-eq-ok (make_shot arguments) semantic (rw (e, mark_accepted) at h) in
      let valid = make_shot-IsShot arguments t made in
      let (_, _, _, listed) = make_shot_inv arguments t made in
      let ids = id_tuple-id_list (s.timeline_clip_ids ++ c ∷ []) t.timeline_clip_ids listed in
      let u = record s {
        accepted_take_id = some b;
        timeline_clip_ids = s.timeline_clip_ids ++ c ∷ [];
      } in
      let valid_u : IsShot u = record {
        id = v.id;
        scene = v.scene;
        intent = v.intent;
        references = v.references;
        takes = v.takes;
        accepted = λ id f. let k : b ≡ id = cc in subst IsIdentifier k i;
        clips = subst IsIds ids valid.clips;
      } in
      (rw e (ok_inj (sym made ∙ make_shot-eq_self u valid_u)), valid)
]

pub marked_shots :
    (d : Semantics) (a b clip_id : Text) (ss : List Shot) (pr : Semantics)
    → IsProduction d
    → IsIdentifier b
    → traverse (mark_accepted a b clip_id) d.shots ≡ ok ss
    → rebuild d.scenes ss d.takes ≡ ok pr
    → (pr ≡ record d { shots = map (accepting a b clip_id) d.shots }) × IsProduction pr
marked_shots d a b clip_id ss pr v named e h =
    let mark = mark_accepted a b clip_id in
    let marked =
      traverse-map_inv mark (accepting a b clip_id) d.shots ss
        (All-map {P = IsShot} (λ x w y m. (mark_accepted_inv a b clip_id x y w named m).0) d.shots
          v.shots)
        e in
    let valid_shots =
      All-traverse_valid IsShot IsShot mark
        (λ x y w m. (mark_accepted_inv a b clip_id x y w named m).1) d.shots ss v.shots e in
    let (same, consistent) = rebuild-eq-ok (record d { shots = ss }) pr h in
    let valid : IsProduction (record d { shots = ss }) = record {
      scenes = v.scenes;
      shots = valid_shots;
      takes = v.takes;
      consistent = consistent;
    } in
    (
      same ∙ ap (λ (xs : List Shot). record d { shots = xs }) marked,
      subst IsProduction (sym same) valid,
    )
