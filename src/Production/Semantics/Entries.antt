-- ===== src/Production/Semantics/Entries.antt =====
-- What the constructors of scenes, shots and takes accept: each entry is what its fields say, and
-- a valid one is constructed from its fields as they stand.
use uv_studio.Base.{[], sym, ◌∙◌, ◌≡◌, refl, true, false, some, Text, ok, ok_inj, >>=-eq-ok}
use mathlib.Core.Path.{subst, ap}
use uv_studio.Json.{Json, Items}
use uv_studio.Production.Semantics.Values.{
  identifier, text_of, id_tuple, id_list, optional_identifier, max_text_length,
}
use uv_studio.Production.Semantics.Entities.{
  Scene, Shot, ShotArguments, Take, make_scene, make_shot, make_take, shot_arguments,
}
use uv_studio.Production.Semantics.Checks.{
  IsIdentifier, IsText, IsIds, identifier-IsIdentifier, identifier-eq_self, text_of-IsText,
  text_of-eq_self, id_tuple-IsIds, id_tuple-eq_self, id_tuple-nil, optional_identifier-IsIdentifier,
  optional_identifier-eq_self,
}

pub record IsScene (s : Scene) : Type 0 where
  pub id : IsIdentifier s.scene_id
  pub title : IsText true 500 s.title
  pub summary : IsText false max_text_length s.summary
  pub shots : IsIds s.shot_ids

pub record IsShot (s : Shot) : Type 0 where
  pub id : IsIdentifier s.shot_id
  pub scene : IsIdentifier s.scene_id
  pub intent : IsText true max_text_length s.intent
  pub references : IsIds s.reference_ids
  pub takes : IsIds s.take_ids
  pub accepted : (id : Text) → s.accepted_take_id ≡ some id → IsIdentifier id
  pub clips : IsIds s.timeline_clip_ids

pub record IsTake (t : Take) : Type 0 where
  pub id : IsIdentifier t.take_id
  pub shot : IsIdentifier t.shot_id
  pub reference : IsIdentifier t.reference_id
  pub label : IsText false 500 t.label
  pub notes : IsText false max_text_length t.notes

-- A scene is constructed with valid fields, and from valid fields as they stand.
pub make_scene-IsScene : (a b c d : Json) (s : Scene) → make_scene a b c d ≡ ok s → IsScene s
unfolding make_scene
make_scene-IsScene a b c d s h =
    let (id, e0, h0) = >>=-eq-ok (identifier a) _ h in
    let (t, e1, h1) = >>=-eq-ok (text_of true 500 b) _ h0 in
    let (u, e2, h2) = >>=-eq-ok (text_of false max_text_length c) _ h1 in
    let (ids, e3, h3) = >>=-eq-ok (id_tuple d) _ h2 in
    subst IsScene (ok_inj h3) (record {
      id = identifier-IsIdentifier a id e0;
      title = text_of-IsText true 500 b t e1;
      summary = text_of-IsText false max_text_length c u e2;
      shots = id_tuple-IsIds d ids e3;
    })

-- A scene that is given no shots lists none.
pub make_scene-no_shots :
    (a b c : Json) (s : Scene) → make_scene a b c (Json.arr Items.nil) ≡ ok s → s.shot_ids ≡ []
unfolding make_scene
make_scene-no_shots a b c s h =
    let (_, _, h0) = >>=-eq-ok (identifier a) _ h in
    let (_, _, h1) = >>=-eq-ok (text_of true 500 b) _ h0 in
    let (_, _, h2) = >>=-eq-ok (text_of false max_text_length c) _ h1 in
    let (ids, e, h3) = >>=-eq-ok (id_tuple (Json.arr Items.nil)) _ h2 in
    sym (ap (λ (s : Scene). s.shot_ids) (ok_inj h3)) ∙ ok_inj (sym e ∙ id_tuple-nil)

pub make_scene-eq_self :
    (s : Scene)
    → IsScene s
    → make_scene (Json.str s.scene_id) (Json.str s.title) (Json.str s.summary) (id_list s.shot_ids)
      ≡ ok s
unfolding make_scene
make_scene-eq_self s v =
    rw
      (
        identifier-eq_self s.scene_id v.id,
        text_of-eq_self true 500 s.title v.title,
        text_of-eq_self false max_text_length s.summary v.summary,
        id_tuple-eq_self s.shot_ids v.shots,
      )
      refl

pub make_shot-IsShot : (a : ShotArguments) (s : Shot) → make_shot a ≡ ok s → IsShot s
unfolding make_shot
make_shot-IsShot a s h =
    let (id, e0, h0) = >>=-eq-ok (identifier a.shot_id) _ h in
    let (scene, e1, h1) = >>=-eq-ok (identifier a.scene_id) _ h0 in
    let (i, e2, h2) = >>=-eq-ok (text_of true max_text_length a.intent) _ h1 in
    let (rs, e3, h3) = >>=-eq-ok (id_tuple a.reference_ids) _ h2 in
    let (ts, e4, h4) = >>=-eq-ok (id_tuple a.take_ids) _ h3 in
    let (o, e5, h5) = >>=-eq-ok (optional_identifier a.accepted_take_id) _ h4 in
    let (cs, e6, h6) = >>=-eq-ok (id_tuple a.timeline_clip_ids) _ h5 in
    subst IsShot (ok_inj h6) (record {
      id = identifier-IsIdentifier a.shot_id id e0;
      scene = identifier-IsIdentifier a.scene_id scene e1;
      intent = text_of-IsText true max_text_length a.intent i e2;
      references = id_tuple-IsIds a.reference_ids rs e3;
      takes = id_tuple-IsIds a.take_ids ts e4;
      accepted = optional_identifier-IsIdentifier a.accepted_take_id o e5;
      clips = id_tuple-IsIds a.timeline_clip_ids cs e6;
    })

-- The fields of a shot are its arguments.
pub make_shot_inv :
    (a : ShotArguments) (s : Shot)
    → make_shot a ≡ ok s
    → (identifier a.scene_id ≡ ok s.scene_id)
      × (id_tuple a.take_ids ≡ ok s.take_ids)
      × (optional_identifier a.accepted_take_id ≡ ok s.accepted_take_id)
      × (id_tuple a.timeline_clip_ids ≡ ok s.timeline_clip_ids)
unfolding make_shot
make_shot_inv a s h =
    let (_, _, h0) = >>=-eq-ok (identifier a.shot_id) _ h in
    let (_, e1, h1) = >>=-eq-ok (identifier a.scene_id) _ h0 in
    let (_, _, h2) = >>=-eq-ok (text_of true max_text_length a.intent) _ h1 in
    let (_, _, h3) = >>=-eq-ok (id_tuple a.reference_ids) _ h2 in
    let (_, e4, h4) = >>=-eq-ok (id_tuple a.take_ids) _ h3 in
    let (_, e5, h5) = >>=-eq-ok (optional_identifier a.accepted_take_id) _ h4 in
    let (_, e6, h6) = >>=-eq-ok (id_tuple a.timeline_clip_ids) _ h5 in
    let same = ok_inj h6 in
    (
      e1 ∙ ap (λ (s : Shot). ok s.scene_id) same,
      e4 ∙ ap (λ (s : Shot). ok s.take_ids) same,
      e5 ∙ ap (λ (s : Shot). ok s.accepted_take_id) same,
      e6 ∙ ap (λ (s : Shot). ok s.timeline_clip_ids) same,
    )

pub make_shot-eq_self : (s : Shot) → IsShot s → make_shot (shot_arguments s) ≡ ok s
unfolding make_shot shot_arguments
make_shot-eq_self s v =
    rw
      (
        identifier-eq_self s.shot_id v.id,
        identifier-eq_self s.scene_id v.scene,
        text_of-eq_self true max_text_length s.intent v.intent,
        id_tuple-eq_self s.reference_ids v.references,
        id_tuple-eq_self s.take_ids v.takes,
        optional_identifier-eq_self s.accepted_take_id v.accepted,
        id_tuple-eq_self s.timeline_clip_ids v.clips,
      )
      refl

pub make_take-IsTake : (a b c d e : Json) (t : Take) → make_take a b c d e ≡ ok t → IsTake t
unfolding make_take
make_take-IsTake a b c d e t h =
    let (id, e0, h0) = >>=-eq-ok (identifier a) _ h in
    let (shot, e1, h1) = >>=-eq-ok (identifier b) _ h0 in
    let (r, e2, h2) = >>=-eq-ok (identifier c) _ h1 in
    let (l, e3, h3) = >>=-eq-ok (text_of false 500 d) _ h2 in
    let (n, e4, h4) = >>=-eq-ok (text_of false max_text_length e) _ h3 in
    subst IsTake (ok_inj h4) (record {
      id = identifier-IsIdentifier a id e0;
      shot = identifier-IsIdentifier b shot e1;
      reference = identifier-IsIdentifier c r e2;
      label = text_of-IsText false 500 d l e3;
      notes = text_of-IsText false max_text_length e n e4;
    })

-- The shot of a take is the one that it is given.
pub make_take-shot_id :
    (a b c d e : Json) (t : Take) → make_take a b c d e ≡ ok t → identifier b ≡ ok t.shot_id
unfolding make_take
make_take-shot_id a b c d e t h =
    let (_, _, h0) = >>=-eq-ok (identifier a) _ h in
    let (_, e1, h1) = >>=-eq-ok (identifier b) _ h0 in
    let (_, _, h2) = >>=-eq-ok (identifier c) _ h1 in
    let (_, _, h3) = >>=-eq-ok (text_of false 500 d) _ h2 in
    let (_, _, h4) = >>=-eq-ok (text_of false max_text_length e) _ h3 in
    e1 ∙ ap (λ (t : Take). ok t.shot_id) (ok_inj h4)

pub make_take-eq_self :
    (t : Take)
    → IsTake t
    → make_take
        (Json.str t.take_id)
        (Json.str t.shot_id)
        (Json.str t.reference_id)
        (Json.str t.label)
        (Json.str t.notes)
      ≡ ok t
unfolding make_take
make_take-eq_self t v =
    rw
      (
        identifier-eq_self t.take_id v.id,
        identifier-eq_self t.shot_id v.shot,
        identifier-eq_self t.reference_id v.reference,
        text_of-eq_self false 500 t.label v.label,
        text_of-eq_self false max_text_length t.notes v.notes,
      )
      refl
