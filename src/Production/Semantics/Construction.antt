-- ===== src/Production/Semantics/Construction.antt =====
-- The constructor of a production document accepts exactly what is consistent.
use uv_studio.Base.{
  ◌≡◌, ◌≢◌, ◌↔◌, refl, sym, inl, inr, true, false, not, List, [], map, some, Text, contains,
  all_distinct, all_distinct_iff, All, AllPairs, AllPairs-of_map, All-In, In-All, In, ok, ok_inj,
  raise_if, raise_if-eq-ok, raise_if-of_false, not-of_true, raise_unless_inv, >>=-eq-ok,
  Option-cases, arith,
}
use uv_studio.Base.Keyed.{In-map, contains-In, contains-of_In}
use mathlib.Core.Path.{subst}
use uv_studio.Json.{Json, equals_one}
use uv_studio.Production.Semantics.Entities.{Scene, Shot, Take}
use uv_studio.Production.Semantics.Values.{
  unknown_scene, not_candidate, bad_schema, duplicate_scene, duplicate_shot, duplicate_take,
  unlinked_shots, unlinked_takes,
}
use uv_studio.Production.Semantics.Links.{link_each, same_set}
use uv_studio.Production.Semantics.Validity.{Linked, Checked, passed-Linked, Linked-passes}
use uv_studio.Production.Semantics.Document.{
  Semantics, scene_ids, shot_ids, take_ids, shot_kind, take_kind, scene_pass, shot_pass,
  accepts_other, make_semantics,
}

abbrev pub DifferentScenes : Scene → Scene → Type 0
DifferentScenes a b = a.scene_id ≢ b.scene_id

abbrev pub DifferentShots : Shot → Shot → Type 0
DifferentShots a b = a.shot_id ≢ b.shot_id

abbrev pub DifferentTakes : Take → Take → Type 0
DifferentTakes a b = a.take_id ≢ b.take_id

-- The take that a shot has accepted is one of its takes.
abbrev pub AcceptsOwn : Shot → Type 0
AcceptsOwn s = (id : Text) → s.accepted_take_id ≡ some id → In id s.take_ids

-- The document is consistent.
pub record IsSemantics (d : Semantics) : Type 0 where
  pub scenes_differ : AllPairs DifferentScenes d.scenes
  pub shots_differ : AllPairs DifferentShots d.shots
  pub takes_differ : AllPairs DifferentTakes d.takes
  pub shot_links : Linked shot_kind scene_pass d.scenes d.shots
  pub take_links : Linked take_kind (shot_pass d.scenes) d.shots d.takes
  pub accepted : All AcceptsOwn d.shots

-- No scene lists a shot twice, and no shot a take; scenes and shots are constructed so.
pub record ListsOnce (d : Semantics) : Type 0 where
  pub shots_once : All (λ s. AllPairs (λ a b. a ≢ b) s.shot_ids) d.scenes
  pub takes_once : All (λ s. AllPairs (λ a b. a ≢ b) s.take_ids) d.shots

accepts_other_iff : (s : Shot) → (accepts_other s ≡ false) ↔ AcceptsOwn s
unfolding accepts_other
accepts_other_iff s = elim (Option-cases s.accepted_take_id) [
  | inl e ↦ (λ h id f. absurd (ground arith), λ h. rw (e, accepts_other) refl)
  | inr (t, e) ↦ (
    λ h id f.
        let same : t ≡ id = ground arith in
        let own : not (contains t s.take_ids) ≡ false = rw (e, accepts_other) at h in
        subst (λ (x : Text). In x s.take_ids) same (contains-In t s.take_ids (ground arith)),
    λ h. rw (e, contains-of_In t s.take_ids (h t e), accepts_other) refl,
  )
]

-- Where the shots' scenes are there, what else the loop checks is the accepted takes.
shots-Checked_iff :
    (scenes : List Scene) (shots : List Shot)
    → All (λ s. In s.scene_id (scene_ids scenes)) shots
    → Checked take_kind (shot_pass scenes) shots ↔ All AcceptsOwn shots
unfolding shot_pass
shots-Checked_iff scenes shots h = (
  λ c. In-All AcceptsOwn shots (λ s m.
      let (_, a) = All-In _ c m in
      (accepts_other_iff s).0 (raise_if-eq-ok (accepts_other s) not_candidate a)),
  λ c. In-All _ shots (λ s m. (
    raise_if-of_false _ unknown_scene
        (not-of_true _ (contains-of_In s.scene_id (scene_ids scenes) (All-In _ h m))),
    raise_if-of_false _ not_candidate ((accepts_other_iff s).1 (All-In AcceptsOwn c m)),
  )),
)

distinct_iff {ℓ} :
    {A : Type ℓ} (key : A → Text) (xs : List A)
    → (all_distinct (map key xs) ≡ true) ↔ AllPairs (λ a b. key a ≢ key b) xs
distinct_iff key xs = (
  λ h. (AllPairs-of_map (λ a b. a ≢ b) key xs).0 ((all_distinct_iff (map key xs)).0 h),
  λ h. (all_distinct_iff (map key xs)).1 ((AllPairs-of_map (λ a b. a ≢ b) key xs).1 h),
)

-- The scene of a shot is there, as the links of the scenes say.
scenes_known :
    (d : Semantics)
    → Linked shot_kind scene_pass d.scenes d.shots
    → All (λ s. In s.scene_id (scene_ids d.scenes)) d.shots
scenes_known d l = In-All _ d.shots (λ s m.
    let (p, n, f, o) = All-In _ l.up m in
    subst (λ (x : Text). In x (scene_ids d.scenes)) f (In-map (λ (t : Scene). t.scene_id) n))

pub make_semantics_inv :
    (v : Json) (d out : Semantics)
    → make_semantics v d.scenes d.shots d.takes ≡ ok out
    → (equals_one v ≡ true) × IsSemantics d × (out ≡ d)
unfolding make_semantics
make_semantics_inv v d out h =
    let (_, e0, h0) = >>=-eq-ok (raise_if (not (equals_one v)) bad_schema) _ h in
    let (_, e1, h1) =
      >>=-eq-ok (raise_if (not (all_distinct (scene_ids d.scenes))) duplicate_scene) _ h0 in
    let (_, e2, h2) =
      >>=-eq-ok (raise_if (not (all_distinct (shot_ids d.shots))) duplicate_shot) _ h1 in
    let (_, e3, h3) =
      >>=-eq-ok (raise_if (not (all_distinct (take_ids d.takes))) duplicate_take) _ h2 in
    let (ls, e4, h4) = >>=-eq-ok (link_each shot_kind scene_pass d.shots [] d.scenes) _ h3 in
    let (_, e5, h5) =
      >>=-eq-ok (raise_if (not (same_set ls (shot_ids d.shots))) unlinked_shots) _ h4 in
    let (lt, e6, h6) =
      >>=-eq-ok (link_each take_kind (shot_pass d.scenes) d.takes [] d.shots) _ h5 in
    let (_, e7, h7) =
      >>=-eq-ok (raise_if (not (same_set lt (take_ids d.takes))) unlinked_takes) _ h6 in
    let shots = (distinct_iff (λ (s : Shot). s.shot_id) d.shots).0 (raise_unless_inv _ _ e2) in
    let takes = (distinct_iff (λ (t : Take). t.take_id) d.takes).0 (raise_unless_inv _ _ e3) in
    let (linked, _) =
      passed-Linked shot_kind scene_pass d.scenes d.shots ls shots e4 (raise_unless_inv _ _ e5) in
    let (linked', checked) =
      passed-Linked take_kind (shot_pass d.scenes) d.shots d.takes lt takes e6
        (raise_unless_inv _ _ e7) in
    (
      raise_unless_inv _ _ e0,
      record {
        scenes_differ =
            (distinct_iff (λ (s : Scene). s.scene_id) d.scenes).0 (raise_unless_inv _ _ e1);
        shots_differ = shots;
        takes_differ = takes;
        shot_links = linked;
        take_links = linked';
        accepted = (shots-Checked_iff d.scenes d.shots (scenes_known d linked)).0 checked;
      },
      sym (ok_inj h7),
    )

make_semantics-eq-ok :
    (v : Json) (d : Semantics)
    → ListsOnce d
    → equals_one v ≡ true
    → IsSemantics d
    → make_semantics v d.scenes d.shots d.takes ≡ ok d
unfolding make_semantics
make_semantics-eq-ok v d once e i =
    let (out, h, s) =
      Linked-passes shot_kind scene_pass d.scenes d.shots i.shots_differ i.scenes_differ
        once.shots_once i.shot_links (In-All _ d.scenes (λ x m. (refl, refl))) in
    let (out', h', s') =
      Linked-passes take_kind (shot_pass d.scenes) d.shots d.takes i.takes_differ i.shots_differ
        once.takes_once i.take_links
        ((shots-Checked_iff d.scenes d.shots (scenes_known d i.shot_links)).1 i.accepted) in
    rw
      (
        e,
        (distinct_iff (λ (s : Scene). s.scene_id) d.scenes).1 i.scenes_differ,
        (distinct_iff (λ (s : Shot). s.shot_id) d.shots).1 i.shots_differ,
        (distinct_iff (λ (t : Take). t.take_id) d.takes).1 i.takes_differ,
        h,
        s,
        h',
        s',
      )
      refl

-- A document whose scenes and shots list no id twice is constructed exactly if its schema version
-- equals 1 and it is consistent: ids of scenes, shots and takes are different, every shot that a
-- scene lists is a shot of that scene and every shot is listed by a scene that is there, the same
-- between shots and takes, and an accepted take is one of the shot's takes.
pub make_semantics_iff :
    (v : Json) (d : Semantics)
    → ListsOnce d
    → (make_semantics v d.scenes d.shots d.takes ≡ ok d) ↔ ((equals_one v ≡ true) × IsSemantics d)
make_semantics_iff v d once = (
  λ h. let (e, i, _) = make_semantics_inv v d d h in (e, i),
  λ h. make_semantics-eq-ok v d once h.0 h.1,
)
