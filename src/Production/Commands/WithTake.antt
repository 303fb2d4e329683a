-- ===== src/Production/Commands/WithTake.antt =====
-- A production with one more take stays valid.
use uv_studio.Base.{
  ◌≡◌, ◌≢◌, refl, sym, ◌∙◌, inl, inr, true, false, [], ◌∷◌, ◌++◌, map, Text, ◌==◌, text_eq_iff,
  text_eq_ne, All, All-append_last, All-map, All-In, In-All, All-of_map, AllPairs-append_last, In,
  In-append_left, Bool-cases, if◌then◌else◌,
}
use uv_studio.Base.Keyed.{AllPairs-same_keys}
use uv_studio.Production.Semantics.Checks.{IsIdentifier}
use uv_studio.Production.Semantics.Entities.{Shot, Take}
use uv_studio.Production.Semantics.Entries.{IsShot, IsTake}
use uv_studio.Production.Semantics.Document.{Semantics, shot_kind, take_kind, scene_pass, shot_pass}
use uv_studio.Production.Semantics.Growing.{Linked-children, Linked-add_child, Linked-fresh}
use uv_studio.Production.Semantics.Construction.{DifferentTakes, AcceptsOwn}
use uv_studio.Production.Semantics.Reading.{IsProduction}
use uv_studio.Production.Commands.Extending.{IsIds-append}

-- The shot of this id offers one more take.
abbrev pub listing_take : Text → Text → Shot → Shot
listing_take shot_id take_id s =
    if s.shot_id == shot_id then record s { take_ids = s.take_ids ++ take_id ∷ [] } else s

abbrev pub with_take : Semantics → Text → Take → Semantics
with_take d shot_id t = record d {
  shots = map (listing_take shot_id t.take_id) d.shots;
  takes = d.takes ++ t ∷ [];
}

listing_take_id : (a b : Text) (s : Shot) → (listing_take a b s).shot_id ≡ s.shot_id
listing_take_id a b s = elim (Bool-cases (s.shot_id == a)) [ inl e ↦ rw e refl | inr e ↦ rw e refl ]

listing_take_scene : (a b : Text) (s : Shot) → (listing_take a b s).scene_id ≡ s.scene_id
listing_take_scene a b s = elim (Bool-cases (s.shot_id == a)) [
  | inl e ↦ rw e refl
  | inr e ↦ rw e refl
]

listing_take-AcceptsOwn : (a b : Text) (s : Shot) → AcceptsOwn s → AcceptsOwn (listing_take a b s)
listing_take-AcceptsOwn a b s h = elim (Bool-cases (s.shot_id == a)) [
  | inl e ↦ rw e (λ id f. In-append_left (b ∷ []) (h id f))
  | inr e ↦ rw e h
]

listing_take-IsShot :
    (a b : Text) (s : Shot)
    → IsShot s
    → IsIdentifier b
    → All (λ x. x ≢ b) s.take_ids
    → IsShot (listing_take a b s)
listing_take-IsShot a b s v i n = elim (Bool-cases (s.shot_id == a)) [
  | inl e ↦ rw e (record {
    id = v.id;
    scene = v.scene;
    intent = v.intent;
    references = v.references;
    takes = IsIds-append s.take_ids b v.takes i n;
    accepted = v.accepted;
    clips = v.clips;
  })
  | inr e ↦ rw e v
]

pub with_take-IsProduction :
    (d : Semantics) (shot : Shot) (t : Take)
    → IsProduction d
    → IsTake t
    → In shot d.shots
    → t.shot_id ≡ shot.shot_id
    → All (λ u. u.take_id ≢ t.take_id) d.takes
    → IsProduction (with_take d shot.shot_id t)
unfolding shot_pass
with_take-IsProduction d shot t v i m e n =
    let add = listing_take shot.shot_id t.take_id in
    let fresh =
      Linked-fresh take_kind (shot_pass d.scenes) d.shots d.takes t.take_id v.consistent.take_links
        n in
    let shots_valid =
      In-All (λ s. IsShot (add s)) d.shots
        (λ s k.
          listing_take-IsShot shot.shot_id t.take_id s (All-In IsShot v.shots k) i.id
            (All-In (λ (s : Shot). All (λ x. x ≢ t.take_id) s.take_ids) fresh k)) in
    let grown = λ (s : Shot) (f : s.shot_id ≡ t.shot_id).
      let same : s.shot_id == shot.shot_id ≡ true =
        (text_eq_iff s.shot_id shot.shot_id).1 (f ∙ e) in
      let out : (add s).take_ids ≡ s.take_ids ++ t.take_id ∷ [] = rw same refl in out in
    let kept = λ (s : Shot) (f : s.shot_id ≢ t.shot_id).
      let other : s.shot_id == shot.shot_id ≡ false =
        text_eq_ne s.shot_id shot.shot_id (λ g. f (g ∙ sym e)) in
      let out : (add s).take_ids ≡ s.take_ids = rw other refl in out in
    record {
      scenes = v.scenes;
      shots = (All-of_map IsShot add d.shots).1 shots_valid;
      takes = (All-append_last IsTake d.takes t).1 (v.takes, i);
      consistent = record {
        scenes_differ = v.consistent.scenes_differ;
        shots_differ =
            AllPairs-same_keys (λ s. s.shot_id) add d.shots (listing_take_id shot.shot_id t.take_id)
              v.consistent.shots_differ;
        takes_differ =
            (AllPairs-append_last DifferentTakes d.takes t).1 (v.consistent.takes_differ, n);
        shot_links =
            Linked-children shot_kind scene_pass add d.scenes d.shots
              (listing_take_id shot.shot_id t.take_id) (listing_take_scene shot.shot_id t.take_id)
              v.consistent.shot_links;
        take_links =
            Linked-add_child take_kind (shot_pass d.scenes) add d.shots d.takes t shot
              (listing_take_id shot.shot_id t.take_id) grown kept m (sym e) v.consistent.take_links;
        accepted = (All-of_map AcceptsOwn add d.shots).1 (
            All-map {P = AcceptsOwn} (listing_take-AcceptsOwn shot.shot_id t.take_id) d.shots
              v.consistent.accepted);
      };
    }
