-- ===== src/Editor/TimelineCommands/Adding.antt =====
-- `create_track`, `add_clip` and `remove_clip` on a valid timeline: when they return, and what.
use uv_studio.Base.{
  Bool, ◌≡◌, ◌≢◌, refl, sym, ◌∙◌, ◌↔◌, false, List, [], ◌∷◌, ◌++◌, Text, some, ok, raise_if,
  raise_if-eq-ok, or_raise, >>=-eq-ok, or_raise-eq-ok, ok_inj, arith, In, All, AllPairs, All-In,
  In-All, All-append_last, AllPairs-append_last, All-map, any, find?, ◌==◌, text_eq_iff, text_eq_ne,
  text_eq_refl, Bool-cases, inl, inr, here, there, Option-cases,
}
use mathlib.Core.Path.{subst}
use uv_studio.Projects.Timeline.Clip.{Clip}
use uv_studio.Projects.Timeline.Track.{Track}
use uv_studio.Projects.Timeline.Document.{Timeline, find_track, all_clips}
use uv_studio.Projects.Timeline.Overlap.{Disjoint}
use uv_studio.Projects.Timeline.Validity.{
  IsClip, IsTrack, IsTimeline, DifferentIds, DifferentTracks,
}
use uv_studio.Projects.Timeline.Construction.{make_clip-IsClip}
use uv_studio.Projects.Timeline.Lookup.{In-all_clips}
use uv_studio.Editor.TimelineCommands.Commands.{clip_exists, track_missing, text_or, AddClip}
use uv_studio.Editor.TimelineCommands.Updates.{Update, put_clips, added_clip, add_clip}
use uv_studio.Editor.TimelineCommands.Replacing.{
  Clips, exchanged, put_clips_iff, put_clips_inv, put_clips-IsTimeline,
}
use uv_studio.Editor.TimelineCommands.Changing.{make_clip_inv, str_inj}

find-In : {A : Type 0} (test : A → Bool) (xs : List A) (x : A) → find? test xs ≡ some x → In x xs
find-In test [] x h = cc
find-In test (y ∷ xs) x h = elim (Bool-cases (test y)) [
  | inl e ↦ let same : y ≡ x = ground arith in subst (λ z. In z (y ∷ xs)) same here
  | inr e ↦ there (find-In test xs x (ground arith))
]

find_track-In : (d : Timeline) (id : Text) (t : Track) → find_track d id ≡ ok t → In t d.tracks
unfolding find_track
find_track-In d id t h = elim (Option-cases (find? (λ t. t.track_id == id) d.tracks)) [
  | inl e ↦ ground arith
  | inr (u, e) ↦ find-In (λ t. t.track_id == id) d.tracks t (ground arith)
]

any-false :
    (id : Text) (cs : List Clip)
    → any (λ c. c.clip_id == id) cs ≡ false
    → All (λ c. c.clip_id ≢ id) cs
any-false id [] h = tt
any-false id (c ∷ cs) h =
    ((λ q. let k = (text_eq_iff c.clip_id id).1 q in ground arith), any-false id cs (ground arith))

any-none :
    (id : Text) (cs : List Clip)
    → All (λ c. c.clip_id ≢ id) cs
    → any (λ c. c.clip_id == id) cs ≡ false
any-none id [] h = refl
any-none id (c ∷ cs) h = rw (text_eq_ne c.clip_id id h.0) (any-none id cs h.1)

-- A valid clip with a new id, for a track of a valid timeline
pub record Addition (d : Timeline) (t : Track) (c : Clip) : Type 0 where
  pub timeline : IsTimeline d
  pub on : In t d.tracks
  pub valid : IsClip c
  pub new : All (λ x. x.clip_id ≢ c.clip_id) (all_clips d.tracks)

-- The timeline with the clip added
abbrev pub with_clip : Timeline → Track → Clip → Timeline
with_clip d t c = exchanged d t (t.clips ++ c ∷ [])

module _ (d : Timeline) (t : Track) (c : Clip) (h : Addition d t c) where
  added-Clips : Clips (λ n. n ≡ c.clip_id) d t (t.clips ++ c ∷ [])
  added-Clips =
      let v = All-In IsTrack h.timeline.tracks h.on in
      record {
        timeline = h.timeline;
        on = h.on;
        clips = (All-append_last IsClip t.clips c).1 (v.clips, h.valid);
        new = All-map (λ x ne n e q. ne (q ∙ e)) (all_clips d.tracks) h.new;
        carries = λ P k new.
            (All-append_last (λ (x : Clip). P x.clip_id) t.clips c).1 (k, new c.clip_id refl);
      }

  put_new_clip_iff :
      (put_clips d t (t.clips ++ c ∷ []) ≡ ok (with_clip d t c)) ↔ All (λ x. Disjoint x c) t.clips
  put_new_clip_iff =
      let v = All-In IsTrack h.timeline.tracks h.on in
      let iff = put_clips_iff (λ n. n ≡ c.clip_id) d t (t.clips ++ c ∷ []) added-Clips in
      let ids =
        In-All (λ x. DifferentIds x c) t.clips
          (λ x m. All-In _ h.new (In-all_clips d.tracks h.on m)) in
      (
        λ eq. ((AllPairs-append_last Disjoint t.clips c).0 (iff.0 eq).1).1,
        λ clear. iff.1 (
          (AllPairs-append_last DifferentIds t.clips c).1 (v.ids, ids),
          (AllPairs-append_last Disjoint t.clips c).1 (v.disjoint, clear),
        ),
      )

  put_new_clip_inv :
      (e : Timeline)
      → put_clips d t (t.clips ++ c ∷ []) ≡ ok e
      → (e ≡ with_clip d t c) × All (λ x. Disjoint x c) t.clips × IsTimeline e
  put_new_clip_inv e eq =
      let cs = t.clips ++ c ∷ [] in
      let new : Text → Type 0 = λ n. n ≡ c.clip_id in
      let (same, _, disjoint) = put_clips_inv new d t cs added-Clips e eq in
      (
        same,
        ((AllPairs-append_last Disjoint t.clips c).0 disjoint).1,
        put_clips-IsTimeline new d t cs added-Clips e eq,
      )

find_track_unique :
    (d : Timeline) (t : Track) → IsTimeline d → In t d.tracks → find_track d t.track_id ≡ ok t
unfolding find_track
find_track_unique d t v on = rw (go d.tracks v.track_ids on, find_track) refl
  where
    go :
        (ts : List Track)
        → AllPairs DifferentTracks ts
        → In t ts
        → find? (λ x. x.track_id == t.track_id) ts ≡ some t
    go [] ids m = elim m [ ]
    go (_ ∷ ts) ids here = rw (text_eq_refl t.track_id) refl
    go (x ∷ ts) ids (there m) =
        rw (text_eq_ne x.track_id t.track_id (All-In (DifferentTracks x) ids.0 m)) (go ts ids.1 m)

-- The update that adds the clip
abbrev pub adding : Timeline → Track → Clip → Update
adding d t c = record {
  timeline = with_clip d t c;
  track_id = t.track_id;
  clip_id = some c.clip_id;
}

eq-adding :
    (d : Timeline) (t : Track) (c : Clip) (e : Timeline) (id : Text)
    → e ≡ with_clip d t c
    → id ≡ c.clip_id
    → ◌≡◌ {A = Update}
        (record { timeline = e; track_id = t.track_id; clip_id = some id })
        (adding d t c)
eq-adding d t c e id same named = rw (same, named) refl

added_clip-Clip :
    (id : Text) (command : AddClip) (c : Clip)
    → added_clip id command ≡ ok c
    → IsClip c × (id ≡ c.clip_id)
unfolding added_clip
added_clip-Clip id command c h =
    let made = or_raise-eq-ok _ _ h in
    (make_clip-IsClip _ c made, str_inj id c.clip_id (make_clip_inv _ c made).0)

-- What `add_clip` comes to, once it returns.
pub record Added (new_id : Text) (command : AddClip) (d : Timeline) (u : Update) (t : Track)
    (c : Clip) : Type 0 where
  pub addition : Addition d t c
  pub made : added_clip (text_or new_id command.clip_id) command ≡ ok c
  pub clear : All (λ x. Disjoint x c) t.clips
  pub same : u ≡ adding d t c
  pub result : IsTimeline u.timeline

pub add_clip_inv :
    (new_id : Text) (command : AddClip) (d : Timeline) (u : Update)
    → IsTimeline d
    → add_clip new_id command d ≡ ok u
    → (t : Track) × (c : Clip) × Added new_id command d u t c
unfolding add_clip
add_clip_inv new_id command d u v eq =
    let id = text_or new_id command.clip_id in
    let (t, r, k) =
      >>=-eq-ok (or_raise (find_track d command.track_id) (λ _. track_missing command.track_id)) _
        eq in
    let (_, clear, k1) =
      >>=-eq-ok (raise_if (any (λ c. c.clip_id == id) (all_clips d.tracks)) (clip_exists id)) _ k in
    let (c, made, k2) = >>=-eq-ok (added_clip id command) _ k1 in
    let (e, put, k3) = >>=-eq-ok (put_clips d t (t.clips ++ c ∷ [])) _ k2 in
    let (valid, same) = added_clip-Clip id command c made in
    let on =
      find_track-In d command.track_id t (or_raise-eq-ok (find_track d command.track_id) _ r) in
    let new = any-false id (all_clips d.tracks) (raise_if-eq-ok _ _ clear) in
    let addition : Addition d t c = record {
      timeline = v;
      on = on;
      valid = valid;
      new = subst (λ i. All (λ x. x.clip_id ≢ i) (all_clips d.tracks)) same new;
    } in
    let (exact, disjoint, result) = put_new_clip_inv d t c addition e put in
    (
      t,
      c,
      record {
        addition = addition;
        made = made;
        clear = disjoint;
        same = sym (ok_inj k3) ∙ eq-adding d t c e id exact same;
        result = subst (λ (w : Update). IsTimeline w.timeline) (ok_inj k3) result;
      },
    )

-- Where the clip of an `add_clip` command is valid and its id new, `add_clip` computes from a valid
-- timeline the one with that clip on the track, exactly if the clip plays at no time of a clip of
-- that track. The computed timeline is still to be validated against the media and committed.
pub add_clip_iff :
    (new_id : Text) (command : AddClip) (d : Timeline) (t : Track) (c : Clip)
    → Addition d t c
    → t.track_id ≡ command.track_id
    → added_clip (text_or new_id command.clip_id) command ≡ ok c
    → (add_clip new_id command d ≡ ok (adding d t c)) ↔ All (λ x. Disjoint x c) t.clips
unfolding add_clip
add_clip_iff new_id command d t c h track made =
    let (valid, same) = added_clip-Clip (text_or new_id command.clip_id) command c made in
    let new = any-none c.clip_id (all_clips d.tracks) h.new in
    (
      λ eq.
          let found =
            rw (sym track, find_track_unique d t h.timeline h.on, made, same, new, add_clip) at
              eq in
          let (e, put, _) = >>=-eq-ok (put_clips d t (t.clips ++ c ∷ [])) _ found in
          let (_, clear, _) = put_new_clip_inv d t c h e put in clear,
      λ clear.
          rw
            (
              sym track,
              find_track_unique d t h.timeline h.on,
              made,
              same,
              new,
              (put_new_clip_iff d t c h).1 clear,
            )
            refl,
    )
