-- ===== src/Editor/TimelineCommands/Removing.antt =====
-- `remove_clip` on a valid timeline, alone and after `add_clip`.
use uv_studio.Base.{
  ◌≡◌, ◌≢◌, refl, sym, ap, ◌∙◌, not, List, [], ◌∷◌, ◌++◌, Text, Option, some, ok, >>=-eq-ok, ok_inj,
  In, All, AllPairs, All-In, In-All, All-append_last, All-keep_if, AllPairs-keep_if, keep_if, ◌==◌,
  text_eq_ne, text_eq_refl, Bool-cases, inl, inr, here, there,
}
use mathlib.Core.Path.{subst}
use uv_studio.Base.Sort.{sort, All-sort}
use uv_studio.Projects.Timeline.Clip.{Clip, clip_before}
use uv_studio.Projects.Timeline.Track.{Track}
use uv_studio.Projects.Timeline.Document.{Timeline, all_clips}
use uv_studio.Projects.Timeline.Overlap.{Disjoint, keep_if-sort_clips, sort_clips}
use uv_studio.Projects.Timeline.Validity.{
  IsClip, IsTrack, IsTimeline, DifferentIds, DifferentTracks,
}
use uv_studio.Projects.Timeline.Lookup.{Found, In-all_clips}
use uv_studio.Editor.TimelineCommands.Commands.{AddClip}
use uv_studio.Editor.TimelineCommands.Updates.{Update, put_clips, add_clip, located, remove_clip}
use uv_studio.Editor.TimelineCommands.Swapping.{swap, swap-other, different}
use uv_studio.Editor.TimelineCommands.Replacing.{
  Clips, exchanged, put_clips_iff, put_clips-IsTimeline,
}
use uv_studio.Editor.TimelineCommands.Exchanging.{None}
use uv_studio.Editor.TimelineCommands.Changing.{located-Found, located_unique}
use uv_studio.Editor.TimelineCommands.Adding.{Addition, with_clip, add_clip_inv}

-- The clips that are not named so
abbrev pub others : Text → List Clip → List Clip
others id = keep_if (λ x. not (x.clip_id == id))

-- The update that removes the clip
abbrev pub removing : Timeline → Track → Clip → Update
removing d t c = record {
  timeline = exchanged d t (others c.clip_id t.clips);
  track_id = t.track_id;
  clip_id = some c.clip_id;
}

module _ (d : Timeline) (t : Track) (c : Clip) (v : IsTimeline d) (on : In t d.tracks)
    (m : In c t.clips) where
  kept-Clips : Clips None d t (others c.clip_id t.clips)
  kept-Clips =
      let test = λ (x : Clip). not (x.clip_id == c.clip_id) in
      record {
        timeline = v;
        on = on;
        clips = All-keep_if IsClip test t.clips (All-In IsTrack v.tracks on).clips;
        new = In-All _ (all_clips d.tracks) (λ x m n k. absurd (k refl));
        carries = λ P k new. All-keep_if (λ (x : Clip). P x.clip_id) test t.clips k;
      }

  put_others-eq-ok :
      put_clips d t (others c.clip_id t.clips) ≡ ok (exchanged d t (others c.clip_id t.clips))
  put_others-eq-ok =
      let test = λ (x : Clip). not (x.clip_id == c.clip_id) in
      let track = All-In IsTrack v.tracks on in
      (put_clips_iff None d t (others c.clip_id t.clips) kept-Clips).1 (
        AllPairs-keep_if DifferentIds test t.clips track.ids,
        AllPairs-keep_if Disjoint test t.clips track.disjoint,
      )

  -- For every clip of a valid timeline `remove_clip` computes a timeline: the clips of its track with
  -- another id stay, and nothing else changes. The computed timeline is still to be validated
  -- against the media and committed.
  pub remove_clip-eq-ok : remove_clip c.clip_id d ≡ ok (removing d t c)
  unfolding remove_clip
  remove_clip-eq-ok = rw (located_unique d t c v on m, put_others-eq-ok) refl

  pub removing-IsTimeline : IsTimeline (removing d t c).timeline
  removing-IsTimeline =
      put_clips-IsTimeline None d t (others c.clip_id t.clips) kept-Clips _ put_others-eq-ok

-- What `remove_clip` returns for a valid timeline.
pub remove_clip_inv :
    (id : Text) (d : Timeline) (u : Update)
    → IsTimeline d
    → remove_clip id d ≡ ok u
    → (t : Track) × (c : Clip) × Found id d.tracks t c
      × (u ≡ removing d t c)
      × IsTimeline u.timeline
unfolding remove_clip
remove_clip_inv id d u v eq =
    let ((t, c), r, k) = >>=-eq-ok (located d id) _ eq in
    let found = located-Found d id t c r in
    let (e, put, k') = >>=-eq-ok (put_clips d t (others c.clip_id t.clips)) _ k in
    let exact = ok_inj (sym put ∙ put_others-eq-ok d t c v found.track found.clip) in
    let same : u ≡ removing d t c = sym (ok_inj k') ∙ rw exact refl in
    (
      t,
      c,
      found,
      same,
      subst (λ (w : Update). IsTimeline w.timeline) (sym same)
          (removing-IsTimeline d t c v found.track found.clip),
    )

swap_twice :
    (t u : Track) (ts : List Track)
    → u.track_id ≡ t.track_id
    → AllPairs DifferentTracks ts
    → In t ts
    → swap t.track_id t (swap t.track_id u ts) ≡ ts
swap_twice t u [] same h m = elim m [ ]
swap_twice t u (_ ∷ ts) same h here =
    let rest = swap-other t.track_id u ts (different t ts h.0) in
    rw (text_eq_refl t.track_id, same, text_eq_refl t.track_id, rest)
      (ap (◌∷◌ t) (swap-other t.track_id t ts (different t ts h.0)))
swap_twice t u (x ∷ ts) same h (there m) =
    let other = text_eq_ne x.track_id t.track_id (All-In (DifferentTracks x) h.0 m) in
    rw (other, other) (ap (◌∷◌ x) (swap_twice t u ts same h.1 m))

In-swap : (t u : Track) (ts : List Track) → In t ts → In u (swap t.track_id u ts)
In-swap t u [] m = elim m [ ]
In-swap t u (_ ∷ ts) here = rw (text_eq_refl t.track_id) here
In-swap t u (x ∷ ts) (there m) = elim (Bool-cases (x.track_id == t.track_id)) [
  | inl e ↦ rw e here
  | inr e ↦ there (In-swap t u ts m)
]

In-sort : (c : Clip) (cs : List Clip) → In c (sort clip_before (cs ++ c ∷ []))
In-sort c cs =
    let sorted = sort clip_before (cs ++ c ∷ []) in
    ((All-append_last (λ x. In x sorted) cs c).0
      ((All-sort clip_before (λ x. In x sorted) (cs ++ c ∷ [])).1 (In-All _ sorted (λ x m. m)))).1

others-append :
    (c : Clip) (cs : List Clip)
    → All (λ x. x.clip_id ≢ c.clip_id) cs
    → others c.clip_id (cs ++ c ∷ []) ≡ cs
others-append c [] h = rw (text_eq_refl c.clip_id) refl
others-append c (x ∷ cs) h =
    rw (text_eq_ne x.clip_id c.clip_id h.0) (ap (◌∷◌ x) (others-append c cs h.1))

-- Removing an added clip leaves the track as it was.
others-sort :
    (t : Track) (c : Clip)
    → IsTrack t
    → All (λ x. x.clip_id ≢ c.clip_id) t.clips
    → sort clip_before (others c.clip_id (sort clip_before (t.clips ++ c ∷ []))) ≡ t.clips
others-sort t c v new =
    let test = λ (x : Clip). not (x.clip_id == c.clip_id) in
    rw
      (
        keep_if-sort_clips test (t.clips ++ c ∷ []),
        others-append c t.clips new,
        sort_clips t.clips v.ascending,
        sort_clips t.clips v.ascending,
      )
      refl

-- The update that leaves the timeline as it is
abbrev pub restoring : Timeline → Track → Clip → Update
restoring d t c = record { timeline = d; track_id = t.track_id; clip_id = some c.clip_id }

remove-with_clip :
    (d : Timeline) (t : Track) (c : Clip)
    → Addition d t c
    → IsTimeline (with_clip d t c)
    → remove_clip c.clip_id (with_clip d t c) ≡ ok (restoring d t c)
remove-with_clip d t c h w =
    let grown : Track = record t { clips = sort clip_before (t.clips ++ c ∷ []) } in
    let new =
      In-All (λ x. x.clip_id ≢ c.clip_id) t.clips
        (λ x m. All-In _ h.new (In-all_clips d.tracks h.on m)) in
    let same : removing (with_clip d t c) grown c ≡ restoring d t c =
      rw
        (
          others-sort t c (All-In IsTrack h.timeline.tracks h.on) new,
          swap_twice t grown d.tracks refl h.timeline.track_ids h.on,
        )
        refl in
    remove_clip-eq-ok (with_clip d t c) grown c w (In-swap t grown d.tracks h.on)
      (In-sort c t.clips)
    ∙ ap ok same

some_inj : (s t : Text) → ◌≡◌ {A = Option Text} (some s) (some t) → s ≡ t
some_inj s t h = cc

-- Removing the clip that was added to a valid timeline gives back that timeline.
pub remove_clip-add_clip :
    (new_id : Text) (command : AddClip) (d : Timeline) (u : Update) (id : Text)
    → IsTimeline d
    → add_clip new_id command d ≡ ok u
    → u.clip_id ≡ some id
    → remove_clip id u.timeline ≡ ok (record u { timeline = d })
remove_clip-add_clip new_id command d u id v eq named =
    let (t, c, a) = add_clip_inv new_id command d u v eq in
    let w = subst (λ (w : Update). IsTimeline w.timeline) a.same a.result in
    let undone = remove-with_clip d t c a.addition w in
    let same =
      subst (λ (w : Update). remove_clip c.clip_id w.timeline ≡ ok (record w { timeline = d }))
        (sym a.same) undone in
    let ids = some_inj c.clip_id id (ap (λ (w : Update). w.clip_id) (sym a.same) ∙ named) in
    subst (λ i. remove_clip i u.timeline ≡ ok (record u { timeline = d })) ids same
