-- ===== src/Editor/TimelineCommands/Replacing.antt =====
-- Other clips on one track of a valid timeline.
use uv_studio.Base.{
  ◌≡◌, refl, sym, ◌∙◌, ◌↔◌, List, Text, All, AllPairs, In, All-In, ok, or_raise, >>=-eq-ok,
  or_raise-eq-ok, ok_inj,
}
use uv_studio.Base.Sort.{sort, All-sort}
use uv_studio.Projects.Timeline.Clip.{Clip, clip_before}
use uv_studio.Projects.Timeline.Track.{Track, replace_clips, track_arguments}
use uv_studio.Projects.Timeline.Document.{Timeline, all_clips}
use uv_studio.Projects.Timeline.Overlap.{Disjoint}
use uv_studio.Projects.Timeline.Validity.{IsClip, IsTrack, IsTimeline, DifferentIds}
use uv_studio.Projects.Timeline.Construction.{
  replace_clips_iff, replace_clips_inv, make_track-IsTrack,
}
use uv_studio.Projects.Timeline.Printing.{make_timeline-eq_self}
use uv_studio.Editor.TimelineCommands.Commands.{rejected}
use uv_studio.Editor.TimelineCommands.Updates.{replace_track, put_clips}
use uv_studio.Editor.TimelineCommands.Swapping.{
  swap, All-swap, Carries, Fresh, AllPairs-ids-swap, DifferentTracks-swap,
}

-- A timeline with valid clips on one of its tracks exchanged
abbrev pub exchanged : Timeline → Track → List Clip → Timeline
exchanged d t cs = record d {
  tracks = swap t.track_id (record t { clips = sort clip_before cs }) d.tracks;
}

exchanged-IsTimeline :
    (IsNew : Text → Type 0) (d : Timeline) (t : Track) (cs : List Clip)
    → IsTimeline d
    → In t d.tracks
    → Fresh IsNew (all_clips d.tracks)
    → Carries IsNew t (record t { clips = cs })
    → IsTrack (record t { clips = sort clip_before cs })
    → IsTimeline (exchanged d t cs)
exchanged-IsTimeline IsNew d t cs v on new carries u =
    let sorted : Track = record t { clips = sort clip_before cs } in
    let carried : Carries IsNew t sorted =
      λ P h k. (All-sort clip_before (λ c. P c.clip_id) cs).0 (carries P h k) in
    record {
      id = v.id;
      tracks = All-swap IsTrack t.track_id sorted d.tracks u v.tracks;
      track_ids = DifferentTracks-swap t.track_id sorted d.tracks refl v.track_ids;
      clip_ids =
          AllPairs-ids-swap IsNew t sorted carried refl d.tracks v.track_ids on new u.ids
            v.clip_ids;
    }

-- Clips for one track of a valid timeline: valid ones, whose ids are the track's or new.
pub record Clips (IsNew : Text → Type 0) (d : Timeline) (t : Track) (cs : List Clip) : Type 1 where
  pub timeline : IsTimeline d
  pub on : In t d.tracks
  pub clips : All IsClip cs
  pub new : Fresh IsNew (all_clips d.tracks)
  pub carries : Carries IsNew t (record t { clips = cs })

-- Putting clips on a track succeeds exactly if they have different ids and are disjoint; then
-- nothing else of the timeline changes.
module _ (IsNew : Text → Type 0) (d : Timeline) (t : Track) (cs : List Clip)
    (h : Clips IsNew d t cs) where
  sorted :
      AllPairs DifferentIds cs
      → AllPairs Disjoint cs
      → IsTrack (record t { clips = sort clip_before cs })
  unfolding track_arguments
  sorted ids disjoint =
      let v = All-In IsTrack h.timeline.tracks h.on in
      let replaced = (replace_clips_iff t cs v h.clips).1 (ids, disjoint) in
      (make_track-IsTrack (track_arguments t cs) (record t { clips = sort clip_before cs }) h.clips
        (unfold replace_clips in replaced)).0

  put_clips-eq-ok :
      AllPairs DifferentIds cs → AllPairs Disjoint cs → put_clips d t cs ≡ ok (exchanged d t cs)
  unfolding put_clips replace_track
  put_clips-eq-ok ids disjoint =
      let v = All-In IsTrack h.timeline.tracks h.on in
      let replaced = (replace_clips_iff t cs v h.clips).1 (ids, disjoint) in
      rw
        (
          replaced,
          make_timeline-eq_self (exchanged d t cs) (
              exchanged-IsTimeline IsNew d t cs h.timeline h.on h.new h.carries
                (sorted ids disjoint)),
        )
        refl

  pub put_clips_inv :
      (e : Timeline)
      → put_clips d t cs ≡ ok e
      → (e ≡ exchanged d t cs) × AllPairs DifferentIds cs × AllPairs Disjoint cs
  unfolding put_clips
  put_clips_inv e eq =
      let v = All-In IsTrack h.timeline.tracks h.on in
      let (u, r, _) =
        >>=-eq-ok (or_raise (replace_clips t cs) rejected)
          (λ u. or_raise (replace_track d t.track_id u) rejected) eq in
      let (_, ids, disjoint) =
        replace_clips_inv t u cs v h.clips (or_raise-eq-ok (replace_clips t cs) rejected r) in
      (ok_inj (sym eq ∙ put_clips-eq-ok ids disjoint), ids, disjoint)

  -- Clips are put on a track exactly if they have different ids and are disjoint.
  pub put_clips_iff :
      (put_clips d t cs ≡ ok (exchanged d t cs)) ↔ (AllPairs DifferentIds cs × AllPairs Disjoint cs)
  put_clips_iff = (
    λ eq. let (_, ids, disjoint) = put_clips_inv (exchanged d t cs) eq in (ids, disjoint),
    λ k. put_clips-eq-ok k.0 k.1,
  )

  -- The timeline with the clips put on a track is valid.
  pub put_clips-IsTimeline : (e : Timeline) → put_clips d t cs ≡ ok e → IsTimeline e
  put_clips-IsTimeline e eq =
      let (same, ids, disjoint) = put_clips_inv e eq in
      rw same
        (exchanged-IsTimeline IsNew d t cs h.timeline h.on h.new h.carries (sorted ids disjoint))
