-- ===== src/Production/Commands/Showing.antt =====
-- The timeline that shows an accepted take stays valid.
use uv_studio.Base.{
  ◌≡◌, inl, inr, true, false, not, List, [], ◌∷◌, ◌++◌, any, Text, ◌==◌, All, All-append,
  All-append_last, ok, ok_inj, ◌>>=◌, >>=-eq-ok, raise_if, or_raise, or_raise-eq-ok, traverse,
  All-traverse_valid, Bool-cases, codes,
}
use mathlib.Core.Path.{subst}
use uv_studio.Json.{Json, num}
use uv_studio.Projects.Timeline.Clip.{Clip, ClipArguments, make_clip}
use uv_studio.Projects.Timeline.Track.{
  Track, TrackArguments, track_arguments, make_track, replace_clips,
}
use uv_studio.Projects.Timeline.Document.{Timeline, make_timeline}
use uv_studio.Projects.Timeline.Validity.{IsClip, IsTrack, IsTimeline}
use uv_studio.Projects.Timeline.Construction.{make_clip-IsClip, make_track-IsTrack}
use uv_studio.Projects.Timeline.Reading.{make_timeline-IsTimeline}
use uv_studio.Production.Commands.Errors.{ProductionError, timeline, not_video}
use uv_studio.Production.Commands.Acceptance.{
  is_video, put_clip, missing_track, add_video_clip, accepted_clip,
}
use uv_studio.Production.Commands.Binding.{AcceptTake}

pub accepted_clip-IsClip :
    (id reference_id : Text) (c : AcceptTake) (clip : Clip)
    → accepted_clip id reference_id c ≡ ok clip
    → IsClip clip
unfolding accepted_clip
accepted_clip-IsClip id reference_id c clip h =
    let arguments : ClipArguments = record {
      clip_id = Json.str id;
      reference_id = Json.str reference_id;
      timeline_start_us = c.timeline_start_us;
      source_start_us = c.source_start_us;
      duration_us = c.duration_us;
      enabled = Json.bool true;
      muted = Json.bool false;
    } in
    make_clip-IsClip arguments clip (or_raise-eq-ok (make_clip arguments) timeline h)

put_clip-IsTrack :
    (id : Text) (clip : Clip) (t u : Track)
    → IsClip clip
    → IsTrack t
    → put_clip id clip t ≡ ok u
    → IsTrack u
unfolding put_clip replace_clips track_arguments
put_clip-IsTrack id clip t u i v h = elim (Bool-cases (t.track_id == id)) [
  | inr e ↦ subst IsTrack (ok_inj {E = ProductionError} (rw (e, put_clip) at h)) v
  | inl e ↦
      let h1 : (raise_if (not (is_video t)) not_video >>= λ _.
      or_raise (replace_clips t (t.clips ++ clip ∷ [])) timeline)
          ≡ ok u =
        rw (e, put_clip) at h in
      let (_, _, h2) = >>=-eq-ok (raise_if (not (is_video t)) not_video) _ h1 in
      (make_track-IsTrack (track_arguments t (t.clips ++ clip ∷ [])) u
        ((All-append_last IsClip t.clips clip).1 (v.clips, i))
        (or_raise-eq-ok (replace_clips t (t.clips ++ clip ∷ [])) timeline h2)).0
]

missing_track-IsTrack :
    (id : Text) (clip : Clip) (ts us : List Track)
    → IsClip clip
    → missing_track id clip ts ≡ ok us
    → All IsTrack us
unfolding missing_track
missing_track-IsTrack id clip ts us i h = elim (Bool-cases (any (λ t. t.track_id == id) ts)) [
  | inl e ↦ subst (All IsTrack) (ok_inj {E = ProductionError} (rw (e, missing_track) at h)) tt
  | inr e ↦
      let arguments : TrackArguments = record {
        track_id = Json.str id;
        kind = Json.str (codes "video");
        title = Json.str (codes "Production Video");
        clips = clip ∷ [];
        enabled = Json.bool true;
        muted = Json.bool false;
      } in
      let h1 : (or_raise (make_track arguments) timeline >>= λ t. ok (t ∷ [])) ≡ ok us =
        rw (e, missing_track) at h in
      let (t, e1, h2) = >>=-eq-ok (or_raise (make_track arguments) timeline) _ h1 in
      subst (All IsTrack) (ok_inj h2) (
        (make_track-IsTrack arguments t (i, tt)
            (or_raise-eq-ok (make_track arguments) timeline e1)).0,
        tt,
      )
]

pub add_video_clip-IsTimeline :
    (d e : Timeline) (id : Text) (clip : Clip)
    → IsTimeline d
    → IsClip clip
    → add_video_clip d id clip ≡ ok e
    → IsTimeline e
unfolding add_video_clip
add_video_clip-IsTimeline d e id clip v i h =
    let (ts, e0, h0) = >>=-eq-ok (traverse (put_clip id clip) d.tracks) _ h in
    let (us, e1, h1) = >>=-eq-ok (missing_track id clip d.tracks) _ h0 in
    let old =
      All-traverse_valid IsTrack IsTrack (put_clip id clip)
        (λ t u w. put_clip-IsTrack id clip t u i w) d.tracks ts v.tracks e0 in
    let new = missing_track-IsTrack id clip d.tracks us i e1 in
    make_timeline-IsTimeline (num 1) (Json.str d.timeline_id) (ts ++ us) e
      (All-append IsTrack ts us old new)
      (or_raise-eq-ok (make_timeline (num 1) (Json.str d.timeline_id) (ts ++ us)) timeline h1)
