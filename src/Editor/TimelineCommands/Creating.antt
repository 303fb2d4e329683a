-- ===== src/Editor/TimelineCommands/Creating.antt =====
-- `create_track` on a valid timeline.
use uv_studio.Base.{
  ◌≡◌, [], ◌∷◌, ◌++◌, Text, ok, raise_if, or_raise, >>=-eq-ok, or_raise-eq-ok, ok_inj,
  All-append_last, any, ◌==◌,
}
use mathlib.Core.Path.{subst}
use uv_studio.Json.{Json, num}
use uv_studio.Projects.Timeline.Track.{make_track}
use uv_studio.Projects.Timeline.Document.{Timeline, make_timeline}
use uv_studio.Projects.Timeline.Validity.{IsTrack, IsTimeline}
use uv_studio.Projects.Timeline.Construction.{make_track-IsTrack}
use uv_studio.Projects.Timeline.Reading.{make_timeline-IsTimeline}
use uv_studio.Editor.TimelineCommands.Commands.{escaped, track_exists, text_or, CreateTrack}
use uv_studio.Editor.TimelineCommands.Updates.{Update, created_track, create_track}

-- A track that is created on a valid timeline leaves it valid.
pub create_track-IsTimeline :
    (new_id : Text) (command : CreateTrack) (d : Timeline) (u : Update)
    → IsTimeline d
    → create_track new_id command d ≡ ok u
    → IsTimeline u.timeline
unfolding create_track created_track
create_track-IsTimeline new_id command d u v eq =
    let id = text_or new_id command.track_id in
    let (_, _, k) =
      >>=-eq-ok (raise_if (any (λ t. t.track_id == id) d.tracks) (track_exists id)) _ eq in
    let (track, made, k') =
      >>=-eq-ok (or_raise (make_track (created_track id command d)) escaped) _ k in
    let tracks = d.tracks ++ track ∷ [] in
    let (updated, built, k'') =
      >>=-eq-ok (or_raise (make_timeline (num 1) (Json.str d.timeline_id) tracks) escaped) _ k' in
    let is_track =
      make_track-IsTrack (created_track id command d) track tt
        (or_raise-eq-ok (make_track (created_track id command d)) escaped made) in
    let valid =
      make_timeline-IsTimeline (num 1) (Json.str d.timeline_id) tracks updated
        ((All-append_last IsTrack d.tracks track).1 (v.tracks, is_track.0))
        (or_raise-eq-ok (make_timeline (num 1) (Json.str d.timeline_id) tracks) escaped built) in
    subst (λ (w : Update). IsTimeline w.timeline) (ok_inj k'') valid
