-- ===== src/Editor/TimelineCommands/Reachability.antt =====
-- The timelines that sequences of commands lead to.
use uv_studio.Base.{◌≡◌, ok}
use uv_studio.Projects.Timeline.Document.{Timeline}
use uv_studio.Projects.Timeline.Validity.{IsTimeline}
use uv_studio.Editor.TimelineCommands.Updates.{Update}
use uv_studio.Editor.TimelineCommands.Service.{Call, creates, adds, moves, trims, removes, call}
use uv_studio.Editor.TimelineCommands.Moving.{move_clip_inv, trim_clip_inv}
use uv_studio.Editor.TimelineCommands.Creating.{create_track-IsTimeline}
use uv_studio.Editor.TimelineCommands.Adding.{add_clip_inv}
use uv_studio.Editor.TimelineCommands.Removing.{remove_clip_inv}

-- Commands that all return, one after the other.
pub data Reaches : Timeline → Timeline → Type 0 where
  done : {d : Timeline} → Reaches d d
  step :
      {d e : Timeline} (c : Call) (u : Update)
      → call c d ≡ ok u
      → Reaches u.timeline e
      → Reaches d e

pub call-IsTimeline :
    (c : Call) (d : Timeline) (u : Update) → IsTimeline d → call c d ≡ ok u → IsTimeline u.timeline
unfolding call
call-IsTimeline (creates new_id command) d u v h = create_track-IsTimeline new_id command d u v h
call-IsTimeline (adds new_id command) d u v h =
    let (_, _, r) = add_clip_inv new_id command d u v h in r.result
call-IsTimeline (moves command) d u v h =
    let (_, _, r) = move_clip_inv command d u v h in r.timeline
call-IsTimeline (trims command) d u v h =
    let (_, _, r) = trim_clip_inv command d u v h in r.timeline
call-IsTimeline (removes id) d u v h = let (_, _, _, _, r) = remove_clip_inv id d u v h in r

-- Whatever commands return on a valid timeline, one after the other, lead to a valid timeline:
-- clips on a track never play at the same time, and track and clip ids stay unique.
pub Reaches-IsTimeline : {d e : Timeline} → IsTimeline d → Reaches d e → IsTimeline e
Reaches-IsTimeline v done = v
Reaches-IsTimeline {d} v (step c u h r) = Reaches-IsTimeline (call-IsTimeline c d u v h) r
