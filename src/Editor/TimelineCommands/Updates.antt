-- ===== src/Editor/TimelineCommands/Updates.antt =====
-- The timeline that each command of `TimelineCommandService` computes from the loaded one.
use uv_studio.Base.{
  ◌+◌, Bool, true, false, not, List, [], ◌∷◌, ◌++◌, map, Option, none, some, Text, codes, ◌==◌, any,
  keep_if, length, Outcome, ok, ◌>>=◌, ◌>>◌, raise_if, or_raise, decimal, if◌then◌else◌,
}
use uv_studio.Json.{Json, num}
use uv_studio.Projects.Timeline.Errors.{TimelineError}
use uv_studio.Projects.Timeline.Clip.{Clip, make_clip, clip_arguments}
use uv_studio.Projects.Timeline.Track.{
  Track, TrackKind, TrackArguments, kind_text, make_track, replace_clips,
}
use uv_studio.Projects.Timeline.Document.{
  Timeline, make_timeline, all_clips, find_track, locate_clip,
}
use uv_studio.Editor.TimelineCommands.Commands.{
  CommandError, rejected, escaped, track_exists, clip_exists, track_missing, clip_missing, text_or,
  CreateTrack, AddClip, MoveClip, TrimClip,
}

unfoldable pub same_kind : TrackKind → TrackKind → Bool
same_kind a b = kind_text a == kind_text b

-- `'Video' if kind == 'video' else 'Audio'`
unfoldable pub kind_title : TrackKind → Text
kind_title TrackKind.video = codes "Video"
kind_title TrackKind.audio = codes "Audio"

-- `_default_track_title`
unfoldable pub default_track_title : Timeline → TrackKind → Text
unfolding same_kind kind_title
default_track_title d kind =
    kind_title kind
    ++ (codes " " ++ decimal (length (keep_if (λ t. same_kind t.kind kind) d.tracks) + 1))

-- `_replace_track`
unfoldable pub replace_track : Timeline → Text → Track → Outcome TimelineError Timeline
replace_track d id replacement =
    make_timeline (num 1) (Json.str d.timeline_id)
      (map (λ t. if t.track_id == id then replacement else t) d.tracks)

-- What a command has computed: the timeline, and the ids of the track and the clip.
pub record Update : Type 0 where
  pub timeline : Timeline
  pub track_id : Text
  pub clip_id : Option Text

-- The arguments of the track that `create_track` constructs
unfoldable pub created_track : Text → CreateTrack → Timeline → TrackArguments
unfolding text_or default_track_title
created_track id command d = record {
  track_id = Json.str id;
  kind = Json.str (kind_text command.kind);
  title = Json.str (text_or (default_track_title d command.kind) command.title);
  clips = [];
  enabled = Json.bool true;
  muted = Json.bool false;
}

-- `create_track` between load and commit; `new_id` is what `_new_track_id` returns.
unfoldable pub create_track : Text → CreateTrack → Timeline → Outcome CommandError Update
unfolding created_track text_or
create_track new_id command d =
    let id = text_or new_id command.track_id in
    do
      raise_if (any (λ t. t.track_id == id) d.tracks) (track_exists id)
      track ← or_raise (make_track (created_track id command d)) escaped
      updated ←
          or_raise (make_timeline (num 1) (Json.str d.timeline_id) (d.tracks ++ track ∷ [])) escaped
      ok (record { timeline = updated; track_id = id; clip_id = none })

-- Other clips on one track of the timeline; `TimelineError`s are wrapped.
unfoldable pub put_clips : Timeline → Track → List Clip → Outcome CommandError Timeline
unfolding replace_track
put_clips d t clips = do
  replacement ← or_raise (replace_clips t clips) rejected
  or_raise (replace_track d t.track_id replacement) rejected

-- The clip that `add_clip` constructs
unfoldable pub added_clip : Text → AddClip → Outcome CommandError Clip
added_clip id command =
    or_raise
      (make_clip (record {
        clip_id = Json.str id;
        reference_id = Json.str command.reference_id;
        timeline_start_us = num command.timeline_start_us;
        source_start_us = num command.source_start_us;
        duration_us = num command.duration_us;
        enabled = Json.bool true;
        muted = Json.bool false;
      }))
      escaped

-- `add_clip`; `new_id` is what `_new_clip_id` returns.
unfoldable pub add_clip : Text → AddClip → Timeline → Outcome CommandError Update
unfolding put_clips added_clip text_or
add_clip new_id command d =
    let id = text_or new_id command.clip_id in
    do
      track ← or_raise (find_track d command.track_id) (λ _. track_missing command.track_id)
      raise_if (any (λ c. c.clip_id == id) (all_clips d.tracks)) (clip_exists id)
      clip ← added_clip id command
      updated ← put_clips d track (track.clips ++ clip ∷ [])
      ok (record { timeline = updated; track_id = track.track_id; clip_id = some id })

-- `timeline.locate_clip`, or the command's error
unfoldable pub located : Timeline → Text → Outcome CommandError (Track × Clip)
located d id = or_raise (locate_clip d id) (λ _. clip_missing id)

-- `changed if item.clip_id == clip.clip_id else item`, over the clips of a track
unfoldable pub exchange : Text → Clip → List Clip → List Clip
exchange id changed = map (λ item. if item.clip_id == id then changed else item)

-- What `move_clip` and `trim_clip` share: the changed clip in the place of the old one.
unfoldable pub put_clip : Timeline → Track → Clip → Clip → Outcome CommandError Update
unfolding put_clips exchange
put_clip d t clip changed = do
  updated ← put_clips d t (exchange clip.clip_id changed t.clips)
  ok (record { timeline = updated; track_id = t.track_id; clip_id = some clip.clip_id })

-- `move_clip`
unfoldable pub move_clip : MoveClip → Timeline → Outcome CommandError Update
unfolding put_clip located
move_clip command d = located d command.clip_id >>= λ (track, clip).
    or_raise
      (make_clip (clip_arguments (record clip { timeline_start_us = command.timeline_start_us })))
      escaped
    >>= λ moved. put_clip d track clip moved

-- `trim_clip`
unfoldable pub trim_clip : TrimClip → Timeline → Outcome CommandError Update
unfolding put_clip located
trim_clip command d = located d command.clip_id >>= λ (track, clip).
    or_raise
      (make_clip (
        clip_arguments (record clip {
          source_start_us = command.source_start_us;
          duration_us = command.duration_us;
        })))
      escaped
    >>= λ trimmed. put_clip d track clip trimmed

-- `remove_clip`
unfoldable pub remove_clip : Text → Timeline → Outcome CommandError Update
unfolding put_clips located
remove_clip id d = located d id >>= λ (track, clip).
    put_clips d track (keep_if (λ item. not (item.clip_id == clip.clip_id)) track.clips)
    >>= λ updated.
        ok (record { timeline = updated; track_id = track.track_id; clip_id = some clip.clip_id })
