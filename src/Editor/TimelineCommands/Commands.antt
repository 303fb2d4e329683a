-- ===== src/Editor/TimelineCommands/Commands.antt =====
-- The command values of uv_studio/editor/timeline_commands.py, and what their construction checks.
use uv_studio.Base.{
  ℕ, true, false, Option, none, some, Text, codes, ◌==◌, ltb, length, is_empty, strip, Outcome, ok,
  raised, ◌>>=◌, ◌>>◌, raise_if, or_raise, if◌then◌else◌,
}
use uv_studio.Json.{Json, pos}
use uv_studio.Projects.Errors.{ValidationError}
use uv_studio.Projects.Identifiers.{validate_identifier}
use uv_studio.Projects.Timeline.Errors.{TimelineError}
use uv_studio.Projects.Timeline.Clip.{ClipArguments, make_clip}
use uv_studio.Projects.Timeline.Track.{TrackKind}
use uv_studio.Projects.Transactions.Model.{TransactionError}

-- What a command raises: `TimelineCommandError`, a constructor for each message, with the wrapped
-- error where there is one; `escaped` is a `TimelineError` that is not wrapped, `unloadable` an
-- error of `load_project`, and `type_error` Python's where a kind cannot be hashed.
pub data CommandError : Type 0 where
  bad_identifier unloadable : ValidationError → CommandError
  bad_kind bad_title long_title type_error : CommandError
  bad_clip rejected escaped : TimelineError → CommandError
  bad_timeline_start bad_source_start bad_duration : CommandError
  track_exists clip_exists track_missing clip_missing : Text → CommandError
  uncommitted : TransactionError → CommandError

-- `_optional_identifier`
unfoldable pub optional_identifier : Json → Outcome CommandError (Option Text)
optional_identifier Json.null = ok none
optional_identifier v = do id ← or_raise (validate_identifier v) bad_identifier; ok (some id)

-- `value or default` of a text or None
unfoldable pub text_or : Text → Option Text → Text
text_or default none = default
text_or default (some s) = if is_empty s then default else s

-- `CreateTrackCommand`
pub record CreateTrack : Type 0 where
  pub kind : TrackKind
  pub title : Option Text
  pub track_id : Option Text

-- `self.kind not in {"video", "audio"}`
unfoldable pub command_kind : Json → Outcome CommandError TrackKind
command_kind (Json.str s) =
    if s == codes "video"
    then ok TrackKind.video
    else if s == codes "audio"
    then ok TrackKind.audio
    else raised bad_kind
command_kind (Json.arr _) = raised type_error
command_kind (Json.obj _) = raised type_error
command_kind _ = raised bad_kind

unfoldable pub command_title : Json → Outcome CommandError (Option Text)
command_title Json.null = ok none
command_title (Json.str s) = do
  raise_if (is_empty (strip s)) bad_title
  raise_if (ltb 200 (length (strip s))) long_title
  ok (some (strip s))
command_title _ = raised bad_title

-- `CreateTrackCommand.__post_init__`
unfoldable pub make_create_track : Json → Json → Json → Outcome CommandError CreateTrack
unfolding command_kind command_title optional_identifier
make_create_track kind title track_id = do
  k ← command_kind kind
  id ← optional_identifier track_id
  t ← command_title title
  ok (record { kind = k; title = t; track_id = id })

-- `AddClipCommand`; the times are those that its `TimelineClip` accepted.
pub record AddClip : Type 0 where
  pub track_id : Text
  pub reference_id : Text
  pub timeline_start_us : ℕ
  pub duration_us : ℕ
  pub source_start_us : ℕ
  pub clip_id : Option Text

-- The arguments of `AddClipCommand(...)` before they are validated.
pub record AddArguments : Type 0 where
  pub track_id : Json
  pub reference_id : Json
  pub timeline_start_us : Json
  pub duration_us : Json
  pub source_start_us : Json
  pub clip_id : Json

-- The clip that the construction tries out
unfoldable pub trial_clip : AddArguments → Text → Option Text → ClipArguments
unfolding text_or
trial_clip a reference_id clip_id = record {
  clip_id = Json.str (text_or (codes "clip_validation") clip_id);
  reference_id = Json.str reference_id;
  timeline_start_us = a.timeline_start_us;
  source_start_us = a.source_start_us;
  duration_us = a.duration_us;
  enabled = Json.bool true;
  muted = Json.bool false;
}

-- `AddClipCommand.__post_init__`
unfoldable pub make_add_clip : AddArguments → Outcome CommandError AddClip
unfolding optional_identifier trial_clip
make_add_clip a = do
  track ← or_raise (validate_identifier a.track_id) bad_identifier
  reference ← or_raise (validate_identifier a.reference_id) bad_identifier
  id ← optional_identifier a.clip_id
  clip ← or_raise (make_clip (trial_clip a reference id)) bad_clip
  ok (record {
    track_id = track;
    reference_id = reference;
    timeline_start_us = clip.timeline_start_us;
    duration_us = clip.duration_us;
    source_start_us = clip.source_start_us;
    clip_id = id;
  })

-- `MoveClipCommand`
pub record MoveClip : Type 0 where
  pub clip_id : Text
  pub timeline_start_us : ℕ

-- An integer that is not negative, or the error; a bool is refused although it is an int in Python.
unfoldable pub natural : CommandError → Json → Outcome CommandError ℕ
natural e (Json.int (pos n)) = ok n
natural e _ = raised e

-- `MoveClipCommand.__post_init__`
unfoldable pub make_move_clip : Json → Json → Outcome CommandError MoveClip
unfolding natural
make_move_clip clip_id timeline_start_us = do
  id ← or_raise (validate_identifier clip_id) bad_identifier
  start ← natural bad_timeline_start timeline_start_us
  ok (record { clip_id = id; timeline_start_us = start })

-- `TrimClipCommand`
pub record TrimClip : Type 0 where
  pub clip_id : Text
  pub source_start_us : ℕ
  pub duration_us : ℕ

-- `TrimClipCommand.__post_init__`
unfoldable pub make_trim_clip : Json → Json → Json → Outcome CommandError TrimClip
unfolding natural
make_trim_clip clip_id source_start_us duration_us = do
  id ← or_raise (validate_identifier clip_id) bad_identifier
  start ← natural bad_source_start source_start_us
  duration ← natural bad_duration duration_us
  raise_if (ltb duration 1) bad_duration
  ok (record { clip_id = id; source_start_us = start; duration_us = duration })

-- `RemoveClipCommand.__post_init__`: the command is its clip's id.
unfoldable pub make_remove_clip : Json → Outcome CommandError Text
make_remove_clip clip_id = or_raise (validate_identifier clip_id) bad_identifier
