-- ===== src/Projects/Timeline/Clip.antt =====
-- `TimelineClip`: a part of a registered medium, placed on a track.
use uv_studio.Base.{
  ℕ, ◌+◌, ◌*◌, Bool, true, false, not, ◌&&◌, ◌||◌, List, [], ◌∷◌, Text, codes, text_lt, ltb, nat_eq,
  length, is_empty, strip, Outcome, ok, raised, ◌>>=◌, ◌>>◌, raise_if, or_raise, if◌then◌else◌,
}
use uv_studio.Json.{Json, pos, Fields, num, end, field, get_or, only_keys, has_keys}
use uv_studio.Projects.Identifiers.{validate_identifier}
use uv_studio.Projects.Timeline.Errors.{
  TimelineError, invalid, bad_time, bad_title, long_title, enabled_not_bool, muted_not_bool,
  timeline_end_bound, source_end_bound, clip_not_object, unknown_clip_fields, missing_clip_fields,
}

-- `_MAX_TIME_US`: a week
abbrev pub max_time_us : ℕ
max_time_us = 7 * 24 * 60 * 60 * 1000000

-- `_MAX_TITLE_LENGTH`
abbrev pub max_title_length : ℕ
max_title_length = 200

-- `_time_us`; the first argument is its `minimum`.
unfoldable pub time_us : ℕ → Json → Outcome TimelineError ℕ
time_us minimum (Json.int (pos n)) =
    if ltb n minimum || ltb max_time_us n then raised bad_time else ok n
time_us minimum _ = raised bad_time

-- `_title`
unfoldable pub title_of : Json → Outcome TimelineError Text
title_of (Json.str s) = do
  raise_if (is_empty (strip s)) bad_title
  raise_if (ltb max_title_length (length (strip s))) long_title
  ok (strip s)
title_of _ = raised bad_title

-- `isinstance(value, bool)`, or the error
unfoldable pub flag : TimelineError → Json → Outcome TimelineError Bool
flag e (Json.bool b) = ok b
flag e _ = raised e

pub record Clip : Type 0 where
  pub clip_id : Text
  pub reference_id : Text
  pub timeline_start_us : ℕ
  pub source_start_us : ℕ
  pub duration_us : ℕ
  pub enabled : Bool
  pub muted : Bool

unfoldable pub timeline_end_us : Clip → ℕ
timeline_end_us c = c.timeline_start_us + c.duration_us

unfoldable pub source_end_us : Clip → ℕ
source_end_us c = c.source_start_us + c.duration_us

-- The arguments of `TimelineClip(...)` before they are validated.
pub record ClipArguments : Type 0 where
  pub clip_id : Json
  pub reference_id : Json
  pub timeline_start_us : Json
  pub source_start_us : Json
  pub duration_us : Json
  pub enabled : Json
  pub muted : Json

-- The two bounds at the end of `__post_init__`
unfoldable pub check_bounds : Clip → Outcome TimelineError Clip
unfolding timeline_end_us source_end_us
check_bounds c = do
  raise_if (ltb max_time_us (timeline_end_us c)) timeline_end_bound
  raise_if (ltb max_time_us (source_end_us c)) source_end_bound
  ok c

-- `TimelineClip.__post_init__`
unfoldable pub make_clip : ClipArguments → Outcome TimelineError Clip
make_clip a = do
  id ← or_raise (validate_identifier a.clip_id) invalid
  reference ← or_raise (validate_identifier a.reference_id) invalid
  start ← time_us 0 a.timeline_start_us
  source_start ← time_us 0 a.source_start_us
  duration ← time_us 1 a.duration_us
  enabled ← flag enabled_not_bool a.enabled
  muted ← flag muted_not_bool a.muted
  check_bounds (record {
    clip_id = id;
    reference_id = reference;
    timeline_start_us = start;
    source_start_us = source_start;
    duration_us = duration;
    enabled = enabled;
    muted = muted;
  })

-- The fields of a clip as arguments: what `dataclasses.replace` hands over.
unfoldable pub clip_arguments : Clip → ClipArguments
clip_arguments c = record {
  clip_id = Json.str c.clip_id;
  reference_id = Json.str c.reference_id;
  timeline_start_us = num c.timeline_start_us;
  source_start_us = num c.source_start_us;
  duration_us = num c.duration_us;
  enabled = Json.bool c.enabled;
  muted = Json.bool c.muted;
}

unfoldable pub clip_to_dict : Clip → Fields
clip_to_dict c = field (codes "clip_id") (Json.str c.clip_id) (
    field (codes "reference_id") (Json.str c.reference_id) (
      field (codes "timeline_start_us") (num c.timeline_start_us) (
        field (codes "source_start_us") (num c.source_start_us) (
          field (codes "duration_us") (num c.duration_us) (
            field (codes "enabled") (Json.bool c.enabled)
              (field (codes "muted") (Json.bool c.muted) end))))))

abbrev pub required_clip_keys : List Text
required_clip_keys =
    codes "clip_id"
    ∷ codes "reference_id"
    ∷ codes "timeline_start_us"
    ∷ codes "source_start_us"
    ∷ codes "duration_us"
    ∷ []

abbrev pub clip_keys : List Text
clip_keys =
    codes "clip_id"
    ∷ codes "reference_id"
    ∷ codes "timeline_start_us"
    ∷ codes "source_start_us"
    ∷ codes "duration_us"
    ∷ codes "enabled"
    ∷ codes "muted"
    ∷ []

-- The arguments that `from_dict` takes out of the object.
unfoldable pub clip_fields : Fields → ClipArguments
clip_fields d = record {
  clip_id = get_or (codes "clip_id") Json.null d;
  reference_id = get_or (codes "reference_id") Json.null d;
  timeline_start_us = get_or (codes "timeline_start_us") Json.null d;
  source_start_us = get_or (codes "source_start_us") Json.null d;
  duration_us = get_or (codes "duration_us") Json.null d;
  enabled = get_or (codes "enabled") (Json.bool true) d;
  muted = get_or (codes "muted") (Json.bool false) d;
}

unfoldable pub clip_from_dict : Json → Outcome TimelineError Clip
clip_from_dict (Json.obj d) = do
  raise_if (not (only_keys clip_keys d)) unknown_clip_fields
  raise_if (not (has_keys required_clip_keys d)) missing_clip_fields
  make_clip (clip_fields d)
clip_from_dict _ = raised clip_not_object

-- The sort key `(timeline_start_us, clip_id)`: does `a` come strictly before `b`?
unfoldable pub clip_before : Clip → Clip → Bool
clip_before a b =
    ltb a.timeline_start_us b.timeline_start_us
    || (nat_eq a.timeline_start_us b.timeline_start_us && text_lt a.clip_id b.clip_id)
