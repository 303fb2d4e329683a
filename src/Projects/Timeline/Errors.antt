-- ===== src/Projects/Timeline/Errors.antt =====
-- `TimelineError` of uv_studio/projects/timeline.py, a constructor for each message, and the
-- `TypeError` that Python raises where an unhashable value is looked up in a set.
use uv_studio.Base.{Text}
use uv_studio.Projects.Errors.{ValidationError}

pub data TimelineError : Type 0 where
  invalid : ValidationError → TimelineError
  bad_time bad_title long_title enabled_not_bool muted_not_bool : TimelineError
  timeline_end_bound source_end_bound : TimelineError
  clip_not_object unknown_clip_fields missing_clip_fields : TimelineError
  bad_kind type_error duplicate_clip_in_track overlapping : TimelineError
  track_not_object unknown_track_fields missing_track_fields clips_not_list : TimelineError
  bad_schema duplicate_track duplicate_clip : TimelineError
  timeline_not_object unknown_timeline_fields missing_schema tracks_not_list : TimelineError
  track_not_found clip_not_found : Text → TimelineError
  unresolved_timeline irregular_timeline malformed_timeline not_main_timeline : TimelineError
  project_mismatch : TimelineError
  unregistered : Text → TimelineError
  bad_reference : ValidationError → TimelineError
  irregular_reference : TimelineError
  not_visual not_audio moving_still missing_duration past_source : TimelineError
