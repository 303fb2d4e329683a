-- ===== src/Examples/Timelines.antt =====
-- Runs of the timeline's theorems, on a track of two clips that meet.
use uv_studio.Base.{
  ◌≡◌, refl, true, false, [], ◌∷◌, codes, ok, All, ◌==◌, text_lt, text_lt, all_distinct, contains,
  to_set, strip, strip_left, is_space,
}
use uv_studio.Base.Sort.{sort, insert_sorted}
use uv_studio.Json.{Json, Fields, num, equals_one}
use uv_studio.Projects.Identifiers.{matches_id, is_id_char, is_alnum, validate_identifier}
use uv_studio.Projects.References.{Reference, Project}
use uv_studio.Projects.Files.{Disk, Entry, JsonFile}
use uv_studio.Projects.Timeline.Clip.{
  Clip, make_clip, clip_arguments, clip_before, time_us, flag, check_bounds, timeline_end_us,
  source_end_us, title_of,
}
use uv_studio.Projects.Timeline.Track.{
  Track, TrackKind, track_arguments, make_track, kind_of, check_non_overlapping, overlaps_previous,
}
use uv_studio.Projects.Timeline.Document.{
  Timeline, make_timeline, timeline_to_dict, timeline_from_dict,
}
use uv_studio.Projects.Timeline.Store.{load, validate_references}
use uv_studio.Projects.Timeline.Validity.{IsClip, IsTrack, IsTimeline}
use uv_studio.Projects.Timeline.Construction.{make_clip-IsClip, make_track-IsTrack}
use uv_studio.Projects.Timeline.Reading.{make_timeline-IsTimeline, timeline_from_dict-IsTimeline}
use uv_studio.Projects.Timeline.Printing.{timeline_from_dict-to_dict}
use uv_studio.Projects.Timeline.Media.{validate_references-eq-check_all, check_all_tracks}

abbrev pub clip_a : Clip
clip_a = record {
  clip_id = codes "a";
  reference_id = codes "r";
  timeline_start_us = 0;
  source_start_us = 3;
  duration_us = 10;
  enabled = true;
  muted = false;
}

abbrev pub clip_b : Clip
clip_b = record {
  clip_id = codes "b";
  reference_id = codes "r";
  timeline_start_us = 10;
  source_start_us = 0;
  duration_us = 5;
  enabled = true;
  muted = false;
}

abbrev pub track : Track
track = record {
  track_id = codes "t";
  kind = TrackKind.video;
  title = codes "Main";
  clips = clip_a ∷ clip_b ∷ [];
  enabled = true;
  muted = false;
}

abbrev pub timeline : Timeline
timeline = record { timeline_id = codes "main"; tracks = track ∷ [] }

made_a : make_clip (clip_arguments clip_a) ≡ ok clip_a
unfolding make_clip clip_arguments validate_identifier matches_id is_id_char is_alnum time_us flag
    check_bounds timeline_end_us source_end_us
made_a = refl

made_b : make_clip (clip_arguments clip_b) ≡ ok clip_b
unfolding make_clip clip_arguments validate_identifier matches_id is_id_char is_alnum time_us flag
    check_bounds timeline_end_us source_end_us
made_b = refl

-- The clips in the wrong order, which the construction sorts
made_track : make_track (track_arguments track (clip_b ∷ clip_a ∷ [])) ≡ ok track
unfolding make_track track_arguments validate_identifier matches_id is_id_char is_alnum kind_of
    title_of flag check_non_overlapping overlaps_previous timeline_end_us sort insert_sorted
    clip_before all_distinct to_set contains strip strip_left is_space ◌==◌ text_lt
made_track = refl

made_timeline : make_timeline (num 1) (Json.str (codes "main")) (track ∷ []) ≡ ok timeline
unfolding make_timeline validate_identifier matches_id is_id_char is_alnum equals_one all_distinct
    to_set contains ◌==◌
made_timeline = refl

clip_b-IsClip : IsClip clip_b
clip_b-IsClip = make_clip-IsClip (clip_arguments clip_b) clip_b made_b

clips-IsClip : All IsClip (clip_a ∷ clip_b ∷ [])
clips-IsClip = (make_clip-IsClip (clip_arguments clip_a) clip_a made_a, (clip_b-IsClip, tt))

swapped-IsClip : All IsClip (clip_b ∷ clip_a ∷ [])
swapped-IsClip = (clip_b-IsClip, (make_clip-IsClip (clip_arguments clip_a) clip_a made_a, tt))

track-IsTrack : IsTrack track
unfolding track_arguments
track-IsTrack =
    (make_track-IsTrack (track_arguments track (clip_b ∷ clip_a ∷ [])) track swapped-IsClip
      made_track).0

pub timeline-IsTimeline : IsTimeline timeline
timeline-IsTimeline =
    make_timeline-IsTimeline (num 1) (Json.str (codes "main")) (track ∷ []) timeline
      (track-IsTrack, tt) made_timeline

timeline_from_dict-to_dict_example :
    timeline_from_dict (Json.obj (timeline_to_dict timeline)) ≡ ok timeline
timeline_from_dict-to_dict_example = timeline_from_dict-to_dict timeline timeline-IsTimeline

timeline_from_dict-IsTimeline_example : IsTimeline timeline
timeline_from_dict-IsTimeline_example =
    timeline_from_dict-IsTimeline (Json.obj (timeline_to_dict timeline)) timeline
      (timeline_from_dict-to_dict timeline timeline-IsTimeline)

loaded : load (JsonFile.document (Json.obj (timeline_to_dict timeline))) ≡ ok timeline
unfolding load ◌==◌
loaded = rw (timeline_from_dict-to_dict timeline timeline-IsTimeline) refl

-- A disk of regular files, and a project with one video
abbrev disk : Disk
disk = λ roots path. Entry.regular

abbrev video : Reference
video = record {
  id = codes "r";
  kind = codes "video";
  path = codes "sources/a.mp4";
  metadata = Fields.field (codes "duration_us") (num 20) Fields.end;
}

abbrev project : Project
project = record { project_id = codes "p"; sources = video ∷ []; artifacts = [] }

validate_references-eq-check_all_example :
    validate_references disk project timeline ≡ check_all_tracks disk project timeline.tracks
validate_references-eq-check_all_example = validate_references-eq-check_all disk project timeline
