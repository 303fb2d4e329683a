-- ===== src/Projects/Timeline/Validity.antt =====
-- The invariants of clips, tracks and timelines.
use uv_studio.Base.{
  ◌+◌, ◌≤◌, ◌<◌, ◌≡◌, ◌≢◌, false, true, Text, is_empty, strip, length, All, AllPairs,
}
use uv_studio.Base.Sort.{IsAscending}
use uv_studio.Projects.Identifiers.{matches_id}
use uv_studio.Projects.Timeline.Clip.{Clip, clip_before, max_time_us, max_title_length}
use uv_studio.Projects.Timeline.Track.{Track}
use uv_studio.Projects.Timeline.Document.{Timeline, all_clips}
use uv_studio.Projects.Timeline.Overlap.{Disjoint}

-- A clip lasts, and ends within the supported week on the timeline and in its source.
pub record IsClip (c : Clip) : Type 0 where
  pub id : matches_id c.clip_id ≡ true
  pub reference : matches_id c.reference_id ≡ true
  pub lasts : 0 < c.duration_us
  pub timeline_bound : c.timeline_start_us + c.duration_us ≤ max_time_us
  pub source_bound : c.source_start_us + c.duration_us ≤ max_time_us

pub record IsTitle (title : Text) : Type 0 where
  pub stripped : strip title ≡ title
  pub not_empty : is_empty title ≡ false
  pub bounded : length title ≤ max_title_length

abbrev pub DifferentIds : Clip → Clip → Type 0
DifferentIds a b = a.clip_id ≢ b.clip_id

-- A track's clips have different ids, never play at the same time, and are sorted by start.
pub record IsTrack (t : Track) : Type 0 where
  pub id : matches_id t.track_id ≡ true
  pub titled : IsTitle t.title
  pub clips : All IsClip t.clips
  pub ids : AllPairs DifferentIds t.clips
  pub disjoint : AllPairs Disjoint t.clips
  pub ascending : IsAscending clip_before t.clips

abbrev pub DifferentTracks : Track → Track → Type 0
DifferentTracks a b = a.track_id ≢ b.track_id

-- Track ids are unique, and clip ids are unique across all tracks.
pub record IsTimeline (d : Timeline) : Type 0 where
  pub id : matches_id d.timeline_id ≡ true
  pub tracks : All IsTrack d.tracks
  pub track_ids : AllPairs DifferentTracks d.tracks
  pub clip_ids : AllPairs DifferentIds (all_clips d.tracks)
