-- ===== src/Projects/Timeline/Track.antt =====
-- `TimelineTrack`: clips of one kind, sorted by start, which do not overlap.
use uv_studio.Base.{
  Bool, true, false, not, List, [], ◌∷◌, map, Option, none, some, Text, codes, ◌==◌, ltb,
  all_distinct, Outcome, ok, raised, ◌>>=◌, ◌>>◌, raise_if, or_raise, traverse, if◌then◌else◌,
}
use uv_studio.Base.Sort.{sort}
use uv_studio.Json.{Json, Items, Fields, end, field, get_or, only_keys, has_keys, of_list, to_list}
use uv_studio.Projects.Identifiers.{validate_identifier}
use uv_studio.Projects.Timeline.Errors.{
  TimelineError, invalid, bad_kind, type_error, enabled_not_bool, muted_not_bool,
  duplicate_clip_in_track, overlapping, track_not_object, unknown_track_fields,
  missing_track_fields, clips_not_list,
}
use uv_studio.Projects.Timeline.Clip.{
  Clip, timeline_end_us, clip_to_dict, clip_from_dict, clip_before, title_of, flag,
}

pub data TrackKind : Type 0 where
  video audio : TrackKind

abbrev pub kind_text : TrackKind → Text
kind_text TrackKind.video = codes "video"
kind_text TrackKind.audio = codes "audio"

-- `self.kind not in _TIMELINE_TRACK_KINDS`: a list or an object is unhashable.
unfoldable pub kind_of : Json → Outcome TimelineError TrackKind
kind_of (Json.str s) =
    if s == codes "video"
    then ok TrackKind.video
    else if s == codes "audio"
    then ok TrackKind.audio
    else raised bad_kind
kind_of (Json.arr _) = raised type_error
kind_of (Json.obj _) = raised type_error
kind_of _ = raised bad_kind

pub record Track : Type 0 where
  pub track_id : Text
  pub kind : TrackKind
  pub title : Text
  pub clips : List Clip
  pub enabled : Bool
  pub muted : Bool

-- The arguments of `TimelineTrack(...)` before they are validated; the clips are `TimelineClip`s.
pub record TrackArguments : Type 0 where
  pub track_id : Json
  pub kind : Json
  pub title : Json
  pub clips : List Clip
  pub enabled : Json
  pub muted : Json

abbrev pub clip_ids : List Clip → List Text
clip_ids = map (λ c. c.clip_id)

-- `previous is not None and clip.timeline_start_us < previous.timeline_end_us`
unfoldable pub overlaps_previous : Option Clip → Clip → Bool
unfolding timeline_end_us
overlaps_previous none clip = false
overlaps_previous (some previous) clip = ltb clip.timeline_start_us (timeline_end_us previous)

-- The loop over the sorted clips, on `previous` and the clips that are left.
unfoldable pub check_non_overlapping : Option Clip → List Clip → Outcome TimelineError (Unit {0})
unfolding overlaps_previous
check_non_overlapping previous [] = ok tt
check_non_overlapping previous (clip ∷ clips) = do
  raise_if (overlaps_previous previous clip) overlapping
  check_non_overlapping (some clip) clips

-- `TimelineTrack.__post_init__`
unfoldable pub make_track : TrackArguments → Outcome TimelineError Track
make_track a = do
  id ← or_raise (validate_identifier a.track_id) invalid
  kind ← kind_of a.kind
  title ← title_of a.title
  enabled ← flag enabled_not_bool a.enabled
  muted ← flag muted_not_bool a.muted
  raise_if (not (all_distinct (clip_ids a.clips))) duplicate_clip_in_track
  check_non_overlapping none (sort clip_before a.clips)
  ok (record {
    track_id = id;
    kind = kind;
    title = title;
    clips = sort clip_before a.clips;
    enabled = enabled;
    muted = muted;
  })

-- The fields of a track, with other clips, as arguments.
unfoldable pub track_arguments : Track → List Clip → TrackArguments
track_arguments t clips = record {
  track_id = Json.str t.track_id;
  kind = Json.str (kind_text t.kind);
  title = Json.str t.title;
  clips = clips;
  enabled = Json.bool t.enabled;
  muted = Json.bool t.muted;
}

-- `dataclasses.replace(track, clips=clips)`
unfoldable pub replace_clips : Track → List Clip → Outcome TimelineError Track
replace_clips t clips = make_track (track_arguments t clips)

unfoldable pub track_to_dict : Track → Fields
unfolding clip_to_dict
track_to_dict t = field (codes "track_id") (Json.str t.track_id) (
    field (codes "kind") (Json.str (kind_text t.kind)) (
      field (codes "title") (Json.str t.title) (
        field (codes "enabled") (Json.bool t.enabled) (
          field (codes "muted") (Json.bool t.muted) (
            field (codes "clips")
              (Json.arr (of_list (map (λ c. Json.obj (clip_to_dict c)) t.clips))) end)))))

abbrev pub required_track_keys : List Text
required_track_keys = codes "track_id" ∷ codes "kind" ∷ codes "title" ∷ []

abbrev pub track_keys : List Text
track_keys =
    codes "track_id"
    ∷ codes "kind"
    ∷ codes "title"
    ∷ codes "enabled"
    ∷ codes "muted"
    ∷ codes "clips"
    ∷ []

-- A value that must be a list, or the error
unfoldable pub list_items : TimelineError → Json → Outcome TimelineError (List Json)
list_items e (Json.arr items) = ok (to_list items)
list_items e _ = raised e

-- The arguments that `from_dict` takes out of the object, beside the clips.
unfoldable pub track_fields : Fields → List Clip → TrackArguments
track_fields d clips = record {
  track_id = get_or (codes "track_id") Json.null d;
  kind = get_or (codes "kind") Json.null d;
  title = get_or (codes "title") Json.null d;
  clips = clips;
  enabled = get_or (codes "enabled") (Json.bool true) d;
  muted = get_or (codes "muted") (Json.bool false) d;
}

-- `from_dict`, once the keys are checked
unfoldable pub track_of_fields : Fields → Outcome TimelineError Track
track_of_fields d = do
  items ← list_items clips_not_list (get_or (codes "clips") (Json.arr Items.nil) d)
  clips ← traverse clip_from_dict items
  make_track (track_fields d clips)

unfoldable pub track_from_dict : Json → Outcome TimelineError Track
track_from_dict (Json.obj d) = do
  raise_if (not (only_keys track_keys d)) unknown_track_fields
  raise_if (not (has_keys required_track_keys d)) missing_track_fields
  track_of_fields d
track_from_dict _ = raised track_not_object
