-- ===== src/Projects/Timeline/Document.antt =====
-- `TimelineDocument`: tracks with unique ids, whose clips have ids unique across the timeline.
use uv_studio.Base.{
  not, List, [], ◌∷◌, ◌++◌, map, Option, none, some, Text, codes, ◌==◌, find?, all_distinct,
  Outcome, ok, raised, ◌>>=◌, ◌>>◌, raise_if, or_raise, traverse,
}
use uv_studio.Json.{
  Json, Items, Fields, num, end, field, get_or, only_keys, has_keys, equals_one, of_list,
}
use uv_studio.Projects.Identifiers.{validate_identifier}
use uv_studio.Projects.Timeline.Errors.{
  TimelineError, invalid, bad_schema, duplicate_track, duplicate_clip, timeline_not_object,
  unknown_timeline_fields, missing_schema, tracks_not_list, track_not_found, clip_not_found,
}
use uv_studio.Projects.Timeline.Clip.{Clip}
use uv_studio.Projects.Timeline.Track.{Track, clip_ids, track_to_dict, track_from_dict, list_items}

-- The class has one more field, `schema_version`, which equals 1.
pub record Timeline : Type 0 where
  pub timeline_id : Text
  pub tracks : List Track

abbrev pub track_ids : List Track → List Text
track_ids = map (λ t. t.track_id)

-- `[clip for track in tracks for clip in track.clips]`
abbrev pub all_clips : List Track → List Clip
all_clips [] = []
all_clips (t ∷ ts) = t.clips ++ all_clips ts

-- `TimelineDocument.__post_init__`
unfoldable pub make_timeline : Json → Json → List Track → Outcome TimelineError Timeline
make_timeline schema timeline_id tracks = do
  raise_if (not (equals_one schema)) bad_schema
  id ← or_raise (validate_identifier timeline_id) invalid
  raise_if (not (all_distinct (track_ids tracks))) duplicate_track
  raise_if (not (all_distinct (clip_ids (all_clips tracks)))) duplicate_clip
  ok (record { timeline_id = id; tracks = tracks })

-- `TimelineDocument()`
abbrev pub empty_timeline : Timeline
empty_timeline = record { timeline_id = codes "main"; tracks = [] }

unfoldable pub timeline_to_dict : Timeline → Fields
unfolding track_to_dict
timeline_to_dict d = field (codes "schema_version") (num 1) (
    field (codes "timeline_id") (Json.str d.timeline_id) (
      field (codes "tracks") (Json.arr (of_list (map (λ t. Json.obj (track_to_dict t)) d.tracks)))
        end))

abbrev pub timeline_keys : List Text
timeline_keys = codes "schema_version" ∷ codes "timeline_id" ∷ codes "tracks" ∷ []

-- `from_dict`, once the keys are checked
unfoldable pub timeline_of_fields : Fields → Outcome TimelineError Timeline
timeline_of_fields d = do
  items ← list_items tracks_not_list (get_or (codes "tracks") (Json.arr Items.nil) d)
  tracks ← traverse track_from_dict items
  make_timeline (get_or (codes "schema_version") Json.null d)
      (get_or (codes "timeline_id") (Json.str (codes "main")) d) tracks

unfoldable pub timeline_from_dict : Json → Outcome TimelineError Timeline
timeline_from_dict (Json.obj d) = do
  raise_if (not (only_keys timeline_keys d)) unknown_timeline_fields
  raise_if (not (has_keys (codes "schema_version" ∷ []) d)) missing_schema
  timeline_of_fields d
timeline_from_dict _ = raised timeline_not_object

-- `TimelineDocument.track`
unfoldable pub find_track : Timeline → Text → Outcome TimelineError Track
find_track d id = elim (find? (λ t. t.track_id == id) d.tracks) [
  | none ↦ raised (track_not_found id)
  | some t ↦ ok t
]

-- The loop of `TimelineDocument.locate_clip`
unfoldable pub locate_in : Text → List Track → Option (Track × Clip)
locate_in id [] = none
locate_in id (t ∷ ts) = elim (find? (λ c. c.clip_id == id) t.clips) [
  | none ↦ locate_in id ts
  | some c ↦ some (t, c)
]

unfoldable pub locate_clip : Timeline → Text → Outcome TimelineError (Track × Clip)
unfolding locate_in
locate_clip d id = elim (locate_in id d.tracks) [
  | none ↦ raised (clip_not_found id)
  | some found ↦ ok found
]
