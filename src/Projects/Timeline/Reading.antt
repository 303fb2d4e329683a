-- ===== src/Projects/Timeline/Reading.antt =====
-- What a timeline that was constructed, read or loaded guarantees.
use uv_studio.Base.{
  ◌≡◌, ◌≢◌, ◌↔◌, refl, true, not, List, arith, all_distinct, all_distinct_iff, All, AllPairs, ◌==◌,
  AllPairs-of_map, ok, ◌>>=◌, raise_if, >>=-eq-ok, traverse, All-traverse, codes, ok_inj,
  text_eq_iff,
}
use mathlib.Core.Path.{subst}
use uv_studio.Json.{Json, Fields, Items, get_or}
use uv_studio.Projects.Identifiers.{matches_id, validate_identifier-eq-ok}
use uv_studio.Projects.Files.{JsonFile}
use uv_studio.Projects.Timeline.Errors.{clips_not_list, tracks_not_list, not_main_timeline}
use uv_studio.Projects.Timeline.Clip.{Clip, clip_fields, clip_from_dict}
use uv_studio.Projects.Timeline.Track.{
  Track, clip_ids, make_track, track_from_dict, track_of_fields, list_items, track_fields,
}
use uv_studio.Projects.Timeline.Document.{
  Timeline, track_ids, all_clips, make_timeline, timeline_from_dict, timeline_of_fields,
  empty_timeline,
}
use uv_studio.Projects.Timeline.Store.{load}
use uv_studio.Projects.Timeline.Construction.{make_clip-IsClip, make_track-IsTrack}
use uv_studio.Projects.Timeline.Validity.{
  IsClip, DifferentIds, IsTrack, DifferentTracks, IsTimeline,
}

make_timeline_inv :
    (schema id : Json) (tracks : List Track) (d : Timeline)
    → make_timeline schema id tracks ≡ ok d
    → (matches_id d.timeline_id ≡ true)
      × (all_distinct (track_ids tracks) ≡ true)
      × (all_distinct (clip_ids (all_clips tracks)) ≡ true)
      × (d.tracks ≡ tracks)
unfolding make_timeline
make_timeline_inv schema id tracks d h = ground (arith, validate_identifier-eq-ok id d.timeline_id)

-- The tests on the tracks hold exactly if track ids and, across all tracks, clip ids are unique.
pub tracks_iff :
    (ts : List Track)
    → ((all_distinct (track_ids ts) ≡ true) × (all_distinct (clip_ids (all_clips ts)) ≡ true))
      ↔ (AllPairs DifferentTracks ts × AllPairs DifferentIds (all_clips ts))
tracks_iff ts =
    let tracks = AllPairs-of_map (λ s t. s ≢ t) (λ t. t.track_id) ts in
    let clips = AllPairs-of_map (λ s t. s ≢ t) (λ c. c.clip_id) (all_clips ts) in
    (
      λ h. (
        tracks.0 ((all_distinct_iff (track_ids ts)).0 h.0),
        clips.0 ((all_distinct_iff (clip_ids (all_clips ts))).0 h.1),
      ),
      λ h. (
        (all_distinct_iff (track_ids ts)).1 (tracks.1 h.0),
        (all_distinct_iff (clip_ids (all_clips ts))).1 (clips.1 h.1),
      ),
    )

-- A timeline constructed from valid tracks is valid.
pub make_timeline-IsTimeline :
    (schema id : Json) (tracks : List Track) (d : Timeline)
    → All IsTrack tracks
    → make_timeline schema id tracks ≡ ok d
    → IsTimeline d
make_timeline-IsTimeline schema id tracks d v h =
    let (well, distinct_tracks, distinct_clips, same) = make_timeline_inv schema id tracks d h in
    let (track_ids, clip_ids) = (tracks_iff tracks).0 (distinct_tracks, distinct_clips) in
    record {
      id = well;
      tracks = rw same v;
      track_ids = rw same track_ids;
      clip_ids = rw same clip_ids;
    }

clip_from_dict-IsClip : (v : Json) (c : Clip) → clip_from_dict v ≡ ok c → IsClip c
unfolding clip_from_dict
clip_from_dict-IsClip (Json.obj d) c h = make_clip-IsClip (clip_fields d) c (ground arith)
clip_from_dict-IsClip Json.null c h = cc
clip_from_dict-IsClip (Json.bool b) c h = cc
clip_from_dict-IsClip (Json.int b) c h = cc
clip_from_dict-IsClip (Json.float b) c h = cc
clip_from_dict-IsClip (Json.str b) c h = cc
clip_from_dict-IsClip (Json.arr b) c h = cc

track_of_fields-IsTrack : (d : Fields) (t : Track) → track_of_fields d ≡ ok t → IsTrack t
unfolding track_of_fields track_fields
track_of_fields-IsTrack d t h =
    let (items, _, h1) =
      >>=-eq-ok (list_items clips_not_list (get_or (codes "clips") (Json.arr Items.nil) d))
        (λ items. traverse clip_from_dict items >>= λ cs. make_track (track_fields d cs)) h in
    let (cs, hc, h2) =
      >>=-eq-ok (traverse clip_from_dict items) (λ cs. make_track (track_fields d cs)) h1 in
    let valid = All-traverse IsClip clip_from_dict clip_from_dict-IsClip items cs hc in
    (make_track-IsTrack (track_fields d cs) t valid h2).0

track_from_dict-IsTrack : (v : Json) (t : Track) → track_from_dict v ≡ ok t → IsTrack t
unfolding track_from_dict
track_from_dict-IsTrack (Json.obj d) t h = track_of_fields-IsTrack d t (ground arith)
track_from_dict-IsTrack Json.null t h = cc
track_from_dict-IsTrack (Json.bool b) t h = cc
track_from_dict-IsTrack (Json.int b) t h = cc
track_from_dict-IsTrack (Json.float b) t h = cc
track_from_dict-IsTrack (Json.str b) t h = cc
track_from_dict-IsTrack (Json.arr b) t h = cc

timeline_of_fields-IsTimeline :
    (d : Fields) (t : Timeline) → timeline_of_fields d ≡ ok t → IsTimeline t
unfolding timeline_of_fields
timeline_of_fields-IsTimeline d t h =
    let make = λ (ts : List Track).
      make_timeline (get_or (codes "schema_version") Json.null d)
        (get_or (codes "timeline_id") (Json.str (codes "main")) d) ts in
    let (items, _, h1) =
      >>=-eq-ok (list_items tracks_not_list (get_or (codes "tracks") (Json.arr Items.nil) d))
        (λ items. traverse track_from_dict items >>= make) h in
    let (ts, ht, h2) = >>=-eq-ok (traverse track_from_dict items) make h1 in
    let valid = All-traverse IsTrack track_from_dict track_from_dict-IsTrack items ts ht in
    make_timeline-IsTimeline (get_or (codes "schema_version") Json.null d)
      (get_or (codes "timeline_id") (Json.str (codes "main")) d) ts t valid h2

-- Whatever JSON value is accepted as a timeline document, the timeline is valid: tracks and clips
-- have unique ids, no clips of a track overlap, and all times are in bounds.
pub timeline_from_dict-IsTimeline :
    (v : Json) (d : Timeline) → timeline_from_dict v ≡ ok d → IsTimeline d
unfolding timeline_from_dict
timeline_from_dict-IsTimeline (Json.obj f) d h = timeline_of_fields-IsTimeline f d (ground arith)
timeline_from_dict-IsTimeline Json.null d h = cc
timeline_from_dict-IsTimeline (Json.bool b) d h = cc
timeline_from_dict-IsTimeline (Json.int b) d h = cc
timeline_from_dict-IsTimeline (Json.float b) d h = cc
timeline_from_dict-IsTimeline (Json.str b) d h = cc
timeline_from_dict-IsTimeline (Json.arr b) d h = cc

empty_timeline-IsTimeline : IsTimeline empty_timeline
empty_timeline-IsTimeline = record {
  id = unfold matches_id in refl;
  tracks = tt;
  track_ids = tt;
  clip_ids = tt;
}

-- Every timeline that `load` returns is valid and is the main timeline, whatever the file holds.
pub load-IsTimeline :
    (file : JsonFile) (d : Timeline)
    → load file ≡ ok d
    → IsTimeline d × (d.timeline_id ≡ codes "main")
unfolding load
load-IsTimeline JsonFile.unresolvable_file d h = cc
load-IsTimeline JsonFile.no_file d h =
    subst (λ (t : Timeline). IsTimeline t × (t.timeline_id ≡ codes "main")) (ok_inj h)
      (empty_timeline-IsTimeline, refl)
load-IsTimeline JsonFile.irregular_file d h = cc
load-IsTimeline JsonFile.malformed d h = cc
load-IsTimeline (JsonFile.document v) d h =
    let (t, ht, h1) =
      >>=-eq-ok (timeline_from_dict v)
        (λ t. raise_if (not (t.timeline_id == codes "main")) not_main_timeline >>= λ _. ok t) h in
    (
      timeline_from_dict-IsTimeline v d (ground arith),
      ground (arith, text_eq_iff d.timeline_id (codes "main")),
    )
