-- ===== src/Projects/Timeline/Printing.antt =====
-- A valid timeline is read back from the document that it prints.
use uv_studio.Base.{◌≡◌, refl, ◌∙◌, map, ok, ◌==◌, contains, traverse, traverse-map, ◌>>=◌}
use uv_studio.Json.{
  Json, get, get_or, only_keys, has_keys, equals_one, of_list, to_list, to_list-of_list, num,
}
use uv_studio.Projects.Identifiers.{validate_identifier-eq_self}
use uv_studio.Projects.Timeline.Clip.{
  Clip, clip_arguments, clip_fields, make_clip, clip_to_dict, clip_from_dict,
}
use uv_studio.Projects.Timeline.Track.{
  Track, list_items, track_arguments, track_fields, replace_clips, make_track, track_to_dict,
  track_of_fields, track_from_dict,
}
use uv_studio.Projects.Timeline.Document.{
  Timeline, make_timeline, timeline_to_dict, timeline_of_fields, timeline_from_dict,
}
use uv_studio.Projects.Timeline.Overlap.{sort_clips}
use uv_studio.Projects.Timeline.Validity.{IsClip, IsTrack, IsTimeline}
use uv_studio.Projects.Timeline.Construction.{make_clip_iff, replace_clips_iff}
use uv_studio.Projects.Timeline.Reading.{tracks_iff}

clip_from_dict-to_dict : (c : Clip) → IsClip c → clip_from_dict (Json.obj (clip_to_dict c)) ≡ ok c
clip_from_dict-to_dict c v = reads c ∙ (make_clip_iff c).1 v
  where
    reads : (c : Clip) → clip_from_dict (Json.obj (clip_to_dict c)) ≡ make_clip (clip_arguments c)
    reads c =
        unfold clip_from_dict clip_to_dict clip_fields clip_arguments get get_or only_keys has_keys
          ◌==◌ contains in
        refl

track_step :
    (t : Track)
    → track_from_dict (Json.obj (track_to_dict t)) ≡ (
        traverse clip_from_dict (to_list (of_list (map (λ c. Json.obj (clip_to_dict c)) t.clips)))
        >>= λ cs. make_track (track_arguments t cs))
unfolding track_from_dict track_of_fields track_to_dict track_fields track_arguments list_items get
    get_or only_keys has_keys ◌==◌ contains
track_step t = refl

track_from_dict-to_dict :
    (t : Track) → IsTrack t → track_from_dict (Json.obj (track_to_dict t)) ≡ ok t
track_from_dict-to_dict t v =
    track_step t
    ∙ rw
        (
          to_list-of_list (map (λ c. Json.obj (clip_to_dict c)) t.clips),
          traverse-map IsClip (λ c. Json.obj (clip_to_dict c)) clip_from_dict clip_from_dict-to_dict
              t.clips v.clips,
        )
        (unfold replace_clips in
          (rw (sort_clips t.clips v.ascending) at
            ((replace_clips_iff t t.clips v v.clips).1 (v.ids, v.disjoint))))

timeline_step :
    (d : Timeline)
    → timeline_from_dict (Json.obj (timeline_to_dict d)) ≡ (
        traverse track_from_dict
          (to_list (of_list (map (λ t. Json.obj (track_to_dict t)) d.tracks)))
        >>= λ ts. make_timeline (num 1) (Json.str d.timeline_id) ts)
unfolding timeline_from_dict timeline_of_fields timeline_to_dict list_items get get_or only_keys
    has_keys ◌==◌ contains
timeline_step d = refl

pub make_timeline-eq_self :
    (d : Timeline) → IsTimeline d → make_timeline (num 1) (Json.str d.timeline_id) d.tracks ≡ ok d
unfolding make_timeline equals_one
make_timeline-eq_self d v =
    let (tracks, clips) = (tracks_iff d.tracks).1 (v.track_ids, v.clip_ids) in
    rw (validate_identifier-eq_self d.timeline_id v.id, tracks, clips) refl

-- Reading the document of a valid timeline gives the same timeline back, with its tracks, clips,
-- flags, titles and order.
pub timeline_from_dict-to_dict :
    (d : Timeline) → IsTimeline d → timeline_from_dict (Json.obj (timeline_to_dict d)) ≡ ok d
timeline_from_dict-to_dict d v =
    timeline_step d
    ∙ rw
        (
          to_list-of_list (map (λ t. Json.obj (track_to_dict t)) d.tracks),
          traverse-map IsTrack (λ t. Json.obj (track_to_dict t)) track_from_dict
              track_from_dict-to_dict d.tracks v.tracks,
        )
        (make_timeline-eq_self d v)
