-- ===== src/Projects/Timeline/Construction.antt =====
-- What the constructors accept, and that everything they accept is valid.
use uv_studio.Base.{
  ℕ, ◌≤◌, ◌≡◌, ◌≢◌, ◌↔◌, refl, sym, ◌∙◌, true, List, arith, Text, all_distinct, all_distinct_iff,
  All, AllPairs, none, ◌==◌, All-map, AllPairs-of_map, ok, ok_inj,
}
use mathlib.Core.List.{Perm}
use uv_studio.Base.Strip.{strip_idem}
use uv_studio.Base.Sort.{sort, All-sort, AllPairs-sort, sort-perm}
use uv_studio.Json.{Json, pos, negsuc, num}
use uv_studio.Projects.Identifiers.{
  matches_id, validate_identifier-eq-ok, validate_identifier-eq_self,
}
use uv_studio.Projects.Timeline.Clip.{
  Clip, ClipArguments, clip_arguments, make_clip, check_bounds, time_us, flag, title_of,
  clip_before,
}
use uv_studio.Projects.Timeline.Track.{
  Track, TrackKind, kind_text, track_arguments, kind_of, TrackArguments, clip_ids,
  check_non_overlapping, make_track, replace_clips,
}
use uv_studio.Projects.Timeline.Overlap.{
  Lasts, Disjoint, Disjoint-swap, check-sort_iff, clips-IsAscending,
}
use uv_studio.Projects.Timeline.Validity.{IsClip, IsTitle, DifferentIds, IsTrack}

pub time_us-eq-ok : (lo : ℕ) (v : Json) (n : ℕ) → time_us lo v ≡ ok n → (v ≡ num n) × (lo ≤ n)
unfolding time_us
time_us-eq-ok lo (Json.int (pos m)) n h = ground arith
time_us-eq-ok lo (Json.int (negsuc m)) n h = cc
time_us-eq-ok lo Json.null n h = cc
time_us-eq-ok lo (Json.bool b) n h = cc
time_us-eq-ok lo (Json.float b) n h = cc
time_us-eq-ok lo (Json.str b) n h = cc
time_us-eq-ok lo (Json.arr b) n h = cc
time_us-eq-ok lo (Json.obj b) n h = cc

-- Every clip that is constructed, from any JSON values, is valid.
pub make_clip-IsClip : (a : ClipArguments) (c : Clip) → make_clip a ≡ ok c → IsClip c
unfolding make_clip check_bounds
make_clip-IsClip a c h = ground (
  arith,
  validate_identifier-eq-ok a.clip_id c.clip_id,
  validate_identifier-eq-ok a.reference_id c.reference_id,
  time_us-eq-ok 1 a.duration_us c.duration_us,
)

-- A clip is constructed again from its own fields exactly if it is valid.
pub make_clip_iff : (c : Clip) → (make_clip (clip_arguments c) ≡ ok c) ↔ IsClip c
make_clip_iff c = (make_clip-IsClip (clip_arguments c) c, back)
  where
    back : IsClip c → make_clip (clip_arguments c) ≡ ok c
    back v =
        unfold make_clip clip_arguments check_bounds time_us flag in
        ground (
          arith,
          validate_identifier-eq_self c.clip_id v.id,
          validate_identifier-eq_self c.reference_id v.reference,
          v.lasts,
          v.timeline_bound,
          v.source_bound,
        )

kind_of-text : (k : TrackKind) → kind_of (Json.str (kind_text k)) ≡ ok k
unfolding kind_of ◌==◌
kind_of-text TrackKind.video = refl
kind_of-text TrackKind.audio = refl

title_of-IsTitle : (v : Json) (title : Text) → title_of v ≡ ok title → IsTitle title
unfolding title_of
title_of-IsTitle (Json.str s) title h = ground (arith, strip_idem s)
title_of-IsTitle Json.null n h = cc
title_of-IsTitle (Json.int b) n h = cc
title_of-IsTitle (Json.bool b) n h = cc
title_of-IsTitle (Json.float b) n h = cc
title_of-IsTitle (Json.arr b) n h = cc
title_of-IsTitle (Json.obj b) n h = cc

pub title_of-eq_self : (title : Text) → IsTitle title → title_of (Json.str title) ≡ ok title
unfolding title_of
title_of-eq_self title v = ground (arith, v.stripped, v.not_empty, v.bounded)

pub All-lasting : (cs : List Clip) → All IsClip cs → All Lasts cs
All-lasting = All-map (λ c v. v.lasts)

-- The tests on the clips of a track hold exactly if the clips have different ids and are disjoint.
pub clips_iff :
    (cs : List Clip)
    → All IsClip cs
    → ((all_distinct (clip_ids cs) ≡ true)
        × (check_non_overlapping none (sort clip_before cs) ≡ ok tt))
      ↔ (AllPairs DifferentIds cs × AllPairs Disjoint cs)
clips_iff cs v =
    let ids = AllPairs-of_map (λ s t. s ≢ t) (λ c. c.clip_id) cs in
    let overlap = check-sort_iff cs (All-lasting cs v) in
    (
      λ h. (ids.0 ((all_distinct_iff (clip_ids cs)).0 h.0), overlap.0 h.1),
      λ h. ((all_distinct_iff (clip_ids cs)).1 (ids.1 h.0), overlap.1 h.1),
    )

make_track_inv :
    (a : TrackArguments) (t : Track)
    → make_track a ≡ ok t
    → (matches_id t.track_id ≡ true)
      × IsTitle t.title
      × (all_distinct (clip_ids a.clips) ≡ true)
      × (check_non_overlapping none (sort clip_before a.clips) ≡ ok tt)
      × (t.clips ≡ sort clip_before a.clips)
unfolding make_track
make_track_inv a t h =
    ground
      (arith, validate_identifier-eq-ok a.track_id t.track_id, title_of-IsTitle a.title t.title)

-- A track constructed from valid clips is valid, and has exactly those clips.
pub make_track-IsTrack :
    (a : TrackArguments) (t : Track)
    → All IsClip a.clips
    → make_track a ≡ ok t
    → IsTrack t × Perm t.clips a.clips
make_track-IsTrack a t v h =
    let (id, titled, distinct, clear, same) = make_track_inv a t h in
    let (ids, disjoint) = (clips_iff a.clips v).0 (distinct, clear) in
    (
      record {
        id = id;
        titled = titled;
        clips = rw same ((All-sort clip_before IsClip a.clips).0 v);
        ids =
            rw same ((AllPairs-sort clip_before DifferentIds (λ x y n q. n (sym q)) a.clips).0 ids);
        disjoint = rw same ((AllPairs-sort clip_before Disjoint Disjoint-swap a.clips).0 disjoint);
        ascending = rw same (clips-IsAscending a.clips);
      },
      rw same (sort-perm clip_before a.clips),
    )

-- Replacing the clips of a valid track by other valid clips succeeds exactly if these have
-- different ids and do not overlap, in whatever order they are listed.
pub replace_clips_iff :
    (t : Track) (cs : List Clip)
    → IsTrack t
    → All IsClip cs
    → (replace_clips t cs ≡ ok (record t { clips = sort clip_before cs }))
      ↔ (AllPairs DifferentIds cs × AllPairs Disjoint cs)
unfolding track_arguments
replace_clips_iff t cs v w = (forth, back)
  where
    forth :
        replace_clips t cs ≡ ok (record t { clips = sort clip_before cs })
        → AllPairs DifferentIds cs × AllPairs Disjoint cs
    forth h =
        let (_, _, distinct, clear, _) =
          make_track_inv (track_arguments t cs) (record t { clips = sort clip_before cs })
            (unfold replace_clips in h) in
        (clips_iff cs w).0 (distinct, clear)

    back :
        AllPairs DifferentIds cs × AllPairs Disjoint cs
        → replace_clips t cs ≡ ok (record t { clips = sort clip_before cs })
    back h =
        let (distinct, clear) = (clips_iff cs w).1 h in
        unfold replace_clips make_track flag track_arguments in
        rw
          (
            validate_identifier-eq_self t.track_id v.id,
            kind_of-text t.kind,
            title_of-eq_self t.title v.titled,
            distinct,
            clear,
          )
          refl

-- A track whose clips were replaced is the track with those clips, sorted, and they fit.
pub replace_clips_inv :
    (t u : Track) (cs : List Clip)
    → IsTrack t
    → All IsClip cs
    → replace_clips t cs ≡ ok u
    → (u ≡ record t { clips = sort clip_before cs })
      × AllPairs DifferentIds cs
      × AllPairs Disjoint cs
unfolding track_arguments
replace_clips_inv t u cs v w h =
    let (_, _, distinct, clear, _) =
      make_track_inv (track_arguments t cs) u (unfold replace_clips in h) in
    let fits = (clips_iff cs w).0 (distinct, clear) in
    (ok_inj (sym h ∙ (replace_clips_iff t cs v w).1 fits), fits.0, fits.1)
