-- ===== src/Projects/Timeline/Media.antt =====
-- The check of a timeline against the registered media: remembering references does not change
-- it, and what it guarantees of every clip.
use uv_studio.Base.{
  ℕ, ◌+◌, ◌≤◌, ◌≡◌, ◌↔◌, ◌⊎◌, inl, inr, refl, false, List, [], ◌∷◌, Option, none, some, arith, Text,
  codes, ◌==◌, text_eq_iff, Outcome, ok, ◌>>=◌, Option-cases, Outcome-cases, Bool-cases, bind_assoc,
  ◌∙◌, zero, suc,
}
use uv_studio.Base.Dict.{Dict, lookup, insert, lookup-insert}
use uv_studio.Json.{Json, num, get, pos, negsuc}
use uv_studio.Projects.Files.{Disk}
use uv_studio.Projects.References.{Reference, Project}
use uv_studio.Projects.Timeline.Errors.{TimelineError}
use uv_studio.Projects.Timeline.Clip.{Clip, source_end_us}
use uv_studio.Projects.Timeline.Track.{Track, TrackKind}
use uv_studio.Projects.Timeline.Document.{Timeline}
use uv_studio.Projects.Timeline.Store.{
  reference, positive_duration, within_source, check_clip, cached_reference, check_clips,
  check_tracks, validate_references,
}

module _ (disk : Disk) (project : Project) where
  -- One clip, its reference looked up afresh.
  pub check_fresh : TrackKind → Clip → Outcome TimelineError (Unit {0})
  check_fresh kind clip = reference disk project clip.reference_id >>= λ r. check_clip kind r clip

  pub check_all_clips : TrackKind → List Clip → Outcome TimelineError (Unit {0})
  check_all_clips kind [] = ok tt
  check_all_clips kind (clip ∷ clips) = check_fresh kind clip >>= λ _. check_all_clips kind clips

  pub check_all_tracks : List Track → Outcome TimelineError (Unit {0})
  check_all_tracks [] = ok tt
  check_all_tracks (t ∷ ts) = check_all_clips t.kind t.clips >>= λ _. check_all_tracks ts

  -- What is remembered is what the lookup gives.
  abbrev IsCache : Dict Reference → Type 0
  IsCache resolved =
      (id : Text) (r : Reference) → lookup id resolved ≡ some r → reference disk project id ≡ ok r

  IsCache-insert :
      (id : Text) (r : Reference) (resolved : Dict Reference)
      → reference disk project id ≡ ok r
      → IsCache resolved
      → IsCache (insert id r resolved)
  IsCache-insert id r resolved e sound j s h =
      ground (arith, lookup-insert id j r resolved, text_eq_iff j id, sound j s)

  check_clips-fresh :
      (kind : TrackKind) (clips : List Clip) (resolved : Dict Reference)
      (k : Dict Reference → Outcome TimelineError (Unit {0})) (m : Outcome TimelineError (Unit {0}))
      → IsCache resolved
      → ((resolved' : Dict Reference) → IsCache resolved' → k resolved' ≡ m)
      → (check_clips disk project kind resolved clips >>= k)
        ≡ (check_all_clips kind clips >>= λ _. m)
  unfolding check_clips check_all_clips check_fresh cached_reference
  check_clips-fresh kind [] resolved k m sound next = next resolved sound
  check_clips-fresh kind (c ∷ cs) resolved k m sound next =
      let id = c.reference_id in
      elim (Option-cases (lookup id resolved)) [
        | inr (r, e) ↦
            let found = sound id r e in
            elim (Outcome-cases (check_clip kind r c)) [
              | inl (_, fits) ↦
                  rw (e, found, fits, check_clips, cached_reference, check_all_clips, check_fresh)
                    (check_clips-fresh kind cs resolved k m sound next)
              | inr (_, fails) ↦
                  rw (e, found, fails, check_clips, cached_reference, check_all_clips, check_fresh)
                    refl
            ]
        | inl e ↦ elim (Outcome-cases (reference disk project id)) [
          | inl (r, found) ↦ elim (Outcome-cases (check_clip kind r c)) [
            | inl (_, fits) ↦
                rw (e, found, fits, check_clips, cached_reference, check_all_clips, check_fresh)
                  (check_clips-fresh kind cs (insert id r resolved) k m
                    (IsCache-insert id r resolved found sound) next)
            | inr (_, fails) ↦
                rw (e, found, fails, check_clips, cached_reference, check_all_clips, check_fresh)
                  refl
          ]
          | inr (_, missing) ↦
              rw (e, missing, check_clips, cached_reference, check_all_clips, check_fresh) refl
        ]
      ]

  check_tracks-fresh :
      (ts : List Track) (resolved : Dict Reference)
      → IsCache resolved
      → (check_tracks disk project resolved ts >>= λ _. ok tt) ≡ check_all_tracks ts
  unfolding check_tracks check_all_tracks
  check_tracks-fresh [] resolved sound = refl
  check_tracks-fresh (t ∷ ts) resolved sound =
      bind_assoc (check_clips disk project t.kind resolved t.clips)
        (λ resolved'. check_tracks disk project resolved' ts) (λ _. ok tt)
      ∙ check_clips-fresh t.kind t.clips resolved _ (check_all_tracks ts) sound
          (λ resolved' sound'. check_tracks-fresh ts resolved' sound')

  -- The check that remembers references raises and returns exactly what looking up the reference
  -- of every clip afresh, track by track, raises and returns.
  pub validate_references-eq-check_all :
      (d : Timeline) → validate_references disk project d ≡ check_all_tracks d.tracks
  unfolding validate_references
  validate_references-eq-check_all d =
      check_tracks-fresh d.tracks [] (λ id r h. absurd (unfold lookup in ground arith))

-- What a clip of a track may show of a reference: on a video track a still image from its start, or
-- a part of a video; on an audio track a part of a sound. A part ends within the positive duration.
abbrev pub Plays : Reference → Clip → Type 0
Plays r c =
    (n : ℕ) × (get (codes "duration_us") r.metadata ≡ some (num n))
    × (1 ≤ n)
    × (c.source_start_us + c.duration_us ≤ n)

abbrev pub Suits : TrackKind → Reference → Clip → Type 0
Suits TrackKind.video r c =
    ((r.kind ≡ codes "image") × (c.source_start_us ≡ 0)) ⊎ ((r.kind ≡ codes "video") × Plays r c)
Suits TrackKind.audio r c = (r.kind ≡ codes "audio") × Plays r c

within-Plays :
    (r : Reference) (c : Clip) (v : Option Json)
    → get (codes "duration_us") r.metadata ≡ v
    → within_source c (positive_duration v) ≡ ok tt
    → Plays r c
unfolding positive_duration source_end_us
within-Plays r c none e h = cc
within-Plays r c (some (Json.int (pos zero))) e h = cc
within-Plays r c (some (Json.int (pos (suc n)))) e h = (suc n, e, omega arith, ground arith)
within-Plays r c (some (Json.int (negsuc n))) e h = cc
within-Plays r c (some Json.null) e h = cc
within-Plays r c (some (Json.bool b)) e h = cc
within-Plays r c (some (Json.float b)) e h = cc
within-Plays r c (some (Json.str b)) e h = cc
within-Plays r c (some (Json.arr b)) e h = cc
within-Plays r c (some (Json.obj b)) e h = cc

Plays-within :
    (r : Reference) (c : Clip)
    → Plays r c
    → within_source c (positive_duration (get (codes "duration_us") r.metadata)) ≡ ok tt
unfolding positive_duration source_end_us
Plays-within r c (zero, e, one, bound) = absurd (omega arith)
Plays-within r c (suc n, e, one, bound) = rw e (ground arith)

-- One clip passes the check exactly if its track may show it: a still image from its start, or a
-- part of a medium of the track's kind that ends within that medium's positive duration.
pub check_clip_iff :
    (kind : TrackKind) (r : Reference) (c : Clip) → (check_clip kind r c ≡ ok tt) ↔ Suits kind r c
unfolding check_clip
check_clip_iff TrackKind.video r c = (
  λ h. elim (Bool-cases (r.kind == codes "image")) [
    | inl e ↦ inl ((text_eq_iff r.kind (codes "image")).0 e, ground arith)
    | inr e ↦ inr (
      ground (arith, text_eq_iff r.kind (codes "video")),
      within-Plays r c (get (codes "duration_us") r.metadata) refl (ground arith),
    )
  ],
  λ s. elim s [
    | inl (e, start) ↦ ground (arith, text_eq_iff r.kind (codes "image"))
    | inr (e, plays) ↦
        let other : codes "video" == codes "image" ≡ false = unfold ◌==◌ in refl in
        ground (
          arith,
          text_eq_iff r.kind (codes "video"),
          Plays-within r c plays,
          text_eq_iff r.kind (codes "image"),
          text_eq_iff (codes "video") (codes "image"),
          other,
        )
  ],
)
check_clip_iff TrackKind.audio r c = (
  λ h. (
    ground (arith, text_eq_iff r.kind (codes "audio")),
    within-Plays r c (get (codes "duration_us") r.metadata) refl (ground arith),
  ),
  λ (e, plays). ground (arith, text_eq_iff r.kind (codes "audio"), Plays-within r c plays),
)
