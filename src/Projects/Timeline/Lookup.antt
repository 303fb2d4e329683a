-- ===== src/Projects/Timeline/Lookup.antt =====
-- Finding a clip by its id.
use uv_studio.Base.{
  ◌≡◌, ◌≢◌, refl, List, [], ◌∷◌, none, some, arith, Text, ◌==◌, text_eq_iff, text_eq_ne,
  text_eq_refl, find?, All, AllPairs, All-map, In, here, there, All-In, In-append_left,
  In-append_right, AllPairs-of_append, ok, Bool-cases, inl, inr, Option-cases,
}
use mathlib.Core.Path.{subst}
use uv_studio.Projects.Timeline.Clip.{Clip}
use uv_studio.Projects.Timeline.Track.{Track}
use uv_studio.Projects.Timeline.Document.{Timeline, all_clips, locate_in, locate_clip}
use uv_studio.Projects.Timeline.Validity.{DifferentIds, IsTimeline}

find_unique :
    (cs : List Clip) (c : Clip)
    → AllPairs DifferentIds cs
    → In c cs
    → find? (λ x. x.clip_id == c.clip_id) cs ≡ some c
find_unique [] c h m = elim m [ ]
find_unique (c ∷ cs) _ h here = rw (text_eq_refl c.clip_id) refl
find_unique (x ∷ cs) c h (there m) =
    rw (text_eq_ne x.clip_id c.clip_id (All-In (DifferentIds x) h.0 m)) (find_unique cs c h.1 m)

pub find-none :
    (cs : List Clip) (id : Text)
    → All (λ x. x.clip_id ≢ id) cs
    → find? (λ x. x.clip_id == id) cs ≡ none
find-none [] id h = refl
find-none (x ∷ cs) id h = rw (text_eq_ne x.clip_id id h.0) (find-none cs id h.1)

pub In-all_clips :
    {t : Track} {c : Clip} (ts : List Track) → In t ts → In c t.clips → In c (all_clips ts)
In-all_clips [] k m = elim k [ ]
In-all_clips (t ∷ ts) here m = In-append_left (all_clips ts) m
In-all_clips (u ∷ ts) (there k) m = In-append_right u.clips (In-all_clips ts k m)

locate_in_unique :
    (ts : List Track) (t : Track) (c : Clip)
    → AllPairs DifferentIds (all_clips ts)
    → In t ts
    → In c t.clips
    → locate_in c.clip_id ts ≡ some (t, c)
unfolding locate_in
locate_in_unique [] t c h k m = elim k [ ]
locate_in_unique (t ∷ ts) _ c h here m =
    rw
      (
        find_unique t.clips c (AllPairs-of_append DifferentIds t.clips (all_clips ts) h).0 m,
        locate_in,
      )
      refl
locate_in_unique (u ∷ ts) t c h (there k) m =
    let (_, rest, across) = AllPairs-of_append DifferentIds u.clips (all_clips ts) h in
    let other = All-map (λ x a. All-In (DifferentIds x) a (In-all_clips ts k m)) u.clips across in
    rw (find-none u.clips c.clip_id other, locate_in) (locate_in_unique ts t c rest k m)

-- In a valid timeline, looking up the id of any clip of any track finds that clip and that track.
pub locate_clip_unique :
    (d : Timeline) (t : Track) (c : Clip)
    → IsTimeline d
    → In t d.tracks
    → In c t.clips
    → locate_clip d c.clip_id ≡ ok (t, c)
unfolding locate_clip
locate_clip_unique d t c v k m = rw (locate_in_unique d.tracks t c v.clip_ids k m, locate_clip) refl

-- What a search has found.
pub record Found (id : Text) (ts : List Track) (t : Track) (c : Clip) : Type 0 where
  pub track : In t ts
  pub clip : In c t.clips
  pub named : c.clip_id ≡ id

find-found :
    (cs : List Clip) (id : Text) (c : Clip)
    → find? (λ x. x.clip_id == id) cs ≡ some c
    → In c cs × (c.clip_id ≡ id)
find-found [] id c h = cc
find-found (x ∷ cs) id c h = elim (Bool-cases (x.clip_id == id)) [
  | inl e ↦
      let same : x ≡ c = ground arith in
      subst (λ (y : Clip). In y (x ∷ cs) × (y.clip_id ≡ id)) same
        (here, (text_eq_iff x.clip_id id).0 e)
  | inr e ↦ let (m, n) = find-found cs id c (ground arith) in (there m, n)
]

locate_in-Found :
    (id : Text) (ts : List Track) (t : Track) (c : Clip)
    → locate_in id ts ≡ some (t, c)
    → Found id ts t c
unfolding locate_in
locate_in-Found id [] t c h = cc
locate_in-Found id (u ∷ ts) t c h = elim (Option-cases (find? (λ x. x.clip_id == id) u.clips)) [
  | inl e ↦
      let r = locate_in-Found id ts t c (rw (e, locate_in) at h) in
      record { track = there r.track; clip = r.clip; named = r.named }
  | inr (x, e) ↦
      let k : (u ≡ t) × (x ≡ c) = ground arith in
      let (m, n) = find-found u.clips id x e in
      subst (λ (w : Track). Found id (u ∷ ts) w c) k.0
        (subst (λ (y : Clip). Found id (u ∷ ts) u y) k.1
          (record { track = here; clip = m; named = n }))
]

-- A clip that is found has the id, and is on the track that is returned with it.
pub locate_clip-Found :
    (d : Timeline) (id : Text) (t : Track) (c : Clip)
    → locate_clip d id ≡ ok (t, c)
    → Found id d.tracks t c
unfolding locate_clip
locate_clip-Found d id t c h = locate_in-Found id d.tracks t c (ground arith)
