-- ===== src/Editor/TimelineCommands/Swapping.antt =====
-- A track in the place of another one of its id: what this keeps.
use mathlib.Core.Path.{subst}
use uv_studio.Base.{
  ◌≡◌, ◌≢◌, refl, sym, ap, List, [], ◌∷◌, map, Text, ◌==◌, text_eq_refl, text_eq_ne, text_eq_iff,
  AllPairs-of_map, All, AllPairs, All-map, All-append, All-of_append, AllPairs-of_append,
  AllPairs-append, In, here, there, All-In, if◌then◌else◌, inl, inr, Bool-cases,
}
use uv_studio.Projects.Timeline.Clip.{Clip}
use uv_studio.Projects.Timeline.Track.{Track}
use uv_studio.Projects.Timeline.Document.{all_clips, track_ids}
use uv_studio.Projects.Timeline.Validity.{DifferentIds, DifferentTracks}

-- The tracks with `u` in the place of the one of its id
abbrev pub swap : Text → Track → List Track → List Track
swap id u = map (λ x. if x.track_id == id then u else x)

pub swap-other :
    (id : Text) (u : Track) (ts : List Track) → All (λ x. x.track_id ≢ id) ts → swap id u ts ≡ ts
swap-other id u [] h = refl
swap-other id u (x ∷ ts) h = rw (text_eq_ne x.track_id id h.0) (ap (◌∷◌ x) (swap-other id u ts h.1))

pub different :
    (t : Track) (ts : List Track)
    → All (DifferentTracks t) ts
    → All (λ x. x.track_id ≢ t.track_id) ts
different t ts = All-map (λ x n e. n (sym e)) ts

pub All-swap :
    (P : Track → Type 0) (id : Text) (u : Track) (ts : List Track)
    → P u
    → All P ts
    → All P (swap id u ts)
All-swap P id u [] p h = tt
All-swap P id u (x ∷ ts) p h = elim (Bool-cases (x.track_id == id)) [
  | inl e ↦ rw e (p, All-swap P id u ts p h.1)
  | inr e ↦ rw e (h.0, All-swap P id u ts p h.1)
]

-- The clips of `u` have the ids of `t`'s clips, or new ones.
abbrev pub Carries : (Text → Type 0) → Track → Track → Type 1
Carries IsNew t u =
    (P : Text → Type 0)
    → All (λ c. P c.clip_id) t.clips
    → ((n : Text) → IsNew n → P n)
    → All (λ c. P c.clip_id) u.clips

-- No clip has a new id.
abbrev pub Fresh : (Text → Type 0) → List Clip → Type 0
Fresh IsNew = All (λ c. (n : Text) → IsNew n → c.clip_id ≢ n)

module _ (IsNew : Text → Type 0) (t u : Track) (carries : Carries IsNew t u)
    (same : u.track_id ≡ t.track_id) where
  -- What holds of all ids and of the new ones holds after the exchange.
  All-ids-swap :
      (P : Text → Type 0) (ts : List Track)
      → AllPairs DifferentTracks ts
      → In t ts
      → ((n : Text) → IsNew n → P n)
      → All (λ c. P c.clip_id) (all_clips ts)
      → All (λ c. P c.clip_id) (all_clips (swap t.track_id u ts))
  All-ids-swap P [] d m new h = elim m [ ]
  All-ids-swap P (_ ∷ ts) d here new h =
      let parts = All-of_append (λ c. P c.clip_id) t.clips (all_clips ts) h in
      rw (text_eq_refl t.track_id, swap-other t.track_id u ts (different t ts d.0))
        (All-append _ u.clips (all_clips ts) (carries P parts.0 new) parts.1)
  All-ids-swap P (x ∷ ts) d (there m) new h =
      let parts = All-of_append (λ c. P c.clip_id) x.clips (all_clips ts) h in
      rw (text_eq_ne x.track_id t.track_id (All-In (DifferentTracks x) d.0 m)) (
        All-append _ x.clips (all_clips (swap t.track_id u ts)) parts.0
          (All-ids-swap P ts d.1 m new parts.1))

  -- The clip ids of the timeline stay unique.
  pub AllPairs-ids-swap :
      (ts : List Track)
      → AllPairs DifferentTracks ts
      → In t ts
      → Fresh IsNew (all_clips ts)
      → AllPairs DifferentIds u.clips
      → AllPairs DifferentIds (all_clips ts)
      → AllPairs DifferentIds (all_clips (swap t.track_id u ts))
  AllPairs-ids-swap [] d m new own h = elim m [ ]
  AllPairs-ids-swap (_ ∷ ts) d here new own h =
      let (_, rest, across) = AllPairs-of_append DifferentIds t.clips (all_clips ts) h in
      let (_, new_rest) = All-of_append _ t.clips (all_clips ts) new in
      rw (text_eq_refl t.track_id, swap-other t.track_id u ts (different t ts d.0))
        (AllPairs-append DifferentIds u.clips (all_clips ts) own rest (
          carries (λ id. All (λ b. id ≢ b.clip_id) (all_clips ts)) across
            (λ n k. All-map (λ b f e. f n k (sym e)) (all_clips ts) new_rest)))
  AllPairs-ids-swap (x ∷ ts) d (there m) new own h =
      let (first, rest, across) = AllPairs-of_append DifferentIds x.clips (all_clips ts) h in
      let (new_first, new_rest) = All-of_append _ x.clips (all_clips ts) new in
      let tail = swap t.track_id u ts in
      rw (text_eq_ne x.track_id t.track_id (All-In (DifferentTracks x) d.0 m)) (
        AllPairs-append DifferentIds x.clips (all_clips tail) first
          (AllPairs-ids-swap ts d.1 m new_rest own rest) (both x.clips new_first across))
    where
      both :
          (cs : List Clip)
          → Fresh IsNew cs
          → All (λ a. All (DifferentIds a) (all_clips ts)) cs
          → All (λ a. All (DifferentIds a) (all_clips (swap t.track_id u ts))) cs
      both [] f k = tt
      both (c ∷ cs) f k =
          (All-ids-swap (λ id. c.clip_id ≢ id) ts d.1 m (λ n q. f.0 n q) k.0, both cs f.1 k.1)

track_ids-swap :
    (id : Text) (u : Track) (ts : List Track)
    → u.track_id ≡ id
    → track_ids (swap id u ts) ≡ track_ids ts
track_ids-swap id u [] same = refl
track_ids-swap id u (x ∷ ts) same = elim (Bool-cases (x.track_id == id)) [
  | inl e ↦
      rw (e, same, (text_eq_iff x.track_id id).0 e) (ap (◌∷◌ id) (track_ids-swap id u ts same))
  | inr e ↦ rw e (ap (◌∷◌ x.track_id) (track_ids-swap id u ts same))
]

pub DifferentTracks-swap :
    (id : Text) (u : Track) (ts : List Track)
    → u.track_id ≡ id
    → AllPairs DifferentTracks ts
    → AllPairs DifferentTracks (swap id u ts)
DifferentTracks-swap id u ts same h =
    let iff = λ (xs : List Track). AllPairs-of_map (λ s t. s ≢ t) (λ (t : Track). t.track_id) xs in
    (iff (swap id u ts)).0
      (subst (AllPairs (λ s t. s ≢ t)) (sym (track_ids-swap id u ts same)) ((iff ts).1 h))
