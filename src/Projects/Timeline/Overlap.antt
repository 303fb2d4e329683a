-- ===== src/Projects/Timeline/Overlap.antt =====
-- The loop over a track's sorted clips, which compares neighbours only, decides that all clips of
-- the track are pairwise disjoint.
use uv_studio.Base.{
  ◌+◌, ◌≤◌, ◌<◌, ◌≡◌, ◌↔◌, ◌⊎◌, inl, Bool, true, false, List, [], ◌∷◌, none, some, arith,
  text_lt_asym, text_lt_neg_trans, All, AllPairs, All-map, AllPairs-map, ok, refl,
}
use uv_studio.Base.Sort.{
  sort, IsAscending, sort-IsAscending, sort_of_IsAscending, keep_if-sort, All-sort, AllPairs-sort,
}
use uv_studio.Base.{keep_if}
use uv_studio.Projects.Timeline.Clip.{Clip, clip_before}
use uv_studio.Projects.Timeline.Track.{check_non_overlapping}

clip_before_asym : (a b : Clip) → clip_before a b ≡ true → clip_before b a ≡ false
unfolding clip_before
clip_before_asym a b h = ground (arith, text_lt_asym a.clip_id b.clip_id)

clip_before_neg_trans :
    (a b c : Clip) → clip_before b a ≡ false → clip_before c b ≡ false → clip_before c a ≡ false
unfolding clip_before
clip_before_neg_trans a b c h k = ground (arith, text_lt_neg_trans a.clip_id b.clip_id c.clip_id)

start-le_of_not_before :
    (a b : Clip) → clip_before b a ≡ false → a.timeline_start_us ≤ b.timeline_start_us
unfolding clip_before
start-le_of_not_before a b h = ground arith

pub clips-IsAscending : (cs : List Clip) → IsAscending clip_before (sort clip_before cs)
clips-IsAscending =
    sort-IsAscending clip_before (λ a b c. clip_before_neg_trans a b c) clip_before_asym

pub sort_clips : (cs : List Clip) → IsAscending clip_before cs → sort clip_before cs ≡ cs
sort_clips = sort_of_IsAscending clip_before (λ a b c. clip_before_neg_trans a b c) clip_before_asym

pub keep_if-sort_clips :
    (test : Clip → Bool) (cs : List Clip)
    → keep_if test (sort clip_before cs) ≡ sort clip_before (keep_if test cs)
keep_if-sort_clips =
    keep_if-sort clip_before (λ a b c. clip_before_neg_trans a b c) clip_before_asym

abbrev pub Lasts : Clip → Type 0
Lasts c = 0 < c.duration_us

-- The two clips never play at the same time.
abbrev pub Disjoint : Clip → Clip → Type 0
Disjoint a b =
    (a.timeline_start_us + a.duration_us ≤ b.timeline_start_us)
    ⊎ (b.timeline_start_us + b.duration_us ≤ a.timeline_start_us)

abbrev Follows : Clip → Clip → Type 0
Follows a b = a.timeline_start_us + a.duration_us ≤ b.timeline_start_us

pub Disjoint-swap : (a b : Clip) → Disjoint a b → Disjoint b a
Disjoint-swap a b h = ground arith

check_some_iff :
    (p : Clip) (cs : List Clip)
    → All Lasts cs
    → (check_non_overlapping (some p) cs ≡ ok tt) ↔ (All (Follows p) cs × AllPairs Follows cs)
unfolding check_non_overlapping
check_some_iff p [] i = (λ h. (tt, tt), λ h. refl)
check_some_iff p (c ∷ cs) i = (
  λ h.
      let first : Follows p c = ground arith in
      let (near, pairs) = (check_some_iff c cs i.1).0 (ground arith) in
      ((first, All-map (λ x k. after x first k) cs near), (near, pairs)),
  λ h. ground (arith, (check_some_iff c cs i.1).1 (h.1.0, h.1.1), h.0.0),
)
  where
    after : (x : Clip) → Follows p c → Follows c x → Follows p x
    after x first k = omega arith

-- Neighbours that follow one another make all clips follow one another.
check_iff :
    (cs : List Clip) → All Lasts cs → (check_non_overlapping none cs ≡ ok tt) ↔ AllPairs Follows cs
unfolding check_non_overlapping
check_iff [] i = (λ h. tt, λ h. refl)
check_iff (c ∷ cs) i = (λ h. (check_some_iff c cs i.1).0 h, λ h. (check_some_iff c cs i.1).1 h)

Follows-of_Disjoint :
    (cs : List Clip)
    → All Lasts cs
    → IsAscending clip_before cs
    → AllPairs Disjoint cs
    → AllPairs Follows cs
Follows-of_Disjoint [] i s h = tt
Follows-of_Disjoint (c ∷ cs) i s h = (heads cs i.1 s.0 h.0, Follows-of_Disjoint cs i.1 s.1 h.1)
  where
    heads :
        (xs : List Clip)
        → All Lasts xs
        → All (λ x. clip_before x c ≡ false) xs
        → All (Disjoint c) xs
        → All (Follows c) xs
    heads [] j t k = tt
    heads (x ∷ xs) j t k =
        (ground (arith, start-le_of_not_before c x t.0, i.0, j.0), heads xs j.1 t.1 k.1)

-- The loop over the sorted clips passes exactly if no two clips, in any order, overlap.
pub check-sort_iff :
    (cs : List Clip)
    → All Lasts cs
    → (check_non_overlapping none (sort clip_before cs) ≡ ok tt) ↔ AllPairs Disjoint cs
check-sort_iff cs i =
    let sorted = sort clip_before cs in
    let j = (All-sort clip_before Lasts cs).0 i in
    let swap = AllPairs-sort clip_before Disjoint Disjoint-swap cs in
    (
      λ h. swap.1 (AllPairs-map (λ x y f. inl f) sorted ((check_iff sorted j).0 h)),
      λ h. (check_iff sorted j).1 (Follows-of_Disjoint sorted j (clips-IsAscending cs) (swap.0 h)),
    )
