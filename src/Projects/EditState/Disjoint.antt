-- ===== src/Projects/EditState/Disjoint.antt =====
-- The loop over the sorted edits, which looks only at the previous edit of the same source, decides
-- that all edits of one source are pairwise disjoint.
use uv_studio.Base.{
  ◌≤◌, ◌<◌, ◌≡◌, ◌≢◌, ◌↔◌, ◌⊎◌, inl, inr, refl, sym, true, false, List, [], ◌∷◌, arith, text_eq_iff,
  all_distinct, all_distinct_iff, All, AllPairs, AllPairs-map, AllPairs-of_map, ok,
}
use uv_studio.Base.Sort.{sort, IsAscending, sort-IsAscending, All-sort, AllPairs-sort, sort-perm}
use uv_studio.Base.Dict.{Dict, lookup, insert, lookup-insert}
use uv_studio.Json.{Json}
use uv_studio.Projects.EditState.Edit.{Edit, edit_before}
use uv_studio.Projects.EditState.State.{
  EditState, overlaps_previous, check_non_overlapping, is_schema_one, edit_ids, make_state,
}
use uv_studio.Projects.EditState.Order.{
  edit_before_asym, edit_before_neg_trans, start-le_of_not_before,
}
use mathlib.Core.List.{Perm}

abbrev pub IsInterval : Edit → Type 0
IsInterval e = e.start_us < e.end_us

-- The edits replace different media, or parts of one medium that do not meet.
abbrev pub Disjoint : Edit → Edit → Type 0
Disjoint a b = a.source_path ≡ b.source_path → (a.end_us ≤ b.start_us) ⊎ (b.end_us ≤ a.start_us)

abbrev Follows : Edit → Edit → Type 0
Follows a b = a.source_path ≡ b.source_path → a.end_us ≤ b.start_us

-- No overlap with the previous edit of its source.
abbrev Clear : Dict Edit → Edit → Type 0
Clear d e = overlaps_previous (lookup e.source_path d) e ≡ false

Clear-insert :
    (d : Dict Edit) (e x : Edit)
    → IsInterval e
    → Clear d e
    → Clear (insert e.source_path e d) x ↔ (Clear d x × Follows e x)
unfolding overlaps_previous
Clear-insert d e x i c = (
  λ h. ground (
    arith,
    lookup-insert e.source_path x.source_path e d,
    text_eq_iff x.source_path e.source_path,
  ),
  λ h. ground (
    arith,
    lookup-insert e.source_path x.source_path e d,
    text_eq_iff x.source_path e.source_path,
  ),
)

All-Clear-insert :
    (d : Dict Edit) (e : Edit) (xs : List Edit)
    → IsInterval e
    → Clear d e
    → All (Clear (insert e.source_path e d)) xs ↔ (All (Clear d) xs × All (Follows e) xs)
All-Clear-insert d e [] i c = (λ h. (tt, tt), λ h. tt)
All-Clear-insert d e (x ∷ xs) i c = (
  λ h.
      let k = (Clear-insert d e x i c).0 h.0 in
      let q = (All-Clear-insert d e xs i c).0 h.1 in ((k.0, q.0), (k.1, q.1)),
  λ h. ((Clear-insert d e x i c).1 (h.0.0, h.1.0), (All-Clear-insert d e xs i c).1 (h.0.1, h.1.1)),
)

step_ok :
    (d : Dict Edit) (e : Edit) (es : List Edit)
    → (check_non_overlapping d (e ∷ es) ≡ ok tt)
      ↔ (Clear d e × (check_non_overlapping (insert e.source_path e d) es ≡ ok tt))
unfolding check_non_overlapping
step_ok d e es = (λ h. ground arith, λ h. ground arith)

check_iff :
    (d : Dict Edit) (es : List Edit)
    → All IsInterval es
    → (check_non_overlapping d es ≡ ok tt) ↔ (All (Clear d) es × AllPairs Follows es)
check_iff d [] i = (λ h. (tt, tt), λ h. unfold check_non_overlapping in refl)
check_iff d (e ∷ es) i = (
  λ h.
      let (c, rest) = (step_ok d e es).0 h in
      let (clear, pairs) = (check_iff (insert e.source_path e d) es i.1).0 rest in
      let (old, follows) = (All-Clear-insert d e es i.0 c).0 clear in ((c, old), (follows, pairs)),
  λ h.
      let c = h.0.0 in
      (step_ok d e es).1 (
        c,
        (check_iff (insert e.source_path e d) es i.1).1
            ((All-Clear-insert d e es i.0 c).1 (h.0.1, h.1.0), h.1.1),
      ),
)

All-Clear-empty : (es : List Edit) → All (Clear []) es
unfolding overlaps_previous lookup
All-Clear-empty [] = tt
All-Clear-empty (e ∷ es) = (refl, All-Clear-empty es)

-- In ascending order, disjoint edits of one source follow one another.
Follows-of_Disjoint :
    (es : List Edit)
    → All IsInterval es
    → IsAscending edit_before es
    → AllPairs Disjoint es
    → AllPairs Follows es
Follows-of_Disjoint [] i s h = tt
Follows-of_Disjoint (e ∷ es) i s h = (heads es i.1 s.0 h.0, Follows-of_Disjoint es i.1 s.1 h.1)
  where
    heads :
        (xs : List Edit)
        → All IsInterval xs
        → All (λ x. edit_before x e ≡ false) xs
        → All (Disjoint e) xs
        → All (Follows e) xs
    heads [] j t k = tt
    heads (x ∷ xs) j t k = (
      λ same. elim (k.0 same) [
        | inl first ↦ first
        | inr second ↦ absurd (omega (arith, start-le_of_not_before e x same t.0, i.0, j.0, second))
      ],
      heads xs j.1 t.1 k.1,
    )

Disjoint-of_Follows : (es : List Edit) → AllPairs Follows es → AllPairs Disjoint es
Disjoint-of_Follows = AllPairs-map (λ x y f same. inl (f same))

Disjoint-swap : (a b : Edit) → Disjoint a b → Disjoint b a
Disjoint-swap a b h same = elim (h (sym same)) [ inl p ↦ inr p | inr p ↦ inl p ]

pub edits-IsAscending : (es : List Edit) → IsAscending edit_before (sort edit_before es)
edits-IsAscending =
    sort-IsAscending edit_before (λ a b c. edit_before_neg_trans a b c) edit_before_asym

-- The loop over the sorted edits passes exactly if the edits, in any order, are disjoint.
pub check-sort_iff :
    (es : List Edit)
    → All IsInterval es
    → (check_non_overlapping [] (sort edit_before es) ≡ ok tt) ↔ AllPairs Disjoint es
check-sort_iff es i =
    let sorted = sort edit_before es in
    let j = (All-sort edit_before IsInterval es).0 i in
    let swap = AllPairs-sort edit_before Disjoint Disjoint-swap es in
    (
      λ h. swap.1 (Disjoint-of_Follows sorted ((check_iff [] sorted j).0 h).1),
      λ h.
          (check_iff [] sorted j).1 (
            All-Clear-empty sorted,
            Follows-of_Disjoint sorted j (edits-IsAscending es) (swap.0 h),
          ),
    )

abbrev pub DifferentIds : Edit → Edit → Type 0
DifferentIds a b = a.edit_id ≢ b.edit_id

-- What a state holds: no id twice, disjoint intervals on each source, in the sort order.
pub record IsState (s : EditState) : Type 0 where
  pub intervals : All IsInterval s.edits
  pub ids : AllPairs DifferentIds s.edits
  pub disjoint : AllPairs Disjoint s.edits
  pub ascending : IsAscending edit_before s.edits

make_state-eq-ok :
    (v : Json) (es : List Edit)
    → is_schema_one v ≡ true
    → all_distinct (edit_ids es) ≡ true
    → check_non_overlapping [] (sort edit_before es) ≡ ok tt
    → make_state v es ≡ ok (record { edits = sort edit_before es })
unfolding make_state
make_state-eq-ok v es a b c = rw (a, b, c) refl

pub make_state_inv :
    (v : Json) (es : List Edit) (s : EditState)
    → make_state v es ≡ ok s
    → (is_schema_one v ≡ true)
      × (all_distinct (edit_ids es) ≡ true)
      × (check_non_overlapping [] (sort edit_before es) ≡ ok tt)
      × (s ≡ record { edits = sort edit_before es })
unfolding make_state
make_state_inv v es s h = ground arith

-- A state is constructed from a list of non-empty edits exactly if the schema version is the
-- integer 1, no edit id occurs twice, and any two edits of one source are disjoint, in whatever
-- order the edits are listed; what it then holds is that list, sorted.
pub make_state_iff :
    (v : Json) (es : List Edit)
    → All IsInterval es
    → (make_state v es ≡ ok (record { edits = sort edit_before es }))
      ↔ ((is_schema_one v ≡ true) × AllPairs DifferentIds es × AllPairs Disjoint es)
make_state_iff v es i = (
  λ h.
      let (a, b, c, _) = make_state_inv v es _ h in
      (
        a,
        (AllPairs-of_map (λ s t. s ≢ t) (λ e. e.edit_id) es).0
            ((all_distinct_iff (edit_ids es)).0 b),
        (check-sort_iff es i).0 c,
      ),
  λ h.
      make_state-eq-ok v es h.0
        ((all_distinct_iff (edit_ids es)).1
          ((AllPairs-of_map (λ s t. s ≢ t) (λ e. e.edit_id) es).1 h.1))
        ((check-sort_iff es i).1 h.2),
)

-- Every state that is constructed from non-empty edits is valid, and has exactly the given edits.
pub make_state-IsState :
    (v : Json) (es : List Edit) (s : EditState)
    → All IsInterval es
    → make_state v es ≡ ok s
    → IsState s × Perm s.edits es
make_state-IsState v es s i h =
    let (a, b, c, e) = make_state_inv v es s h in
    let (_, ids, disjoint) = (make_state_iff v es i).0 (make_state-eq-ok v es a b c) in
    rw e (
      record {
        intervals = (All-sort edit_before IsInterval es).0 i;
        ids = (AllPairs-sort edit_before DifferentIds (λ x y n q. n (sym q)) es).0 ids;
        disjoint = (AllPairs-sort edit_before Disjoint Disjoint-swap es).0 disjoint;
        ascending = edits-IsAscending es;
      },
      sort-perm edit_before es,
    )
