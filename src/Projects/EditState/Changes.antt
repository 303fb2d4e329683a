-- ===== src/Projects/EditState/Changes.antt =====
-- Adding and removing an edit.
use uv_studio.Base.{
  ◌≤◌, ◌≡◌, ◌↔◌, refl, ◌∙◌, ap, Bool, true, false, not, List, [], ◌∷◌, ◌++◌, map, arith, Text, ◌==◌,
  text_eq_iff, text_eq_refl, length, nat_eq, contains, All, ◌||◌, All-keep_if, AllPairs-keep_if,
  All-append, AllPairs-append_last, keep_if, ok, raised, if◌then◌else◌,
}
use uv_studio.Base.Sort.{sort, insert_sorted, IsAscending, sort_of_IsAscending, keep_if-sort}
use uv_studio.Json.{Json, num}
use uv_studio.Projects.Identifiers.{matches_id, validate_identifier-eq_self}
use uv_studio.Projects.EditState.Edit.{Edit, not_found, edit_before}
use uv_studio.Projects.EditState.State.{EditState, make_state, is_schema_one, add, remove}
use uv_studio.Projects.EditState.Order.{edit_before_asym, edit_before_neg_trans}
use uv_studio.Projects.EditState.Disjoint.{
  IsInterval, Disjoint, DifferentIds, IsState, make_state_iff, make_state-IsState, make_state_inv,
}

pub sort_edits : (es : List Edit) → IsAscending edit_before es → sort edit_before es ≡ es
sort_edits = sort_of_IsAscending edit_before (λ a b c. edit_before_neg_trans a b c) edit_before_asym

keep_if-sort_edits :
    (test : Edit → Bool) (es : List Edit)
    → keep_if test (sort edit_before es) ≡ sort edit_before (keep_if test es)
keep_if-sort_edits =
    keep_if-sort edit_before (λ a b c. edit_before_neg_trans a b c) edit_before_asym

-- `add` succeeds on a valid state exactly if the id is new and the interval meets no accepted
-- interval of the same source.
pub add_iff :
    (s : EditState) (e : Edit)
    → IsState s
    → IsInterval e
    → (add s e ≡ ok (record { edits = sort edit_before (s.edits ++ e ∷ []) }))
      ↔ (All (λ x. DifferentIds x e) s.edits × All (λ x. Disjoint x e) s.edits)
unfolding add
add_iff s e v i =
    let every = All-append IsInterval s.edits (e ∷ []) v.intervals (i, tt) in
    let whole = make_state_iff (num 1) (s.edits ++ e ∷ []) every in
    (
      λ h.
          let (_, ids, disjoint) = whole.0 h in
          (
            ((AllPairs-append_last DifferentIds s.edits e).0 ids).1,
            ((AllPairs-append_last Disjoint s.edits e).0 disjoint).1,
          ),
      λ (fresh, apart). whole.1 (
        unfold is_schema_one in refl,
        (AllPairs-append_last DifferentIds s.edits e).1 (v.ids, fresh),
        (AllPairs-append_last Disjoint s.edits e).1 (v.disjoint, apart),
      ),
    )

-- The state that `add` returns is valid.
pub add-IsState :
    (s t : EditState) (e : Edit) → IsState s → IsInterval e → add s e ≡ ok t → IsState t
unfolding add
add-IsState s t e v i h =
    (make_state-IsState (num 1) (s.edits ++ e ∷ []) t
      (All-append IsInterval s.edits (e ∷ []) v.intervals (i, tt)) h).0

-- The edits with another id.
abbrev pub without : Text → List Edit → List Edit
without id = keep_if (λ e. not (e.edit_id == id))

length-without-le : (id : Text) (es : List Edit) → length (without id es) ≤ length es
length-without-le id [] = omega arith
length-without-le id (e ∷ es) = ground (arith, length-without-le id es)

abbrev pub ids_of : List Edit → List Text
ids_of = map (λ e. e.edit_id)

-- The comparison of the two lengths tests whether the id is missing.
same_length_iff :
    (id : Text) (es : List Edit)
    → (nat_eq (length (without id es)) (length es) ≡ true) ↔ (contains id (ids_of es) ≡ false)
unfolding contains
same_length_iff id [] = (λ h. refl, λ h. refl)
same_length_iff id (e ∷ es) = (
  λ h. ground (
    arith,
    length-without-le id es,
    same_length_iff id es,
    text_eq_iff id e.edit_id,
    text_eq_iff e.edit_id id,
  ),
  λ h. ground (
    arith,
    length-without-le id es,
    same_length_iff id es,
    text_eq_iff id e.edit_id,
    text_eq_iff e.edit_id id,
  ),
)

without-make_state :
    (s : EditState) (id : Text)
    → IsState s
    → make_state (num 1) (without id s.edits) ≡ ok (record { edits = without id s.edits })
without-make_state s id v =
    let test = λ (e : Edit). not (e.edit_id == id) in
    let sorted = sort_edits (without id s.edits) (AllPairs-keep_if _ test s.edits v.ascending) in
    rw sorted at (
      (make_state_iff (num 1) (without id s.edits)
          (All-keep_if IsInterval test s.edits v.intervals)).1
        (
          unfold is_schema_one in refl,
          AllPairs-keep_if DifferentIds test s.edits v.ids,
          AllPairs-keep_if Disjoint test s.edits v.disjoint,
        ))

-- On a valid state and a well-formed id, `remove` drops the edit of that id, keeps all others in
-- their order, and never fails on what remains; where no edit has the id, it raises not-found.
pub remove_lem :
    (s : EditState) (id : Text)
    → IsState s
    → matches_id id ≡ true
    → remove s (Json.str id) ≡ (
        if contains id (ids_of s.edits)
        then ok (record { edits = without id s.edits })
        else raised (not_found id))
unfolding remove
remove_lem s id v well =
    let k = same_length_iff id s.edits in
    rw (validate_identifier-eq_self id well) (ground (arith, k, without-make_state s id v))

-- What `remove` leaves is a valid state.
pub remove-IsState :
    (s : EditState) (id : Text) → IsState s → IsState (record { edits = without id s.edits })
remove-IsState s id v =
    let test = λ (e : Edit). not (e.edit_id == id) in
    record {
      intervals = All-keep_if IsInterval test s.edits v.intervals;
      ids = AllPairs-keep_if DifferentIds test s.edits v.ids;
      disjoint = AllPairs-keep_if Disjoint test s.edits v.disjoint;
      ascending = AllPairs-keep_if _ test s.edits v.ascending;
    }

without-append_last :
    (es : List Edit) (e : Edit)
    → All (λ x. DifferentIds x e) es
    → without e.edit_id (es ++ e ∷ []) ≡ es
without-append_last [] e h = rw (text_eq_refl e.edit_id) refl
without-append_last (x ∷ es) e h =
    ground (arith, without-append_last es e h.1, text_eq_iff x.edit_id e.edit_id)

contains-insert_last :
    (es : List Edit) (e : Edit) → contains e.edit_id (ids_of (es ++ e ∷ [])) ≡ true
unfolding contains
contains-insert_last [] e = rw (text_eq_refl e.edit_id) refl
contains-insert_last (x ∷ es) e = ground (arith, contains-insert_last es e)

contains-insert_sorted :
    (id : Text) (x : Edit) (es : List Edit)
    → contains id (ids_of (insert_sorted edit_before x es)) ≡ contains id (ids_of (x ∷ es))
unfolding contains insert_sorted
contains-insert_sorted id x [] = refl
contains-insert_sorted id x (e ∷ es) = ground (arith, contains-insert_sorted id x es)

contains-sort :
    (id : Text) (es : List Edit)
    → contains id (ids_of (sort edit_before es)) ≡ contains id (ids_of es)
unfolding sort contains
contains-sort id [] = refl
contains-sort id (e ∷ es) =
    contains-insert_sorted id e (sort edit_before es)
    ∙ ap (λ b. id == e.edit_id || b) (contains-sort id es)

-- Removing an edit that was just added gives the state back, in every field and order.
pub remove-add :
    (s t : EditState) (e : Edit)
    → IsState s
    → IsInterval e
    → matches_id e.edit_id ≡ true
    → add s e ≡ ok t
    → remove t (Json.str e.edit_id) ≡ ok s
remove-add s t e v i well h =
    let whole = s.edits ++ e ∷ [] in
    let (_, _, _, same) = make_state_inv (num 1) whole t (unfold add in h) in
    let added = rw same at h in
    let (fresh, _) = (add_iff s e v i).0 added in
    let valid = rw same at (add-IsState s t e v i h) in
    let present = contains-sort e.edit_id whole ∙ contains-insert_last s.edits e in
    let back : without e.edit_id (sort edit_before whole) ≡ s.edits =
      keep_if-sort_edits (λ x. not (x.edit_id == e.edit_id)) whole
      ∙ ap (sort edit_before) (without-append_last s.edits e fresh)
      ∙ sort_edits s.edits v.ascending in
    rw (same, remove_lem (record { edits = sort edit_before whole }) e.edit_id valid well, present)
      (ap (λ es. ok (record { edits = es })) back)
