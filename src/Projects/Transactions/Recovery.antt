-- ===== src/Projects/Transactions/Recovery.antt =====
-- The journal, and what recovery does with it.
use uv_studio.Base.{
  ◌≡◌, refl, ap, ◌∙◌, false, List, [], ◌∷◌, ◌++◌, Text, ◌==◌, text_eq_refl, All, All-append,
  Bool-cases, inl, inr,
}
use uv_studio.Base.Sort.{insert_sorted, sort, All-sort}
use uv_studio.Base.Dict.{Dict, insert}
use uv_studio.Projects.Transactions.Model.{Phase, Record, Folder, World}
use uv_studio.Projects.Transactions.Journal.{
  Found, found_in, found_before, all_records, apply_writes, recover_record, recover_all, recover,
  rollback_writes,
}

-- A record that recovery leaves alone
pub data IsSettled : Phase → Type 0 where
  committed : IsSettled Phase.committed
  rolled_back : IsSettled Phase.rolled_back

-- Every record but the one of `id` is settled, and that one is `r`.
pub data Pending (id : Text) (r : Record) : Dict Record → Type 0 where
  here : {d : Dict Record} → All (λ e. IsSettled (e.1).phase) d → Pending id r ((id, r) ∷ d)
  there :
      {k : Text} {v : Record} {d : Dict Record}
      → (id == k) ≡ false
      → IsSettled v.phase
      → Pending id r d
      → Pending id r ((k, v) ∷ d)

abbrev pub AllSettled : Dict Record → Type 0
AllSettled d = All (λ e. IsSettled (e.1).phase) d

-- Nothing is left to recover.
abbrev pub Settled : World → Type 0
Settled w = AllSettled w.transactions × AllSettled w.operations

-- The one record that is left to recover is `r`, under `id` in `folder`.
abbrev pub PendingIn : Folder → Text → Record → World → Type 0
PendingIn Folder.transactions id r w = Pending id r w.transactions × AllSettled w.operations
PendingIn Folder.operations id r w = AllSettled w.transactions × Pending id r w.operations

pub insert-Pending :
    (id : Text) (r : Record) (d : Dict Record) → AllSettled d → Pending id r (insert id r d)
unfolding insert
insert-Pending id r [] h = Pending.here tt
insert-Pending id r ((k, v) ∷ d) h = elim (Bool-cases (id == k)) [
  | inl e ↦ rw e (Pending.here h.1)
  | inr e ↦ rw e (Pending.there e h.0 (insert-Pending id r d h.1))
]

pub insert-AllSettled :
    (id : Text) (r r' : Record) (d : Dict Record)
    → Pending id r d
    → IsSettled r'.phase
    → AllSettled (insert id r' d)
unfolding insert
insert-AllSettled id r r' [] p s = elim p [ ]
insert-AllSettled id r r' ((k, v) ∷ d) (Pending.here h) s = rw (text_eq_refl id) (s, h)
insert-AllSettled id r r' ((k, v) ∷ d) (Pending.there e sv p) s =
    rw e (sv, insert-AllSettled id r r' d p s)

abbrev Quiet : List Found → Type 0
Quiet fs = All (λ f. IsSettled f.entry.phase) fs

-- One unsettled record in a list of records
data Only (x : Found) : List Found → Type 0 where
  here : {fs : List Found} → Quiet fs → Only x (x ∷ fs)
  there : {y : Found} {fs : List Found} → IsSettled y.entry.phase → Only x fs → Only x (y ∷ fs)

found_in-Quiet : (folder : Folder) (d : Dict Record) → AllSettled d → Quiet (found_in folder d)
found_in-Quiet folder [] h = tt
found_in-Quiet folder ((k, v) ∷ d) h = (h.0, found_in-Quiet folder d h.1)

found_in-Only :
    (folder : Folder) (id : Text) (r : Record) (d : Dict Record)
    → Pending id r d
    → Only (record { folder = folder; id = id; entry = r }) (found_in folder d)
found_in-Only folder id r [] p = elim p [ ]
found_in-Only folder id r ((k, v) ∷ d) (Pending.here h) = Only.here (found_in-Quiet folder d h)
found_in-Only folder id r ((k, v) ∷ d) (Pending.there e s p) =
    Only.there s (found_in-Only folder id r d p)

insert_sorted-Only :
    (x : Found) (fs : List Found) → Quiet fs → Only x (insert_sorted found_before x fs)
unfolding insert_sorted
insert_sorted-Only x [] h = Only.here tt
insert_sorted-Only x (y ∷ fs) h = elim (Bool-cases (found_before y x)) [
  | inl e ↦ rw e (Only.there h.0 (insert_sorted-Only x fs h.1))
  | inr e ↦ rw e (Only.here h)
]

Quiet-insert_sorted :
    (y : Found) (fs : List Found)
    → IsSettled y.entry.phase
    → Quiet fs
    → Quiet (insert_sorted found_before y fs)
unfolding insert_sorted
Quiet-insert_sorted y [] s h = (s, tt)
Quiet-insert_sorted y (z ∷ fs) s h = elim (Bool-cases (found_before z y)) [
  | inl e ↦ rw e (h.0, Quiet-insert_sorted y fs s h.1)
  | inr e ↦ rw e (s, h)
]

Only-insert_sorted :
    (x y : Found) (fs : List Found)
    → IsSettled y.entry.phase
    → Only x fs
    → Only x (insert_sorted found_before y fs)
unfolding insert_sorted
Only-insert_sorted x y [] s p = elim p [ ]
Only-insert_sorted x y (z ∷ fs) s (Only.here h) = elim (Bool-cases (found_before z y)) [
  | inl e ↦ rw e (Only.here (Quiet-insert_sorted y fs s h))
  | inr e ↦ rw e (Only.there s (Only.here h))
]
Only-insert_sorted x y (z ∷ fs) s (Only.there sz p) = elim (Bool-cases (found_before z y)) [
  | inl e ↦ rw e (Only.there sz (Only-insert_sorted x y fs s p))
  | inr e ↦ rw e (Only.there s (Only.there sz p))
]

Only-sort : (x : Found) (fs : List Found) → Only x fs → Only x (sort found_before fs)
unfolding sort
Only-sort x [] p = elim p [ ]
Only-sort x (y ∷ fs) (Only.here h) =
    insert_sorted-Only x (sort found_before fs) ((All-sort found_before _ fs).0 h)
Only-sort x (y ∷ fs) (Only.there s p) =
    Only-insert_sorted x y (sort found_before fs) s (Only-sort x fs p)

Only-append_left : (x : Found) (xs ys : List Found) → Only x xs → Quiet ys → Only x (xs ++ ys)
Only-append_left x [] ys p k = elim p [ ]
Only-append_left x (_ ∷ xs) ys (Only.here h) k = Only.here (All-append _ xs ys h k)
Only-append_left x (_ ∷ xs) ys (Only.there s p) k = Only.there s (Only-append_left x xs ys p k)

Only-append_right : (x : Found) (xs ys : List Found) → Quiet xs → Only x ys → Only x (xs ++ ys)
Only-append_right x [] ys h p = p
Only-append_right x (y ∷ xs) ys h p = Only.there h.0 (Only-append_right x xs ys h.1 p)

recover_record-settled : (f : Found) (w : World) → IsSettled f.entry.phase → recover_record f w ≡ w
unfolding recover_record
recover_record-settled f w s = settled f.entry.phase s
  where
    settled :
        (p : Phase)
        → IsSettled p
        → (elim p [
          | Phase.prepared ↦ apply_writes (rollback_writes f.folder f.id f.entry) w
          | Phase.committed ↦ w
          | Phase.rolled_back ↦ w
        ])
          ≡ w
    settled p IsSettled.committed = refl
    settled p IsSettled.rolled_back = refl

recover_all-Quiet : (fs : List Found) (w : World) → Quiet fs → recover_all fs w ≡ w
unfolding recover_all
recover_all-Quiet [] w h = refl
recover_all-Quiet (f ∷ fs) w h =
    ap (recover_all fs) (recover_record-settled f w h.0) ∙ recover_all-Quiet fs w h.1

recover_all-Only :
    (x : Found) (fs : List Found) (w : World) → Only x fs → recover_all fs w ≡ recover_record x w
unfolding recover_all
recover_all-Only x [] w p = elim p [ ]
recover_all-Only x (_ ∷ fs) w (Only.here h) = recover_all-Quiet fs (recover_record x w) h
recover_all-Only x (y ∷ fs) w (Only.there s p) =
    ap (recover_all fs) (recover_record-settled y w s) ∙ recover_all-Only x fs w p

-- Recovery leaves a world without prepared records as it is.
pub recover-Settled : (w : World) → Settled w → recover w ≡ w
unfolding recover all_records
recover-Settled w h = recover_all-Quiet (all_records w) w (
    All-append _ _ _
      ((All-sort found_before _ _).0 (found_in-Quiet Folder.transactions w.transactions h.0))
      ((All-sort found_before _ _).0 (found_in-Quiet Folder.operations w.operations h.1)))

abbrev found : Folder → Text → Record → Found
found folder id r = record { folder = folder; id = id; entry = r }

all_records-Only :
    (folder : Folder) (id : Text) (r : Record) (w : World)
    → PendingIn folder id r w
    → Only (found folder id r) (all_records w)
unfolding all_records
all_records-Only Folder.transactions id r w h =
    Only-append_left _ _ _
      (Only-sort _ _ (found_in-Only Folder.transactions id r w.transactions h.0))
      ((All-sort found_before _ _).0 (found_in-Quiet Folder.operations w.operations h.1))
all_records-Only Folder.operations id r w h =
    Only-append_right _ _ _
      ((All-sort found_before _ _).0 (found_in-Quiet Folder.transactions w.transactions h.0))
      (Only-sort _ _ (found_in-Only Folder.operations id r w.operations h.1))

-- One prepared record is rolled back.
pub recover-PendingIn :
    (folder : Folder) (id : Text) (r : Record) (w : World)
    → r.phase ≡ Phase.prepared
    → PendingIn folder id r w
    → recover w ≡ apply_writes (rollback_writes folder id r) w
unfolding recover recover_record
recover-PendingIn folder id r w e h =
    recover_all-Only (found folder id r) (all_records w) w (all_records-Only folder id r w h)
    ∙ rw e refl
