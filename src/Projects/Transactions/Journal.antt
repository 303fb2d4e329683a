-- ===== src/Projects/Transactions/Journal.antt =====
-- `_execute_prepared` and `_recover_prepared_operations`. Every write is atomic; a write may fail,
-- and the process may stop after any write.
use uv_studio.Base.{
  ℕ, zero, suc, Bool, true, false, List, [], ◌∷◌, ◌++◌, map, Option, some, Text, ◌==◌, text_lt,
  Outcome, ok, raised, if◌then◌else◌,
}
use mathlib.Core.List.{reverse}
use uv_studio.Base.Sort.{sort}
use uv_studio.Base.Dict.{Dict, insert}
use uv_studio.Projects.Transactions.Model.{
  Bytes, Documents, TransactionError, os_error, rolled_back_error, recovery_error, History, Change,
  Phase, Record, Folder, World,
}

-- One atomic write: a document's new content (`none` unlinks it), the history index, or a record
pub data Write : Type 0 where
  document : Text → Option Bytes → Write
  history_index : History → Write
  journal : Folder → Text → Record → Write

unfoldable pub put : Text → Option Bytes → Documents → Documents
put path content documents q = if q == path then content else documents q

unfoldable pub apply_write : Write → World → World
unfolding put
apply_write (Write.document path content) w = record w { documents = put path content w.documents }
apply_write (Write.history_index h) w = record w { history = some h }
apply_write (Write.journal Folder.transactions id r) w = record w {
  transactions = insert id r w.transactions;
}
apply_write (Write.journal Folder.operations id r) w = record w {
  operations = insert id r w.operations;
}

-- The writes in order, of which only so many succeed; the flag says whether all did.
unfoldable pub run_writes : ℕ → List Write → World → World × Bool
unfolding apply_write
run_writes n [] w = (w, true)
run_writes zero (_ ∷ _) w = (w, false)
run_writes (suc n) (x ∷ xs) w = run_writes n xs (apply_write x w)

abbrev pub with_phase : Phase → Record → Record
with_phase p r = record r { phase = p }

-- `self._write_snapshot(project_id, change["after"])`, and the same of `change["before"]`
abbrev pub write_after : Change → Write
write_after c = Write.document c.path c.after

abbrev pub write_before : Change → Write
write_before c = Write.document c.path c.before

-- The body of the `try`: the documents, the history index, and the committed marker.
unfoldable pub forward_writes : Folder → Text → Record → List Write
forward_writes folder id r =
    map write_after r.changes
    ++ (Write.history_index r.history_after
        ∷ Write.journal folder id (with_phase Phase.committed r)
        ∷ [])

-- The handler, and the recovery of a prepared record: the reverse of it.
unfoldable pub rollback_writes : Folder → Text → Record → List Write
rollback_writes folder id r =
    map write_before (reverse r.changes)
    ++ (Write.history_index r.history_before
        ∷ Write.journal folder id (with_phase Phase.rolled_back r)
        ∷ [])

abbrev pub Executed : Type 0
Executed = Outcome TransactionError (Unit {0}) × World

-- The handler raises its own error, or another where it fails itself.
abbrev pub after_rollback : World × Bool → Executed
after_rollback (w, true) = (raised rolled_back_error, w)
after_rollback (w, false) = (raised recovery_error, w)

abbrev pub handle : ℕ → Folder → Text → Record → World × Bool → Executed
handle m folder id r (w, true) = (ok tt, w)
handle m folder id r (w, false) = after_rollback (run_writes m (rollback_writes folder id r) w)

-- `_execute_prepared`. The first write, of the prepared record, stands outside the `try`. Of the
-- others `n` succeed before one fails, and `m` of the handler's.
unfoldable pub execute_prepared : Bool → ℕ → ℕ → Folder → Text → Record → World → Executed
unfolding run_writes forward_writes rollback_writes
execute_prepared false n m folder id r w = (raised os_error, w)
execute_prepared true n m folder id r w =
    handle m folder id r
      (run_writes n (forward_writes folder id r) (apply_write (Write.journal folder id r) w))

-- A record with the folder and the name that it is found under
pub record Found : Type 0 where
  pub folder : Folder
  pub id : Text
  pub entry : Record

abbrev pub found_in : Folder → Dict Record → List Found
found_in folder [] = []
found_in folder ((id, r) ∷ d) = record { folder = folder; id = id; entry = r } ∷ found_in folder d

abbrev pub found_before : Found → Found → Bool
found_before a b = text_lt a.id b.id

-- The sorted records of both folders
unfoldable pub all_records : World → List Found
all_records w =
    sort found_before (found_in Folder.transactions w.transactions)
    ++ sort found_before (found_in Folder.operations w.operations)

unfoldable pub apply_writes : List Write → World → World
unfolding apply_write
apply_writes [] w = w
apply_writes (x ∷ xs) w = apply_writes xs (apply_write x w)

-- One round of the recovery loop
unfoldable pub recover_record : Found → World → World
unfolding apply_writes rollback_writes
recover_record f w = elim f.entry.phase [
  | Phase.prepared ↦ apply_writes (rollback_writes f.folder f.id f.entry) w
  | Phase.committed ↦ w
  | Phase.rolled_back ↦ w
]

unfoldable pub recover_all : List Found → World → World
unfolding recover_record
recover_all [] w = w
recover_all (f ∷ fs) w = recover_all fs (recover_record f w)

-- `_recover_prepared_operations`
unfoldable pub recover : World → World
unfolding recover_all all_records
recover w = recover_all (all_records w) w
