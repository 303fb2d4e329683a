-- ===== src/Projects/Transactions/Atomicity.antt =====
-- A prepared operation is committed as a whole or undone as a whole, also over failing writes and
-- a stop of the process.
use uv_studio.Base.{ℕ, ◌≡◌, refl, sym, ◌⊎◌, inl, inr, Bool, true, false, Text, ok, raised}
use mathlib.Core.Path.{subst}
use uv_studio.Projects.Transactions.Model.{
  TransactionError, rolled_back_error, recovery_error, os_error, Phase, Record, Folder, World,
  load_history,
}
use uv_studio.Projects.Transactions.Journal.{
  Write, apply_write, apply_writes, run_writes, forward_writes, rollback_writes, Executed,
  execute_prepared, after_rollback, recover,
}
use uv_studio.Projects.Transactions.Restore.{Recorded, Distinct}
use uv_studio.Projects.Transactions.Recovery.{Settled, recover-Settled, recover-PendingIn}
use uv_studio.Projects.Transactions.Steps.{
  run_writes-Keeps, start-Interrupted, Interrupted, forward-Keeps, rollback-Keeps, RolledBack,
  Committed, rollback-RolledBack, forward-Committed,
}

-- What holds of a record that is about to be executed
abbrev pub IsReady : World → Record → Type 0
IsReady w r =
    Settled w
    × (r.phase ≡ Phase.prepared)
    × Recorded w.documents r.changes
    × Distinct r.changes
    × (load_history w ≡ r.history_before)

abbrev started : Folder → Text → Record → World → World
started folder id r w = apply_write (Write.journal folder id r) w

started-documents :
    (folder : Folder) (id : Text) (r : Record) (w : World)
    → (started folder id r w).documents ≡ w.documents
unfolding apply_write
started-documents Folder.transactions id r w = refl
started-documents Folder.operations id r w = refl

all_written :
    (folder : Folder) (id : Text) (r : Record) (w : World)
    → IsReady w r
    → Committed w r (apply_writes (forward_writes folder id r) (started folder id r w))
all_written folder id r w h =
    forward-Committed w folder id r (started folder id r w) h.3 (started-documents folder id r w)
      (start-Interrupted folder id r w h.0).1

recover-RolledBack :
    (w : World) (folder : Folder) (id : Text) (r : Record) (u : World)
    → IsReady w r
    → Interrupted w.documents folder id r u
    → RolledBack w r (recover u)
recover-RolledBack w folder id r u h i =
    subst (RolledBack w r) (sym (recover-PendingIn folder id r u h.1 i.1))
      (rollback-RolledBack w folder id r u h.2 i)

recover-same : (P : World → Type 0) (u : World) → Settled u → P u → P (recover u)
recover-same P u s p = subst P (sym (recover-Settled u s)) p

-- If the process stops after any number of the writes of a prepared operation, the recovery of
-- the next start leaves every change made and the history advanced, or every document, at every
-- path, as it was and the history as it was; no record is left to recover. It holds where the
-- journal was settled, the record's changes name different documents and recorded their content,
-- and the record has the current history.
pub recover-run_writes :
    (folder : Folder) (id : Text) (r : Record) (w : World) (n : ℕ)
    → IsReady w r
    → Committed w r (
        recover
          (run_writes n (forward_writes folder id r) (apply_write (Write.journal folder id r) w)).0)
      ⊎ RolledBack w r (
          recover
            (run_writes n
              (forward_writes folder id r)
              (apply_write (Write.journal folder id r) w)).0)
recover-run_writes folder id r w n h =
    elim (run_writes-Keeps n (forward_writes folder id r) (started folder id r w)
      (forward-Keeps w.documents folder id r) (start-Interrupted folder id r w h.0)) [
        | inl e ↦ inl (
            rw e (
              recover-same (Committed w r) _ (all_written folder id r w h).3
                (all_written folder id r w h)))
        | inr (u, e, i) ↦ inr (rw e (recover-RolledBack w folder id r u h i))
      ]

-- The outcome of an operation, with the recovery of the next start
abbrev pub IsAtomic : World → Record → Executed → Type 0
IsAtomic w r (result, u) =
    ((result ≡ ok tt) × Committed w r u)
    ⊎ ((e : TransactionError) × (result ≡ raised e) × RolledBack w r (recover u))

handled :
    (folder : Folder) (id : Text) (r : Record) (w : World) (m : ℕ) (u : World)
    → IsReady w r
    → Interrupted w.documents folder id r u
    → IsAtomic w r (after_rollback (run_writes m (rollback_writes folder id r) u))
handled folder id r w m u h i =
    elim (run_writes-Keeps m (rollback_writes folder id r) u
      (rollback-Keeps w.documents folder id r) i) [
        | inl e ↦ rw e (
            let b = rollback-RolledBack w folder id r u h.2 i in
            inr (rolled_back_error, refl, recover-same (RolledBack w r) _ b.2 b))
        | inr (v, e, j) ↦ rw e (inr (recovery_error, refl, recover-RolledBack w folder id r v h j))
      ]

-- `_execute_prepared` of a record that is ready is atomic, however many of its writes succeed before
-- one fails, and however many of the handler's: it returns with every change made and the history
-- advanced, or raises, and then (at once or after the next recovery) every document and the history
-- are as before. The record is ready where the journal is settled, its phase is `prepared`, its
-- changes name different documents and recorded their current content, and it has the current
-- history.
pub execute_prepared-IsAtomic :
    (folder : Folder) (id : Text) (r : Record) (w : World) (started : Bool) (n m : ℕ)
    → IsReady w r
    → IsAtomic w r (execute_prepared started n m folder id r w)
unfolding execute_prepared
execute_prepared-IsAtomic folder id r w false n m h =
    inr (os_error, refl, recover-same (RolledBack w r) w h.0 ((λ q. refl), h.4, h.0))
execute_prepared-IsAtomic folder id r w true n m h =
    elim (run_writes-Keeps n (forward_writes folder id r) (started folder id r w)
      (forward-Keeps w.documents folder id r) (start-Interrupted folder id r w h.0)) [
        | inl e ↦ rw e (inl (refl, all_written folder id r w h))
        | inr (u, e, i) ↦ rw e (handled folder id r w m u h i)
      ]
