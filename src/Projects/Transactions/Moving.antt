-- ===== src/Projects/Transactions/Moving.antt =====
-- What an undo or a redo makes of the documents and of the history, entry by entry.
use uv_studio.Base.{
  get_elem?, suc, ltb, ℕ, ◌≡◌, sym, ap, ◌⊎◌, inl, inr, not, Option, none, some, Text, All, ok,
  raised, raise_if, raise_unless_inv, >>=-eq-ok, ok_inj, arith,
}
use mathlib.Core.Path.{subst}
use uv_studio.Base.Dict.{lookup}
use uv_studio.Projects.Transactions.Model.{
  TransactionError, Entry, History, nothing_to_undo, nothing_to_redo, can_undo, can_redo, Phase,
  Record, World, load_history,
}
use uv_studio.Projects.Transactions.Journal.{Executed, recover}
use uv_studio.Projects.Transactions.Commit.{Services, Attempt}
use uv_studio.Projects.Transactions.Cursor.{Direction, some_entry, target_entry, move_cursor}
use uv_studio.Projects.Transactions.Restore.{IsOff}
use uv_studio.Projects.Transactions.Recovery.{Settled}
use uv_studio.Projects.Transactions.Commits.{Unchanged}
use uv_studio.Projects.Transactions.Cursors.{TurnedOutcome, IsJournal, move_cursor-TurnedOutcome}

-- The entry before the cursor is taken back: its committed record says what each document held
-- after it, and that is what they hold; they get what it says they held before it.
abbrev pub Undone : World → World → Type 0
Undone w u =
    (entry : Entry) × (n : ℕ) × (r : Record) × ((load_history w).cursor ≡ suc n)
    × (get_elem? (load_history w).entries n ≡ some entry)
    × (lookup entry.transaction_id w.transactions ≡ some r)
    × (r.phase ≡ Phase.committed)
    × All (λ c. w.documents c.path ≡ c.after) r.changes
    × All (λ c. u.documents c.path ≡ c.before) r.changes
    × ((q : Text) → IsOff r.changes q → u.documents q ≡ w.documents q)
    × (load_history u ≡ record { entries = (load_history w).entries; cursor = n })
    × Settled u

-- The entry at the cursor is made again.
abbrev pub Redone : World → World → Type 0
Redone w u =
    (entry : Entry) × (r : Record) × (get_elem? (load_history w).entries (load_history w).cursor
      ≡ some entry)
    × (lookup entry.transaction_id w.transactions ≡ some r)
    × (r.phase ≡ Phase.committed)
    × All (λ c. w.documents c.path ≡ c.before) r.changes
    × All (λ c. u.documents c.path ≡ c.after) r.changes
    × ((q : Text) → IsOff r.changes q → u.documents q ≡ w.documents q)
    × (load_history u
        ≡ record { entries = (load_history w).entries; cursor = suc (load_history w).cursor })
    × Settled u

abbrev pub Moved : Direction → World → World → Type 0
Moved Direction.back w u = Undone w u
Moved Direction.forth w u = Redone w u

abbrev pub CursorOutcome : Direction → World → Executed → Type 0
CursorOutcome d w (result, u) =
    ((result ≡ ok tt) × Moved d w u)
    ⊎ ((e : TransactionError) × (result ≡ raised e) × Unchanged w (recover u))

some_entry-inv :
    (e : TransactionError) (n : ℕ) (o : Option Entry) (entry : Entry) (cursor : ℕ)
    → some_entry e n o ≡ ok (entry, cursor)
    → (o ≡ some entry) × (cursor ≡ n)
some_entry-inv e n none entry cursor h = cc
some_entry-inv e n (some x) entry cursor h =
    let same = ok_inj {E = TransactionError} h in
    (ap (λ (p : Entry × ℕ). some p.0) same, sym (ap (λ (p : Entry × ℕ). p.1) same))

target-back :
    (h : History) (entry : Entry) (cursor : ℕ)
    → target_entry Direction.back h ≡ ok (entry, cursor)
    → (h.cursor ≡ suc cursor) × (get_elem? h.entries cursor ≡ some entry)
unfolding target_entry can_undo
target-back h entry cursor e =
    let (_, k, rest) = >>=-eq-ok (raise_if (not (can_undo h)) nothing_to_undo) _ e in
    let (found, same) = some_entry-inv nothing_to_undo _ _ entry cursor rest in
    let positive = raise_unless_inv (ltb 0 h.cursor) nothing_to_undo k in
    ((ground arith), subst (λ n. get_elem? h.entries n ≡ some entry) (sym same) found)

target-forth :
    (h : History) (entry : Entry) (cursor : ℕ)
    → target_entry Direction.forth h ≡ ok (entry, cursor)
    → (cursor ≡ suc h.cursor) × (get_elem? h.entries h.cursor ≡ some entry)
unfolding target_entry can_redo
target-forth h entry cursor e =
    let (_, k, rest) = >>=-eq-ok (raise_if (not (can_redo h)) nothing_to_redo) _ e in
    let (found, same) = some_entry-inv nothing_to_redo _ _ entry cursor rest in
    ((omega arith), found)

moved : (d : Direction) (w : World) (x : Executed) → TurnedOutcome d w x → CursorOutcome d w x
moved d w x (inr failed) = inr failed
moved Direction.back w x
      (inl (done, (entry, cursor, r, (e, there, phase, held), made, off, history, settled))) =
    let (before, found) = target-back (load_history w) entry cursor e in
    inl (done, (entry, cursor, r, before, found, there, phase, held, made, off, history, settled))
moved Direction.forth w x
      (inl (done, (entry, cursor, r, (e, there, phase, held), made, off, history, settled))) =
    let (after, found) = target-forth (load_history w) entry cursor e in
    inl (done, (entry, r, found, there, phase, held, made, off, rw (sym after) history, settled))

-- An undo or a redo on a settled journal is all or nothing, whatever writes fail. It returns only
-- where there is an entry before the cursor (for an undo) or at it (for a redo), the record of that
-- entry is committed, and each document that it names still holds what the record says it held
-- after the transaction (before it, for a redo). Then each holds what it held before (after), no
-- other document has changed, and the history is the same list with the cursor one lower (higher).
-- Or it raises, and after the recovery of the next start every document and the history are what
-- they were. It holds where the changes of each journal record name different documents.
pub move_cursor-CursorOutcome :
    (s : Services) (d : Direction) (a : Attempt) (w : World)
    → Settled w
    → IsJournal w
    → CursorOutcome d w (move_cursor s d a w)
move_cursor-CursorOutcome s d a w h j = moved d w _ (move_cursor-TurnedOutcome s d a w h j)
