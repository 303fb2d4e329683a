-- ===== src/Projects/Transactions/Cursor.antt =====
-- `ProjectUnitOfWork.undo` and `redo`: `_move_cursor`.
use uv_studio.Base.{
  ℕ, ◌+◌, ◌-◌, Bool, true, false, not, List, [], ◌∷◌, map, Option, none, some, Text, ◌==◌,
  get_elem?, Outcome, ok, raised, ◌>>=◌, ◌>>◌, raise_if, if◌then◌else◌,
}
use uv_studio.Base.Dict.{lookup}
use uv_studio.Projects.Transactions.Model.{
  Bytes, Documents, TransactionError, no_changes, nothing_to_undo, nothing_to_redo, not_committed,
  missing_record, conflict, project_removed, Entry, History, Change, Operation, Phase, Record,
  Folder, World, load_history, can_undo, can_redo, project_filename,
}
use uv_studio.Projects.Transactions.Journal.{Executed, execute_prepared, recover}
use uv_studio.Projects.Transactions.Commit.{Services, read_snapshot, Attempt, is_empty_list}

-- Undo or redo
pub data Direction : Type 0 where
  back forth : Direction

abbrev pub operation_of : Direction → Operation
operation_of Direction.back = Operation.undo
operation_of Direction.forth = Operation.redo

-- The content that the document must have now, and the one that it gets
abbrev pub expected : Direction → Change → Option Bytes
expected Direction.back c = c.after
expected Direction.forth c = c.before

abbrev pub replacement : Direction → Change → Option Bytes
replacement Direction.back c = c.before
replacement Direction.forth c = c.after

abbrev pub some_entry : TransactionError → ℕ → Option Entry → Outcome TransactionError (Entry × ℕ)
some_entry e cursor none = raised e
some_entry e cursor (some entry) = ok (entry, cursor)

-- The entry to undo or redo, and the cursor afterwards
unfoldable pub target_entry : Direction → History → Outcome TransactionError (Entry × ℕ)
unfolding can_undo can_redo
target_entry Direction.back h =
    raise_if (not (can_undo h)) nothing_to_undo
    >> some_entry nothing_to_undo (h.cursor - 1) (get_elem? h.entries (h.cursor - 1))
target_entry Direction.forth h =
    raise_if (not (can_redo h)) nothing_to_redo
    >> some_entry nothing_to_redo (h.cursor + 1) (get_elem? h.entries h.cursor)

-- Equality of snapshots' contents
unfoldable pub same_content : Option Bytes → Option Bytes → Bool
same_content none none = true
same_content (some a) (some b) = a == b
same_content _ _ = false

-- The loop over the recorded changes: each document must have the expected content.
unfoldable pub operation_changes :
    Direction → Documents → List Change → Outcome TransactionError (List Change)
unfolding same_content
operation_changes direction documents [] = ok []
operation_changes direction documents (c ∷ cs) = do
  current ← read_snapshot (documents c.path)
  raise_if (not (same_content current (expected direction c))) (conflict c.path)
  rest ← operation_changes direction documents cs
  ok (record { path = c.path; before = current; after = replacement direction c } ∷ rest)

-- project.json may not be removed
unfoldable pub removes_project : List Change → Bool
removes_project [] = false
removes_project (c ∷ cs) = elim c.after [
  | none ↦ if c.path == project_filename then true else removes_project cs
  | some _ ↦ removes_project cs
]

abbrev pub is_committed : Phase → Bool
is_committed Phase.committed = true
is_committed _ = false

abbrev pub required_record : Option Record → Outcome TransactionError Record
required_record none = raised missing_record
required_record (some r) = ok r

-- The journal record of an undo or redo
unfoldable pub cursor_record : Direction → Attempt → Entry → ℕ → List Change → History → Record
cursor_record direction a entry cursor changes h = record {
  operation = operation_of direction;
  transaction_id = entry.transaction_id;
  command = entry.command;
  created_at = a.now;
  phase = Phase.prepared;
  changes = changes;
  history_before = h;
  history_after = record h { cursor = cursor };
}

abbrev pub execute_staged : Attempt → World → Outcome TransactionError Record → Executed
execute_staged a w (raised e) = (raised e, w)
execute_staged a w (ok r) =
    execute_prepared a.record_written a.writes a.handler_writes Folder.operations a.id r w

module _ (s : Services) where
  abbrev pub authorize :
      Direction → Documents → List (Text × Option Bytes) → Outcome TransactionError (Unit {0})
  authorize Direction.back documents staged = ok tt
  authorize Direction.forth documents staged = s.authorized documents staged

  -- The record to execute, or why there is none; nothing is written up to here.
  unfoldable pub staged_record : Direction → Attempt → World → Outcome TransactionError Record
  unfolding target_entry operation_changes cursor_record removes_project
  staged_record direction a w = do
    target ← target_entry direction (load_history w)
    r ← required_record (lookup (target.0).transaction_id w.transactions)
    raise_if (not (is_committed r.phase)) not_committed
    raise_if (is_empty_list r.changes) no_changes
    changes ← operation_changes direction w.documents r.changes
    raise_if (removes_project changes) project_removed
    s.validate w.documents (map (λ c. (c.path, c.after)) changes)
    authorize direction w.documents (map (λ c. (c.path, c.after)) changes)
    ok (cursor_record direction a target.0 target.1 changes (load_history w))

  unfoldable pub move_cursor : Direction → Attempt → World → Executed
  unfolding staged_record
  move_cursor direction a w =
      let w' = recover w in execute_staged a w' (staged_record direction a w')
