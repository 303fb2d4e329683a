-- ===== src/Examples/Journals.antt =====
-- Runs of the theorems on transactions: a project with two documents and one committed
-- transaction, where the second of the writes of the next operation fails.
use uv_studio.Base.{
  ℕ, ◌≡◌, ◌≤◌, ◌∙◌, false, In, length, is_empty, strip, is_space, contains, arith, ◌⊎◌, refl, true,
  List, [], ◌∷◌, codes, Text, ok, none, some, ◌==◌, if◌then◌else◌,
}
use uv_studio.Json.{Json, Fields, end}
use uv_studio.Projects.Transactions.Model.{
  Bytes, canonical_document_path, suffix, lower, last_dot, Documents, Entry, History, Change,
  Operation, Phase, Record, Folder, World, load_history,
}
use uv_studio.Projects.Transactions.Journal.{
  Write, apply_write, run_writes, forward_writes, execute_prepared, recover,
}
use uv_studio.Projects.Transactions.Commit.{Services, Attempt, commit, max_snapshot_bytes}
use uv_studio.Projects.Transactions.Succeeding.{IsAcceptable, commit_total}
use uv_studio.Projects.Paths.{validate_project_relative_path, parts, as_posix}
use mathlib.Core.Path.{subst}
use uv_studio.Projects.Transactions.Cursor.{Direction, move_cursor}
use uv_studio.Projects.Transactions.Recovery.{IsSettled, Settled}
use uv_studio.Projects.Transactions.Steps.{Committed, RolledBack}
use uv_studio.Projects.Transactions.Atomicity.{
  IsReady, IsAtomic, recover-run_writes, execute_prepared-IsAtomic,
}
use uv_studio.Projects.Transactions.Saving.{CommitOutcome, commit-CommitOutcome}
use uv_studio.Projects.Transactions.Cursors.{IsJournal}
use uv_studio.Projects.Transactions.Moving.{CursorOutcome, move_cursor-CursorOutcome}

abbrev timeline_path : Text
timeline_path = codes "timeline/main.json"

abbrev documents : Documents
documents = λ path. if path == timeline_path then some (2 ∷ []) else none

abbrev change : Change
change = record { path = timeline_path; before = none; after = some (2 ∷ []) }

abbrev entry : Entry
entry = record {
  transaction_id = codes "tx";
  command = codes "create";
  created_at = codes "now";
  changed_paths = timeline_path ∷ [];
}

abbrev no_entries : History
no_entries = record { entries = []; cursor = 0 }

abbrev one_entry : History
one_entry = record { entries = entry ∷ []; cursor = 1 }

-- The record of the transaction that created the timeline
abbrev created : Record
created = record {
  operation = Operation.commit;
  transaction_id = codes "tx";
  command = codes "create";
  created_at = codes "now";
  phase = Phase.committed;
  changes = change ∷ [];
  history_before = no_entries;
  history_after = one_entry;
}

abbrev pub world : World
world = record {
  documents = documents;
  history = some one_entry;
  transactions = (codes "tx", created) ∷ [];
  operations = [];
}

pub world-Settled : Settled world
world-Settled = ((IsSettled.committed, tt), tt)

world-IsJournal : IsJournal world
world-IsJournal = ((tt, tt), tt)

-- The record of undoing it
abbrev undoing : Record
undoing = record {
  operation = Operation.undo;
  transaction_id = codes "tx";
  command = codes "create";
  created_at = codes "later";
  phase = Phase.prepared;
  changes = record { path = timeline_path; before = some (2 ∷ []); after = none } ∷ [];
  history_before = one_entry;
  history_after = record { entries = entry ∷ []; cursor = 0 };
}

undoing-IsReady : IsReady world undoing
undoing-IsReady =
    (world-Settled, refl, ((unfold ◌==◌ in refl), tt), (tt, tt), (unfold load_history in refl))

-- The process stops after the first write.
recover-run_writes_example :
    Committed world undoing (
      recover
        (run_writes 1
          (forward_writes Folder.operations (codes "op") undoing)
          (apply_write (Write.journal Folder.operations (codes "op") undoing) world)).0)
    ⊎ RolledBack world undoing (
        recover
          (run_writes 1
            (forward_writes Folder.operations (codes "op") undoing)
            (apply_write (Write.journal Folder.operations (codes "op") undoing) world)).0)
recover-run_writes_example =
    recover-run_writes Folder.operations (codes "op") undoing world 1 undoing-IsReady

-- The second write fails, and so does the first of the handler.
execute_prepared-IsAtomic_example :
    IsAtomic world undoing (execute_prepared true 1 0 Folder.operations (codes "op") undoing world)
execute_prepared-IsAtomic_example =
    execute_prepared-IsAtomic Folder.operations (codes "op") undoing world true 1 0 undoing-IsReady

-- A digest that is the content, a serializer that knows one document, and checks that pass
abbrev services : Services
services = record {
  sha256 = λ bytes. bytes;
  dumps = λ d. some (3 ∷ []);
  validate = λ current staged. ok tt;
  authorized = λ current staged. ok tt;
}

abbrev pub attempt : Attempt
attempt = record {
  id = codes "tx2";
  now = codes "later";
  record_written = true;
  writes = 1;
  handler_writes = 9;
}

abbrev staged : List (Json × Fields)
staged = (Json.str timeline_path, end) ∷ []

commit-CommitOutcome_example :
    CommitOutcome services attempt
      (codes "timeline.add_clip")
      staged
      world
      (commit services attempt (codes "timeline.add_clip") staged world)
commit-CommitOutcome_example =
    commit-CommitOutcome services attempt (codes "timeline.add_clip") staged world world-Settled

-- The document takes the place of another.
staged-canonical : canonical_document_path (Json.str timeline_path) ≡ ok timeline_path
unfolding canonical_document_path validate_project_relative_path strip is_space parts as_posix ◌==◌
    contains suffix lower last_dot
staged-canonical = refl

was : (old : Bytes) → documents timeline_path ≡ some old → (2 ∷ []) ≡ old
unfolding ◌==◌
was old h = cc

staged-IsAcceptable : IsAcceptable services staged world
staged-IsAcceptable = record {
  encoded = (timeline_path, 3 ∷ []) ∷ [];
  encodes = (staged-canonical, refl, tt);
  differ = (tt, tt);
  elsewhere = ((λ h. cc), tt);
  small = ((omega arith), tt);
  was_small = (
    (λ old h. subst (λ (b : Bytes). length b ≤ max_snapshot_bytes) (was old h) (omega arith)),
    tt,
  );
  valid = refl;
  new = (timeline_path, 3 ∷ []);
  given = In.here;
  changes = λ old h same. let k : (2 ∷ []) ≡ (3 ∷ []) = was old h ∙ same in cc;
}

not_blank : is_empty (strip (codes "timeline.add_clip")) ≡ false
unfolding strip is_space
not_blank = refl

short : length (strip (codes "timeline.add_clip")) ≤ 200
unfolding strip is_space
short = omega arith

commit_total_example :
    (enough : ℕ) × ((a : Attempt)
      → a.record_written ≡ true
      → enough ≤ a.writes
      → (commit services a (codes "timeline.add_clip") staged world).0 ≡ ok tt)
commit_total_example =
    commit_total services (codes "timeline.add_clip") staged world world-Settled not_blank short
      staged-IsAcceptable

-- Every write of the undo succeeds.
abbrev whole : Attempt
whole = record attempt { writes = 9 }

move_cursor-CursorOutcome_example :
    CursorOutcome Direction.back world (move_cursor services Direction.back whole world)
move_cursor-CursorOutcome_example =
    move_cursor-CursorOutcome services Direction.back whole world world-Settled world-IsJournal
