-- ===== src/Projects/Transactions/Commit.antt =====
-- `ProjectUnitOfWork.commit`.
use uv_studio.Base.{
  ℕ, ◌+◌, ◌*◌, Bool, true, false, not, ◌&&◌, ◌||◌, List, [], ◌∷◌, ◌++◌, map, Option, none, some,
  Text, codes, ◌==◌, text_lt, ltb, nat_eq, length, is_empty, strip, take, contains, Outcome, ok,
  raised, ◌>>=◌, ◌>>◌, raise_if, if◌then◌else◌,
}
use uv_studio.Base.Sort.{sort}
use uv_studio.Base.Dict.{Dict}
use uv_studio.Json.{Json, Fields, pos, get}
use uv_studio.Projects.Transactions.Model.{
  Bytes, Documents, TransactionError, bad_command, no_documents, duplicate_path, wrong_schema,
  not_portable, too_large, no_changes, Entry, History, Change, Operation, Phase, Record, Folder,
  World, load_history, canonical_document_path, project_filename,
}
use uv_studio.Projects.Transactions.Journal.{Executed, execute_prepared, recover}

-- What the transactions use and do not define: the digest of hashlib, the serializer of the json
-- module (none for a value that is not portable JSON), and the validation of the staged documents
-- against the current ones; `authorized` is the extra check that redo makes of generated media.
pub record Services : Type 0 where
  pub sha256 : Bytes → Text
  pub dumps : Fields → Option Bytes
  pub validate : Documents → List (Text × Option Bytes) → Outcome TransactionError (Unit {0})
  pub authorized : Documents → List (Text × Option Bytes) → Outcome TransactionError (Unit {0})

-- `_MAX_SNAPSHOT_BYTES`
abbrev pub max_snapshot_bytes : ℕ
max_snapshot_bytes = 32 * 1024 * 1024

-- `data.get("schema_version") == 2`: an int or the float 2.0
unfoldable pub is_schema_two : Option Json → Bool
is_schema_two (some (Json.int (pos n))) = nat_eq n 2
is_schema_two (some (Json.float bits)) = nat_eq bits 0x4000000000000000
is_schema_two _ = false

abbrev pub bounded_bytes : Option Bytes → Outcome TransactionError Bytes
bounded_bytes none = raised not_portable
bounded_bytes (some bytes) = raise_if (ltb max_snapshot_bytes (length bytes)) too_large >> ok bytes

-- `_read_document_snapshot` of a regular file or of none
abbrev pub read_snapshot : Option Bytes → Outcome TransactionError (Option Bytes)
read_snapshot none = ok none
read_snapshot (some bytes) =
    raise_if (ltb max_snapshot_bytes (length bytes)) too_large >> ok (some bytes)

-- Where and when a commit happens: the new id (uuid4) and the time, how the staged writes fare.
pub record Attempt : Type 0 where
  pub id : Text
  pub now : Text
  pub record_written : Bool
  pub writes : ℕ
  pub handler_writes : ℕ

abbrev pub path_before : Text × Bytes → Text × Bytes → Bool
path_before a b = text_lt a.0 b.0

-- `entries[:cursor]`, and the new entry
unfoldable pub committed_history : History → Entry → History
committed_history h e = record {
  entries = take h.cursor h.entries ++ e ∷ [];
  cursor = length (take h.cursor h.entries) + 1;
}

-- The journal record of a commit
unfoldable pub commit_record : Attempt → Text → List Change → History → Record
unfolding committed_history
commit_record a command changes h = record {
  operation = Operation.commit;
  transaction_id = a.id;
  command = strip command;
  created_at = a.now;
  phase = Phase.prepared;
  changes = changes;
  history_before = h;
  history_after = committed_history h (record {
    transaction_id = a.id;
    command = strip command;
    created_at = a.now;
    changed_paths = map (λ c. c.path) changes;
  });
}

abbrev pub is_empty_list {ℓ} : {A : Type ℓ} → List A → Bool
is_empty_list [] = true
is_empty_list (_ ∷ _) = false

module _ (s : Services) where
  -- `_strict_json_bytes`
  unfoldable pub strict_json_bytes : Text → Fields → Outcome TransactionError Bytes
  unfolding is_schema_two
  strict_json_bytes path data_ = do
    raise_if (path == project_filename && not (is_schema_two (get (codes "schema_version") data_)))
        wrong_schema
    bounded_bytes (s.dumps data_)

  -- The loop that fills `encoded`
  unfoldable pub encode_documents :
      Dict Bytes → List (Json × Fields) → Outcome TransactionError (Dict Bytes)
  unfolding strict_json_bytes
  encode_documents encoded [] = ok encoded
  encode_documents encoded ((raw_path, data_) ∷ rest) = do
    path ← canonical_document_path raw_path
    raise_if (contains path (map (λ e. e.0) encoded)) duplicate_path
    bytes ← strict_json_bytes path data_
    encode_documents (encoded ++ (path, bytes) ∷ []) rest

  -- `before["sha256"] == after["sha256"] and before["exists"] == after["exists"]`; what was
  -- encoded exists.
  unfoldable pub same_snapshot : Option Bytes → Bytes → Bool
  same_snapshot none after = false
  same_snapshot (some before) after = s.sha256 before == s.sha256 after

  abbrev pub add_change : Text → Option Bytes → Bytes → List Change → List Change
  add_change path before bytes others =
      if same_snapshot before bytes
      then others
      else record { path = path; before = before; after = some bytes } ∷ others

  -- The loop that collects the changes, over the sorted documents
  unfoldable pub collect_changes :
      Documents → List (Text × Bytes) → Outcome TransactionError (List Change)
  unfolding same_snapshot
  collect_changes documents [] = ok []
  collect_changes documents ((path, bytes) ∷ rest) = do
    before ← read_snapshot (documents path)
    others ← collect_changes documents rest
    ok (add_change path before bytes others)

  -- What a commit would change, or why it is refused; nothing is written up to here.
  unfoldable pub staged_changes :
      World → List (Json × Fields) → Outcome TransactionError (List Change)
  unfolding encode_documents collect_changes
  staged_changes w documents = do
    encoded ← encode_documents [] documents
    s.validate w.documents (map (λ e. (e.0, some e.1)) encoded)
    changes ← collect_changes w.documents (sort path_before encoded)
    raise_if (is_empty_list changes) no_changes
    ok changes

  abbrev pub commit_changes :
      Attempt → Text → World → Outcome TransactionError (List Change) → Executed
  commit_changes a command w (raised e) = (raised e, w)
  commit_changes a command w (ok changes) =
      execute_prepared a.record_written a.writes a.handler_writes Folder.transactions a.id
        (commit_record a command changes (load_history w)) w

  -- `commit`. The project's own file is read by `validate`.
  unfoldable pub commit : Attempt → Text → List (Json × Fields) → World → Executed
  unfolding staged_changes commit_record
  commit a command documents w =
      let stage = let w' = recover w in commit_changes a command w' (staged_changes w' documents) in
      if is_empty (strip command) || ltb 200 (length (strip command))
      then (raised bad_command, w)
      else if is_empty_list documents
      then (raised no_documents, w)
      else stage
