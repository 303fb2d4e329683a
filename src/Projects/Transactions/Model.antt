-- ===== src/Projects/Transactions/Model.antt =====
-- The durable state of one project, and the values that the transaction code passes around. A
-- snapshot is modelled by the content that it encodes; its size, digest and base64 text are not.
use uv_studio.Base.{
  ℕ, ◌+◌, Bool, false, not, ◌&&◌, List, [], ◌∷◌, Option, none, some, Text, codes, ◌==◌, ltb, leb,
  nat_eq, length, contains, map, get_last?, Outcome, ok, raised, ◌>>=◌, ◌>>◌, raise_if, or_raise,
  if◌then◌else◌,
}
use uv_studio.Base.Dict.{Dict}
use uv_studio.Json.{Json}
use uv_studio.Projects.Errors.{ValidationError}
use uv_studio.Projects.Paths.{validate_project_relative_path, parts}

abbrev pub Bytes : Type 0
Bytes = List ℕ

-- The canonical documents, by path; `none` is a file that does not exist.
abbrev pub Documents : Type 0
Documents = Text → Option Bytes

-- `ProjectTransactionError` and its subclasses, a constructor for each message; `os_error` is a
-- write that failed outside the handler.
pub data TransactionError : Type 0 where
  invalid : ValidationError → TransactionError
  path_not_text not_canonical_root not_json : TransactionError
  bad_command no_documents duplicate_path wrong_schema not_portable too_large : TransactionError
  rejected : TransactionError
  no_changes nothing_to_undo nothing_to_redo not_committed missing_record : TransactionError
  conflict : Text → TransactionError
  project_removed os_error rolled_back_error recovery_error : TransactionError

-- `ProjectTransactionEntry`
pub record Entry : Type 0 where
  pub transaction_id : Text
  pub command : Text
  pub created_at : Text
  pub changed_paths : List Text

-- `ProjectHistoryState`
pub record History : Type 0 where
  pub entries : List Entry
  pub cursor : ℕ

unfoldable pub can_undo : History → Bool
can_undo h = ltb 0 h.cursor

unfoldable pub can_redo : History → Bool
can_redo h = ltb h.cursor (length h.entries)

-- One changed document: its content before and after
pub record Change : Type 0 where
  pub path : Text
  pub before : Option Bytes
  pub after : Option Bytes

pub data Operation : Type 0 where
  commit undo redo : Operation

pub data Phase : Type 0 where
  prepared committed rolled_back : Phase

-- A journal record
pub record Record : Type 0 where
  pub operation : Operation
  pub transaction_id : Text
  pub command : Text
  pub created_at : Text
  pub phase : Phase
  pub changes : List Change
  pub history_before : History
  pub history_after : History

-- The directories `history/transactions` and `history/operations`
pub data Folder : Type 0 where
  transactions operations : Folder

-- What is on disk: the documents, the history index if there is one, and the journal records.
pub record World : Type 0 where
  pub documents : Documents
  pub history : Option History
  pub transactions : Dict Record
  pub operations : Dict Record

abbrev pub empty_history : History
empty_history = record { entries = []; cursor = 0 }

-- `_load_history`
unfoldable pub load_history : World → History
load_history w = elim w.history [ none ↦ empty_history | some h ↦ h ]

-- ASCII `str.lower`, which is all that a comparison with `.json` sees
unfoldable pub lower : ℕ → ℕ
lower c = if leb b'A' c && leb c b'Z' then c + 32 else c

-- `PurePosixPath(name).suffix` of a single component: the text from its last dot, unless that
-- stands first or last.
unfoldable pub last_dot : Text → Option Text
last_dot [] = none
last_dot (c ∷ s) = elim (last_dot s) [
  | some found ↦ some found
  | none ↦ if nat_eq c b'.' then some (c ∷ s) else none
]

unfoldable pub suffix : Text → Text
unfolding last_dot
suffix [] = []
suffix (_ ∷ s) = elim (last_dot s) [
  | none ↦ []
  | some found ↦ if nat_eq (length found) 1 then [] else found
]

abbrev pub last_part : List Text → Text
last_part ps = elim (get_last? ps) [ none ↦ [] | some p ↦ p ]

-- `_CANONICAL_JSON_ROOTS`
abbrev pub canonical_roots : List Text
canonical_roots = codes "production" ∷ codes "timeline" ∷ codes "tasks" ∷ codes "reviews" ∷ []

abbrev pub in_canonical_roots : List Text → Bool
in_canonical_roots [] = false
in_canonical_roots (p ∷ _) = contains p canonical_roots

-- `PROJECT_FILENAME`
abbrev pub project_filename : Text
project_filename = codes "project.json"

-- The checks on a canonical relative path
unfoldable pub check_document_path : Text → Outcome TransactionError Text
unfolding suffix lower
check_document_path canonical =
    let others = do
      raise_if (not (in_canonical_roots (parts canonical))) not_canonical_root
      raise_if (not (map lower (suffix (last_part (parts canonical))) == codes ".json")) not_json
      ok canonical
    in if canonical == project_filename then ok canonical else others

-- `_canonical_document_path`
unfoldable pub canonical_document_path : Json → Outcome TransactionError Text
unfolding check_document_path
canonical_document_path (Json.str s) = do
  canonical ← or_raise (validate_project_relative_path (Json.str s)) invalid
  check_document_path canonical
canonical_document_path _ = raised path_not_text
