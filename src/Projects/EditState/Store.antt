-- ===== src/Projects/EditState/Store.antt =====
-- `RangeEditStateStore`: the state in `timeline/range-edits.json`, read, changed and written back.
use uv_studio.Base.{
  true, not, List, [], ◌∷◌, Text, codes, Outcome, ok, raised, ◌>>=◌, ◌>>◌, raise_if, or_raise,
}
use uv_studio.Json.{Json, num}
use uv_studio.Projects.Files.{Disk, JsonFile, resolve_project_file, is_regular, is_resolvable}
use uv_studio.Projects.EditState.Edit.{
  Edit, EditError, bad_reference, irregular_reference, unresolved_state, irregular_state,
  malformed_state,
}
use uv_studio.Projects.EditState.State.{
  EditState, make_state, add, remove, state_to_dict, state_from_dict,
}

-- `_EDIT_INPUT_ROOTS`
abbrev pub input_roots : List Text
input_roots = codes "sources" ∷ codes "assets" ∷ codes "artifacts" ∷ codes "exports" ∷ []

unfoldable pub check_reference : Disk → Text → Outcome EditError (Unit {0})
check_reference disk path = do
  found ← or_raise (resolve_project_file disk true input_roots (Json.str path)) bad_reference
  raise_if (not (is_regular found)) irregular_reference

-- `_validate_references`
unfoldable pub validate_references : Disk → List Edit → Outcome EditError (Unit {0})
unfolding check_reference
validate_references disk [] = ok tt
validate_references disk (e ∷ es) = do
  check_reference disk e.source_path
  check_reference disk e.replacement_path
  validate_references disk es

unfoldable pub load : JsonFile → Outcome EditError EditState
load JsonFile.unresolvable_file = raised unresolved_state
load JsonFile.no_file = make_state (num 1) []
load JsonFile.irregular_file = raised irregular_state
load JsonFile.malformed = raised malformed_state
load (JsonFile.document d) = state_from_dict d

abbrev pub Written : Type 0
Written = EditState × Json

-- `_write`: the state, and the document that is handed to `_atomic_write_json`, which encodes it
unfoldable pub write : JsonFile → EditState → Outcome EditError Written
unfolding state_to_dict is_resolvable
write file s = do
  raise_if (not (is_resolvable file)) unresolved_state
  ok (s, Json.obj (state_to_dict s))

unfoldable pub save : Disk → JsonFile → EditState → Outcome EditError Written
unfolding validate_references write
save disk file s = do validate_references disk s.edits; write file s

-- The new decision alone is checked against the disk, so a stale older one does not block it.
unfoldable pub accept : Disk → JsonFile → Edit → Outcome EditError Written
unfolding load validate_references write add
accept disk file edit = do
  current ← load file
  single ← make_state (num 1) (edit ∷ [])
  validate_references disk single.edits
  updated ← add current edit
  write file updated

unfoldable pub remove_accepted : JsonFile → Json → Outcome EditError Written
unfolding load write remove
remove_accepted file edit_id = do
  current ← load file
  updated ← remove current edit_id
  write file updated
