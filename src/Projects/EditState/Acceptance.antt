-- ===== src/Projects/EditState/Acceptance.antt =====
-- Accepting a decision through the store.
use uv_studio.Base.{
  ◌≡◌, refl, ◌∙◌, true, [], ◌∷◌, ◌++◌, ok, arith, ◌>>=◌, All, All-append, sym, >>=-eq-ok,
  all_distinct, contains,
}
use mathlib.Core.Path.{subst}
use uv_studio.Base.Sort.{sort, All-sort}
use uv_studio.Base.Dict.{lookup}
use uv_studio.Json.{Json, num}
use uv_studio.Projects.Files.{Disk, JsonFile, is_resolvable, resolve_project_file}
use uv_studio.Projects.EditState.Edit.{Edit, edit_before}
use uv_studio.Projects.EditState.State.{
  EditState, make_state, is_schema_one, check_non_overlapping, add, state_to_dict,
}
use uv_studio.Projects.EditState.Store.{
  Written, input_roots, validate_references, load, write, accept,
}
use uv_studio.Projects.EditState.Disjoint.{IsInterval, IsState, make_state_inv}
use uv_studio.Projects.EditState.Document.{IsReadable, state_from_dict-to_dict}
use uv_studio.Projects.EditState.Changes.{add-IsState}

single_state : (e : Edit) → make_state (num 1) (e ∷ []) ≡ ok (record { edits = e ∷ [] })
unfolding make_state is_schema_one all_distinct contains sort check_non_overlapping lookup
single_state e = refl

accept_step :
    (disk : Disk) (file : JsonFile) (e : Edit)
    → accept disk file e ≡ (
        load file >>= λ current.
        validate_references disk (e ∷ []) >>= λ _. add current e >>= λ updated. write file updated)
unfolding accept
accept_step disk file e = simp (single_state e)

load-document :
    (s : EditState)
    → IsState s
    → All IsReadable s.edits
    → load (JsonFile.document (Json.obj (state_to_dict s))) ≡ ok s
unfolding load
load-document = state_from_dict-to_dict

written :
    (d : Json) (s : EditState) (e : Edit) (w : Written)
    → (add s e >>= λ updated. write (JsonFile.document d) updated) ≡ ok w
    → (add s e ≡ ok w.0) × (w.1 ≡ Json.obj (state_to_dict w.0))
unfolding write is_resolvable
written d s e w h = ground arith

-- After `accept` of a readable edit onto a file that holds a valid state of readable edits, a file
-- that holds the document which `accept` hands on to be written is loaded as the state it returned.
pub load-accept :
    (disk : Disk) (s : EditState) (e : Edit) (w : Written)
    → IsState s
    → All IsReadable s.edits
    → IsInterval e
    → IsReadable e
    → accept disk (JsonFile.document (Json.obj (state_to_dict s))) e ≡ ok w
    → load (JsonFile.document w.1) ≡ ok w.0
load-accept disk s e w v r i q h =
    let d = Json.obj (state_to_dict s) in
    let k = rw (accept_step, load-document s v r) at h in
    let (_, _, k1) =
      >>=-eq-ok (validate_references disk (e ∷ []))
        (λ _. add s e >>= λ updated. write (JsonFile.document d) updated) k in
    let (added, saved) = written d s e w k1 in
    let (_, _, _, same) = make_state_inv (num 1) (s.edits ++ e ∷ []) w.0 (unfold add in added) in
    rw saved (
      load-document w.0 (add-IsState s w.0 e v i added) (
        subst (λ (t : EditState). All IsReadable t.edits) (sym same)
          ((All-sort edit_before IsReadable (s.edits ++ e ∷ [])).0
            (All-append IsReadable s.edits (e ∷ []) r (q, tt)))))

-- A stale older decision blocks nothing: two disks that agree on the two files of the new edit
-- give `accept` the same result, whatever they say of the files of the accepted edits.
pub accept_ignores_stale :
    (disk disk' : Disk) (file : JsonFile) (e : Edit)
    → resolve_project_file disk true input_roots (Json.str e.source_path)
      ≡ resolve_project_file disk' true input_roots (Json.str e.source_path)
    → resolve_project_file disk true input_roots (Json.str e.replacement_path)
      ≡ resolve_project_file disk' true input_roots (Json.str e.replacement_path)
    → accept disk file e ≡ accept disk' file e
accept_ignores_stale disk disk' file e source replacement =
    accept_step disk file e ∙ (simp same) ∙ sym (accept_step disk' file e)
  where
    same : validate_references disk (e ∷ []) ≡ validate_references disk' (e ∷ [])
    same = unfold validate_references in rw (source, replacement) refl
