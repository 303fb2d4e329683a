-- ===== src/Projects/EditState/Document.antt =====
-- The document of an edit state, written and read back.
use uv_studio.Base.{
  ◌≡◌, refl, ◌∙◌, true, false, List, [], ◌∷◌, map, ok, arith, ◌==◌, contains, All, traverse, ◌>>=◌,
}
use uv_studio.Json.{
  Json, get, get_or, only_keys, has_keys, equals_one, of_list, to_list, to_list-of_list, num,
}
use uv_studio.Projects.Identifiers.{matches_id, validate_identifier-eq_self}
use uv_studio.Projects.Paths.{validate_project_relative_path}
use uv_studio.Projects.MediaRanges.{make_range, require_int_microseconds}
use uv_studio.Projects.EditState.Edit.{Edit, edit_to_dict, edit_from_dict, make_edit}
use uv_studio.Projects.EditState.State.{
  EditState, make_state, state_to_dict, state_from_dict, is_schema_one,
}
use uv_studio.Projects.EditState.Disjoint.{IsInterval, IsState, make_state_iff}
use uv_studio.Projects.EditState.Changes.{sort_edits}

-- The texts of an edit are accepted as they stand, and its two paths differ.
pub record IsReadable (e : Edit) : Type 0 where
  pub id : matches_id e.edit_id ≡ true
  pub source : validate_project_relative_path (Json.str e.source_path) ≡ ok e.source_path
  pub replacement :
      validate_project_relative_path (Json.str e.replacement_path) ≡ ok e.replacement_path
  pub different : e.replacement_path == e.source_path ≡ false

edit_from_dict-to_dict :
    (e : Edit) → IsInterval e → IsReadable e → edit_from_dict (Json.obj (edit_to_dict e)) ≡ ok e
unfolding edit_from_dict edit_to_dict make_edit make_range require_int_microseconds get get_or
    only_keys has_keys equals_one ◌==◌ contains
edit_from_dict-to_dict e i r =
    ground (arith, validate_identifier-eq_self e.edit_id r.id, r.source, r.replacement, r.different)

abbrev edit_documents : List Edit → List Json
edit_documents = map (λ e. Json.obj (edit_to_dict e))

traverse-edit_documents :
    (es : List Edit)
    → All IsInterval es
    → All IsReadable es
    → traverse edit_from_dict (edit_documents es) ≡ ok es
unfolding traverse
traverse-edit_documents [] i r = refl
traverse-edit_documents (e ∷ es) i r =
    rw (edit_from_dict-to_dict e i.0 r.0, traverse-edit_documents es i.1 r.1) refl

state_from_dict-step :
    (s : EditState)
    → state_from_dict (Json.obj (state_to_dict s)) ≡ (
        traverse edit_from_dict (to_list (of_list (edit_documents s.edits))) >>= λ es.
        make_state (num 1) es)
unfolding state_from_dict state_to_dict get get_or only_keys has_keys ◌==◌ contains
state_from_dict-step s = refl

-- Reading the document of a valid state gives the same state back.
pub state_from_dict-to_dict :
    (s : EditState)
    → IsState s
    → All IsReadable s.edits
    → state_from_dict (Json.obj (state_to_dict s)) ≡ ok s
state_from_dict-to_dict s v r =
    state_from_dict-step s
    ∙ rw (to_list-of_list (edit_documents s.edits), traverse-edit_documents s.edits v.intervals r)
        (rw (sort_edits s.edits v.ascending) at (
          (make_state_iff (num 1) s.edits v.intervals).1
            (unfold is_schema_one in refl, v.ids, v.disjoint)))
