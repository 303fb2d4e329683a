-- ===== src/Projects/EditState/State.antt =====
-- `RangeEditState`: edits with unique ids, sorted, and disjoint on each source.
use uv_studio.Base.{
  Bool, false, not, List, [], ◌∷◌, ◌++◌, map, Option, none, some, Text, codes, ◌==◌, ltb, nat_eq,
  length, keep_if, all_distinct, Outcome, ok, raised, ◌>>=◌, ◌>>◌, raise_if, or_raise, traverse,
}
use uv_studio.Base.Sort.{sort}
use uv_studio.Base.Dict.{Dict, lookup, insert}
use uv_studio.Json.{
  Json, pos, Items, Fields, num, end, field, get_or, only_keys, has_keys, of_list, to_list,
}
use uv_studio.Projects.Identifiers.{validate_identifier}
use uv_studio.Projects.Paths.{validate_project_relative_path}
use uv_studio.Projects.EditState.Edit.{
  Edit, EditError, invalid, edit_schema, duplicate_ids, overlapping, not_found, state_not_object,
  unknown_state_fields, missing_schema, edits_not_list, edit_before, edit_to_dict, edit_from_dict,
}

-- The class has one more field, `schema_version`, which is always 1.
pub record EditState : Type 0 where
  pub edits : List Edit

-- `previous is not None and edit.start_us < previous.end_us`
unfoldable pub overlaps_previous : Option Edit → Edit → Bool
overlaps_previous none edit = false
overlaps_previous (some previous) edit = ltb edit.start_us previous.end_us

-- The loop of `_validate_non_overlapping`, on `previous_by_source` and the edits that are left.
unfoldable pub check_non_overlapping : Dict Edit → List Edit → Outcome EditError (Unit {0})
unfolding overlaps_previous
check_non_overlapping previous [] = ok tt
check_non_overlapping previous (edit ∷ edits) = do
  raise_if (overlaps_previous (lookup edit.source_path previous) edit) overlapping
  check_non_overlapping (insert edit.source_path edit previous) edits

-- `isinstance(value, int) and not isinstance(value, bool) and value == 1`
unfoldable pub is_schema_one : Json → Bool
is_schema_one (Json.int (pos n)) = nat_eq n 1
is_schema_one _ = false

abbrev pub edit_ids : List Edit → List Text
edit_ids = map (λ e. e.edit_id)

-- `RangeEditState.__post_init__`
unfoldable pub make_state : Json → List Edit → Outcome EditError EditState
unfolding is_schema_one check_non_overlapping
make_state schema edits = do
  raise_if (not (is_schema_one schema)) edit_schema
  raise_if (not (all_distinct (edit_ids edits))) duplicate_ids
  check_non_overlapping [] (sort edit_before edits)
  ok (record { edits = sort edit_before edits })

unfoldable pub for_source : EditState → Json → Outcome EditError (List Edit)
for_source s source = do
  canonical ← or_raise (validate_project_relative_path source) invalid
  ok (keep_if (λ e. e.source_path == canonical) s.edits)

unfoldable pub add : EditState → Edit → Outcome EditError EditState
unfolding make_state
add s edit = make_state (num 1) (s.edits ++ edit ∷ [])

unfoldable pub remove : EditState → Json → Outcome EditError EditState
unfolding make_state
remove s edit_id = do
  normalized ← or_raise (validate_identifier edit_id) invalid
  raise_if (nat_eq (length (keep_if (λ e. not (e.edit_id == normalized)) s.edits)) (length s.edits))
      (not_found normalized)
  make_state (num 1) (keep_if (λ e. not (e.edit_id == normalized)) s.edits)

unfoldable pub state_to_dict : EditState → Fields
unfolding edit_to_dict
state_to_dict s =
    field (codes "schema_version") (num 1) (
      field (codes "edits") (Json.arr (of_list (map (λ e. Json.obj (edit_to_dict e)) s.edits))) end)

-- `raw_edits` must be a list
unfoldable pub edit_items : Json → Outcome EditError (List Json)
edit_items (Json.arr items) = ok (to_list items)
edit_items _ = raised edits_not_list

unfoldable pub state_from_dict : Json → Outcome EditError EditState
unfolding edit_items
state_from_dict (Json.obj d) = do
  raise_if (not (only_keys (codes "schema_version" ∷ codes "edits" ∷ []) d)) unknown_state_fields
  raise_if (not (has_keys (codes "schema_version" ∷ []) d)) missing_schema
  items ← edit_items (get_or (codes "edits") (Json.arr Items.nil) d)
  edits ← traverse edit_from_dict items
  make_state (get_or (codes "schema_version") Json.null d) edits
state_from_dict _ = raised state_not_object
