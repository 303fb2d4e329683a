-- ===== src/Examples/Edits.antt =====
-- Runs of the theorems on accepted range edits: two edits of one video, which meet in one point.
use uv_studio.Base.{
  ◌≡◌, ◌↔◌, refl, true, [], ◌∷◌, codes, ok, arith, All, AllPairs, ◌==◌, text_lt, all_distinct,
  to_set, contains, strip, is_space, if◌then◌else◌,
}
use uv_studio.Base.Sort.{sort, insert_sorted}
use uv_studio.Base.Dict.{lookup, insert}
use uv_studio.Json.{Json, num}
use uv_studio.Projects.Identifiers.{matches_id}
use uv_studio.Projects.Paths.{validate_project_relative_path, parts, as_posix}
use uv_studio.Projects.Files.{Disk, Entry, JsonFile, resolve_project_file}
use uv_studio.Projects.EditState.Edit.{Edit, edit_before}
use uv_studio.Projects.EditState.State.{
  EditState, make_state, is_schema_one, add, remove, check_non_overlapping, overlaps_previous,
  state_to_dict, state_from_dict,
}
use uv_studio.Projects.EditState.Store.{input_roots, accept}
use uv_studio.Projects.EditState.Disjoint.{
  IsInterval, Disjoint, DifferentIds, IsState, make_state_iff, make_state-IsState,
}
use uv_studio.Projects.EditState.Changes.{add_iff, remove-add}
use uv_studio.Projects.EditState.Document.{IsReadable, state_from_dict-to_dict}
use uv_studio.Projects.EditState.Acceptance.{accept_ignores_stale}

abbrev edit_a : Edit
edit_a = record {
  edit_id = codes "a";
  source_path = codes "sources/v";
  start_us = 0;
  end_us = 10;
  replacement_path = codes "assets/x";
}

abbrev edit_b : Edit
edit_b = record {
  edit_id = codes "b";
  source_path = codes "sources/v";
  start_us = 10;
  end_us = 12;
  replacement_path = codes "assets/y";
}

abbrev one : EditState
one = record { edits = edit_a ∷ [] }

abbrev two : EditState
two = record { edits = edit_a ∷ edit_b ∷ [] }

sorted : sort edit_before (edit_b ∷ edit_a ∷ []) ≡ edit_a ∷ edit_b ∷ []
unfolding sort insert_sorted edit_before ◌==◌ text_lt
sorted = refl

made : make_state (num 1) (edit_b ∷ edit_a ∷ []) ≡ ok two
unfolding make_state is_schema_one check_non_overlapping overlaps_previous sort insert_sorted
    edit_before ◌==◌ text_lt all_distinct to_set contains lookup insert
made = refl

both : All IsInterval (edit_b ∷ edit_a ∷ [])
both = (omega arith, (omega arith, tt))

make_state_iff_example :
    (make_state (num 1) (edit_b ∷ edit_a ∷ [])
      ≡ ok (record { edits = sort edit_before (edit_b ∷ edit_a ∷ []) }))
    ↔ ((is_schema_one (num 1) ≡ true)
        × AllPairs DifferentIds (edit_b ∷ edit_a ∷ [])
        × AllPairs Disjoint (edit_b ∷ edit_a ∷ []))
make_state_iff_example = make_state_iff (num 1) (edit_b ∷ edit_a ∷ []) both

made_one : make_state (num 1) (edit_a ∷ []) ≡ ok one
unfolding make_state is_schema_one check_non_overlapping overlaps_previous sort insert_sorted
    all_distinct to_set contains lookup
made_one = refl

one-IsState : IsState one
one-IsState = (make_state-IsState (num 1) (edit_a ∷ []) one (omega arith, tt) made_one).0

two-IsState : IsState two
two-IsState = (make_state-IsState (num 1) (edit_b ∷ edit_a ∷ []) two both made).0

b-IsInterval : IsInterval edit_b
b-IsInterval = omega arith

add_iff_example :
    (add one edit_b ≡ ok (record { edits = sort edit_before (edit_a ∷ edit_b ∷ []) }))
    ↔ (All (λ x. DifferentIds x edit_b) (edit_a ∷ []) × All (λ x. Disjoint x edit_b) (edit_a ∷ []))
add_iff_example = add_iff one edit_b one-IsState b-IsInterval

added : add one edit_b ≡ ok two
unfolding add is_schema_one check_non_overlapping overlaps_previous sort insert_sorted edit_before
    ◌==◌ text_lt all_distinct to_set contains lookup insert
added = refl

b-matches : matches_id (codes "b") ≡ true
unfolding matches_id
b-matches = refl

remove-add_example : remove two (Json.str (codes "b")) ≡ ok one
remove-add_example = remove-add one two edit_b one-IsState b-IsInterval b-matches added

a-IsReadable : IsReadable edit_a
a-IsReadable = record {
  id = unfold matches_id in refl;
  source =
      unfold validate_project_relative_path strip is_space parts as_posix ◌==◌ contains in refl;
  replacement =
      unfold validate_project_relative_path strip is_space parts as_posix ◌==◌ contains in refl;
  different = unfold ◌==◌ in refl;
}

b-IsReadable : IsReadable edit_b
b-IsReadable = record {
  id = unfold matches_id in refl;
  source =
      unfold validate_project_relative_path strip is_space parts as_posix ◌==◌ contains in refl;
  replacement =
      unfold validate_project_relative_path strip is_space parts as_posix ◌==◌ contains in refl;
  different = unfold ◌==◌ in refl;
}

state_from_dict-to_dict_example : state_from_dict (Json.obj (state_to_dict two)) ≡ ok two
state_from_dict-to_dict_example =
    state_from_dict-to_dict two two-IsState (a-IsReadable, (b-IsReadable, tt))

-- A disk on which every path is a regular file
abbrev disk : Disk
disk = λ roots path. Entry.regular

abbrev stored : JsonFile
stored = JsonFile.document (Json.obj (state_to_dict one))

-- A disk on which the file of the accepted edit is gone
abbrev stale : Disk
stale = λ roots path. if path == codes "assets/x" then Entry.absent else Entry.regular

found_source :
    resolve_project_file disk true input_roots (Json.str (codes "sources/v"))
    ≡ resolve_project_file stale true input_roots (Json.str (codes "sources/v"))
unfolding resolve_project_file validate_project_relative_path strip is_space parts as_posix ◌==◌
    contains
found_source = refl

found_replacement :
    resolve_project_file disk true input_roots (Json.str (codes "assets/y"))
    ≡ resolve_project_file stale true input_roots (Json.str (codes "assets/y"))
unfolding resolve_project_file validate_project_relative_path strip is_space parts as_posix ◌==◌
    contains
found_replacement = refl

accept_ignores_stale_example : accept disk stored edit_b ≡ accept stale stored edit_b
accept_ignores_stale_example =
    accept_ignores_stale disk stale stored edit_b found_source found_replacement
