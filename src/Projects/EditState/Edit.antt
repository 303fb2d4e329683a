-- ===== src/Projects/EditState/Edit.antt =====
-- `AcceptedRangeEdit` and the errors of the module.
use uv_studio.Base.{
  ℕ, Bool, not, ◌&&◌, ◌||◌, List, [], ◌∷◌, Text, codes, ◌==◌, text_lt, ltb, nat_eq, Outcome, ok,
  raised, ◌>>=◌, ◌>>◌, raise_if, or_raise,
}
use uv_studio.Json.{Json, Fields, num, end, field, get_or, only_keys, has_keys}
use uv_studio.Projects.Errors.{ValidationError}
use uv_studio.Projects.Identifiers.{validate_identifier}
use uv_studio.Projects.Paths.{validate_project_relative_path}
use uv_studio.Projects.MediaRanges.{RangeArguments, make_range}

-- `EditStateError`, a constructor for each message; `not_found` is `EditStateNotFound`.
pub data EditError : Type 0 where
  invalid : ValidationError → EditError
  same_path : EditError
  edit_not_object unknown_edit_fields missing_edit_fields : EditError
  edit_schema duplicate_ids overlapping : EditError
  not_found : Text → EditError
  state_not_object unknown_state_fields missing_schema edits_not_list : EditError
  bad_reference : ValidationError → EditError
  irregular_reference unresolved_state irregular_state malformed_state : EditError

pub record Edit : Type 0 where
  pub edit_id : Text
  pub source_path : Text
  pub start_us : ℕ
  pub end_us : ℕ
  pub replacement_path : Text

-- The arguments of `AcceptedRangeEdit(...)` before they are validated.
pub record EditArguments : Type 0 where
  pub edit_id : Json
  pub source_path : Json
  pub start_us : Json
  pub end_us : Json
  pub replacement_path : Json

-- The range that `__post_init__` constructs to validate path and interval.
unfoldable pub requested_range : EditArguments → RangeArguments
requested_range a = record {
  source_path = a.source_path;
  start_us = a.start_us;
  end_us = a.end_us;
  context_before_us = num 0;
  context_after_us = num 0;
  schema_version = num 1;
}

-- `AcceptedRangeEdit.__post_init__`
unfoldable pub make_edit : EditArguments → Outcome EditError Edit
unfolding requested_range
make_edit a = do
  id ← or_raise (validate_identifier a.edit_id) invalid
  requested ← or_raise (make_range (requested_range a)) invalid
  replacement ← or_raise (validate_project_relative_path a.replacement_path) invalid
  raise_if (replacement == requested.source_path) same_path
  ok (record {
    edit_id = id;
    source_path = requested.source_path;
    start_us = requested.start_us;
    end_us = requested.end_us;
    replacement_path = replacement;
  })

unfoldable pub edit_to_dict : Edit → Fields
edit_to_dict e = field (codes "edit_id") (Json.str e.edit_id) (
    field (codes "source_path") (Json.str e.source_path) (
      field (codes "start_us") (num e.start_us) (
        field (codes "end_us") (num e.end_us)
          (field (codes "replacement_path") (Json.str e.replacement_path) end))))

abbrev pub edit_keys : List Text
edit_keys =
    codes "edit_id"
    ∷ codes "source_path"
    ∷ codes "start_us"
    ∷ codes "end_us"
    ∷ codes "replacement_path"
    ∷ []

unfoldable pub edit_from_dict : Json → Outcome EditError Edit
edit_from_dict (Json.obj d) = do
  raise_if (not (only_keys edit_keys d)) unknown_edit_fields
  raise_if (not (has_keys edit_keys d)) missing_edit_fields
  make_edit (record {
    edit_id = get_or (codes "edit_id") Json.null d;
    source_path = get_or (codes "source_path") Json.null d;
    start_us = get_or (codes "start_us") Json.null d;
    end_us = get_or (codes "end_us") Json.null d;
    replacement_path = get_or (codes "replacement_path") Json.null d;
  })
edit_from_dict _ = raised edit_not_object

-- The sort key `(source_path, start_us, end_us, edit_id)`: does `a` come strictly before `b`?
unfoldable pub edit_before : Edit → Edit → Bool
edit_before a b =
    text_lt a.source_path b.source_path
    || (a.source_path == b.source_path
        && (ltb a.start_us b.start_us
            || (nat_eq a.start_us b.start_us
                && (ltb a.end_us b.end_us
                    || (nat_eq a.end_us b.end_us && text_lt a.edit_id b.edit_id)))))
