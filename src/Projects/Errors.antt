-- ===== src/Projects/Errors.antt =====
-- `ProjectValidationError` as it is raised by uv_studio/projects/models.py and media_ranges.py,
-- a constructor for each message.
pub data ValidationError : Type 0 where
  bad_identifier : ValidationError
  empty_path outside_project not_canonical : ValidationError
  not_microseconds below_minimum above_maximum : ValidationError
  empty_file_path root_not_allowed unresolvable missing_file : ValidationError
  range_schema empty_range past_source not_object unknown_fields path_not_text : ValidationError
