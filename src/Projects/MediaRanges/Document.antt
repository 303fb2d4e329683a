-- ===== src/Projects/MediaRanges/Document.antt =====
-- The JSON document of a range.
use uv_studio.Base.{◌≡◌, ok, arith, ◌==◌, contains}
use uv_studio.Json.{Json, get, get_or, only_keys, equals_one}
use uv_studio.Projects.Paths.{validate_project_relative_path}
use uv_studio.Projects.MediaRanges.{
  MediaRange, make_range, require_int_microseconds, to_dict, from_dict,
}
use uv_studio.Projects.MediaRanges.Bounds.{IsRange}

-- Reading the document of a valid range gives the range back, if its path is accepted as it stands.
pub from_dict-to_dict :
    (r : MediaRange)
    → IsRange r
    → validate_project_relative_path (Json.str r.source_path) ≡ ok r.source_path
    → from_dict (Json.obj (to_dict r)) ≡ ok r
unfolding from_dict to_dict make_range require_int_microseconds get get_or only_keys equals_one ◌==◌
    contains
from_dict-to_dict r v p = ground arith
