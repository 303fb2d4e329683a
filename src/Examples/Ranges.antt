-- ===== src/Examples/Ranges.antt =====
-- Runs of the theorems on media ranges and project paths, on ten microseconds of a video.
use uv_studio.Base.{◌≡◌, ◌↔◌, refl, false, codes, ok, ◌==◌, contains, strip, is_space, is_empty}
use uv_studio.Json.{Json, num, equals_one}
use uv_studio.Projects.Paths.{validate_project_relative_path, has_drive, parts, as_posix}
use uv_studio.Projects.Paths.Canonical.{IsCanonical, validate_path-IsCanonical, validate_path_idem}
use uv_studio.Projects.MediaRanges.{
  MediaRange, RangeArguments, make_range, require_int_microseconds, resolve, resolved_at,
}
use uv_studio.Projects.MediaRanges.Bounds.{IsRange, Encloses, make_range-IsRange, resolve-Encloses}

abbrev arguments : RangeArguments
arguments = record {
  source_path = Json.str (codes "sources\\./a.mp4");
  start_us = num 5;
  end_us = num 15;
  context_before_us = num 10;
  context_after_us = num 3;
  schema_version = num 1;
}

abbrev range : MediaRange
range = record {
  source_path = codes "sources/a.mp4";
  start_us = 5;
  end_us = 15;
  context_before_us = 10;
  context_after_us = 3;
}

accepted :
    validate_project_relative_path (Json.str (codes "sources\\./a.mp4"))
    ≡ ok (codes "sources/a.mp4")
unfolding validate_project_relative_path strip is_space parts as_posix ◌==◌ contains
accepted = refl

accepted_again :
    validate_project_relative_path (Json.str (codes "sources/a.mp4")) ≡ ok (codes "sources/a.mp4")
unfolding validate_project_relative_path strip is_space parts as_posix ◌==◌ contains
accepted_again = refl

made : make_range arguments ≡ ok range
unfolding make_range require_int_microseconds equals_one
made = rw accepted refl

range-IsRange : IsRange range
range-IsRange = (make_range-IsRange arguments range made).0

resolved : resolve range (num 17) ≡ ok (resolved_at range 17)
unfolding resolve require_int_microseconds
resolved = refl

-- The context before is cut to the source's start, the one after to its end.
resolve-Encloses_example : Encloses range 17 (resolved_at range 17)
resolve-Encloses_example = resolve-Encloses range 17 (resolved_at range 17) range-IsRange resolved

validate_path-IsCanonical_example : IsCanonical (codes "sources/a.mp4")
validate_path-IsCanonical_example =
    validate_path-IsCanonical (Json.str (codes "sources\\./a.mp4")) (codes "sources/a.mp4") accepted

validate_path_idem_example :
    (validate_project_relative_path (Json.str (codes "sources/a.mp4")) ≡ ok (codes "sources/a.mp4"))
    ↔ ((has_drive (codes "sources/a.mp4") ≡ false)
        × (is_empty (strip (codes "sources/a.mp4")) ≡ false))
validate_path_idem_example =
    validate_path_idem (Json.str (codes "sources\\./a.mp4")) (codes "sources/a.mp4") accepted
