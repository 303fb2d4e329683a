-- ===== src/Projects/MediaRanges.antt =====
-- uv_studio/projects/media_ranges.py: an exact range of a source, in whole microseconds, and its
-- resolution against the duration of that source.
pub mod Bounds
pub mod Document
use uv_studio.Base.{
  ℕ, ◌+◌, ◌-◌, ◌*◌, min, Bool, true, Option, none, some, List, [], ◌∷◌, Text, codes, leb, ltb, not,
  Outcome, ok, raised, ◌>>=◌, ◌>>◌, raise_if,
}
use uv_studio.Json.{Json, Fields, pos, negsuc, num, end, field, get, get_or, only_keys, equals_one}
use uv_studio.Projects.Errors.{
  ValidationError, not_microseconds, below_minimum, above_maximum, range_schema, empty_range,
  past_source, not_object, unknown_fields, path_not_text,
}
use uv_studio.Projects.Paths.{validate_project_relative_path}

abbrev pub max_context_us : ℕ
max_context_us = 30 * 1000000

abbrev above : Option ℕ → ℕ → Bool
above none n = ltb n 0
above (some m) n = ltb m n

-- `_require_int_microseconds`; a bool is refused although it is an int in Python.
unfoldable pub require_int_microseconds : ℕ → Option ℕ → Json → Outcome ValidationError ℕ
require_int_microseconds minimum maximum (Json.int (pos n)) = do
  raise_if (ltb n minimum) below_minimum
  raise_if (above maximum n) above_maximum
  ok n
require_int_microseconds minimum maximum (Json.int (negsuc n)) = raised below_minimum
require_int_microseconds minimum maximum _ = raised not_microseconds

-- `ProjectMediaRange`, after its validation
pub record MediaRange : Type 0 where
  pub source_path : Text
  pub start_us : ℕ
  pub end_us : ℕ
  pub context_before_us : ℕ
  pub context_after_us : ℕ

-- The arguments of `ProjectMediaRange(...)` before they are validated.
pub record RangeArguments : Type 0 where
  pub source_path : Json
  pub start_us : Json
  pub end_us : Json
  pub context_before_us : Json
  pub context_after_us : Json
  pub schema_version : Json

-- `ProjectMediaRange.__post_init__`
unfoldable pub make_range : RangeArguments → Outcome ValidationError MediaRange
make_range a = do
  raise_if (not (equals_one a.schema_version)) range_schema
  path ← validate_project_relative_path a.source_path
  start ← require_int_microseconds 0 none a.start_us
  stop ← require_int_microseconds 0 none a.end_us
  before ← require_int_microseconds 0 (some max_context_us) a.context_before_us
  after ← require_int_microseconds 0 (some max_context_us) a.context_after_us
  raise_if (leb stop start) empty_range
  ok (record {
    source_path = path;
    start_us = start;
    end_us = stop;
    context_before_us = before;
    context_after_us = after;
  })

-- `ResolvedProjectMediaRange` and its three derived durations
pub record ResolvedRange : Type 0 where
  pub source_path : Text
  pub source_duration_us : ℕ
  pub start_us : ℕ
  pub end_us : ℕ
  pub context_before_us : ℕ
  pub context_after_us : ℕ
  pub context_start_us : ℕ
  pub context_end_us : ℕ

-- The differences are of integers in the source; `Bounds` shows that they are never negative.
unfoldable pub duration_us : ResolvedRange → ℕ
duration_us r = r.end_us - r.start_us

unfoldable pub before_duration_us : ResolvedRange → ℕ
before_duration_us r = r.start_us - r.context_start_us

unfoldable pub after_duration_us : ResolvedRange → ℕ
after_duration_us r = r.context_end_us - r.end_us

-- The range that `resolve` returns. `max(0, a - b)` is the truncated subtraction.
unfoldable pub resolved_at : MediaRange → ℕ → ResolvedRange
resolved_at r duration = record {
  source_path = r.source_path;
  source_duration_us = duration;
  start_us = r.start_us;
  end_us = r.end_us;
  context_before_us = r.context_before_us;
  context_after_us = r.context_after_us;
  context_start_us = r.start_us - r.context_before_us;
  context_end_us = min duration (r.end_us + r.context_after_us);
}

-- `ProjectMediaRange.resolve`
unfoldable pub resolve : MediaRange → Json → Outcome ValidationError ResolvedRange
unfolding resolved_at
resolve r source_duration = do
  duration ← require_int_microseconds 1 none source_duration
  raise_if (ltb duration r.end_us) past_source
  ok (resolved_at r duration)

unfoldable pub to_dict : MediaRange → Fields
to_dict r = field (codes "schema_version") (num 1) (
    field (codes "source_path") (Json.str r.source_path) (
      field (codes "start_us") (num r.start_us) (
        field (codes "end_us") (num r.end_us) (
          field (codes "context_before_us") (num r.context_before_us)
            (field (codes "context_after_us") (num r.context_after_us) end)))))

abbrev pub range_keys : List Text
range_keys =
    codes "schema_version"
    ∷ codes "source_path"
    ∷ codes "start_us"
    ∷ codes "end_us"
    ∷ codes "context_before_us"
    ∷ codes "context_after_us"
    ∷ []

-- `source_path = raw.get("source_path")`, which must be a text
unfoldable pub text_field : Option Json → Outcome ValidationError Text
text_field (some (Json.str s)) = ok s
text_field _ = raised path_not_text

unfoldable pub from_dict : Json → Outcome ValidationError MediaRange
unfolding text_field
from_dict (Json.obj raw) = do
  raise_if (not (only_keys range_keys raw)) unknown_fields
  path ← text_field (get (codes "source_path") raw)
  make_range (record {
    source_path = Json.str path;
    start_us = get_or (codes "start_us") Json.null raw;
    end_us = get_or (codes "end_us") Json.null raw;
    context_before_us = get_or (codes "context_before_us") (num 0) raw;
    context_after_us = get_or (codes "context_after_us") (num 0) raw;
    schema_version = get_or (codes "schema_version") (num 1) raw;
  })
from_dict _ = raised not_object
