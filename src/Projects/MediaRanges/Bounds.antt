-- ===== src/Projects/MediaRanges/Bounds.antt =====
-- What construction and resolution guarantee of a range.
use uv_studio.Base.{ℕ, ◌+◌, ◌-◌, ◌≤◌, ◌<◌, min, ◌≡◌, ◌↔◌, Option, none, some, arith, ok}
use uv_studio.Json.{Json, pos, negsuc, num}
use uv_studio.Projects.Paths.{validate_project_relative_path}
use uv_studio.Projects.MediaRanges.{
  max_context_us, require_int_microseconds, MediaRange, RangeArguments, make_range, ResolvedRange,
  duration_us, before_duration_us, after_duration_us, resolve, resolved_at,
}

-- A number passes unchanged, and only a number within the bounds does.
pub require_int-eq-ok :
    (lo : ℕ) (hi : Option ℕ) (v : Json) (n : ℕ)
    → require_int_microseconds lo hi v ≡ ok n
    → (v ≡ num n) × (lo ≤ n)
unfolding require_int_microseconds
require_int-eq-ok lo none (Json.int (pos m)) n h = ground arith
require_int-eq-ok lo (some k) (Json.int (pos m)) n h = ground arith
require_int-eq-ok lo hi (Json.int (negsuc m)) n h = cc
require_int-eq-ok lo hi Json.null n h = cc
require_int-eq-ok lo hi (Json.bool b) n h = cc
require_int-eq-ok lo hi (Json.float b) n h = cc
require_int-eq-ok lo hi (Json.str b) n h = cc
require_int-eq-ok lo hi (Json.arr b) n h = cc
require_int-eq-ok lo hi (Json.obj b) n h = cc

require_int_max :
    (lo k : ℕ) (v : Json) (n : ℕ) → require_int_microseconds lo (some k) v ≡ ok n → n ≤ k
unfolding require_int_microseconds
require_int_max lo k (Json.int (pos m)) n h = ground arith
require_int_max lo k (Json.int (negsuc m)) n h = cc
require_int_max lo k Json.null n h = cc
require_int_max lo k (Json.bool b) n h = cc
require_int_max lo k (Json.float b) n h = cc
require_int_max lo k (Json.str b) n h = cc
require_int_max lo k (Json.arr b) n h = cc
require_int_max lo k (Json.obj b) n h = cc

-- The invariant of a range: it is not empty, and its context is bounded.
pub record IsRange (r : MediaRange) : Type 0 where
  pub ordered : r.start_us < r.end_us
  pub before_bounded : r.context_before_us ≤ max_context_us
  pub after_bounded : r.context_after_us ≤ max_context_us

-- What a construction that did not raise has read.
pub record Read (a : RangeArguments) (r : MediaRange) : Type 0 where
  pub path : validate_project_relative_path a.source_path ≡ ok r.source_path
  pub start : a.start_us ≡ num r.start_us
  pub stop : a.end_us ≡ num r.end_us
  pub before : a.context_before_us ≡ num r.context_before_us
  pub after : a.context_after_us ≡ num r.context_after_us

-- A range that was constructed is not empty, has at most 30 seconds of context on either side,
-- and holds the numbers it was given, unchanged.
pub make_range-IsRange :
    (a : RangeArguments) (r : MediaRange) → make_range a ≡ ok r → IsRange r × Read a r
unfolding make_range
make_range-IsRange a r h = ground (
  arith,
  require_int-eq-ok 0 none a.start_us r.start_us,
  require_int-eq-ok 0 none a.end_us r.end_us,
  require_int-eq-ok 0 (some max_context_us) a.context_before_us r.context_before_us,
  require_int-eq-ok 0 (some max_context_us) a.context_after_us r.context_after_us,
  require_int_max 0 max_context_us a.context_before_us r.context_before_us,
  require_int_max 0 max_context_us a.context_after_us r.context_after_us,
)

-- The context encloses the requested interval and stays within the source.
pub record Encloses (r : MediaRange) (d : ℕ) (q : ResolvedRange) : Type 0 where
  pub same_start : q.start_us ≡ r.start_us
  pub same_end : q.end_us ≡ r.end_us
  pub context_before_start : q.context_start_us ≤ q.start_us
  pub end_before_context : q.end_us ≤ q.context_end_us
  pub within_source : q.context_end_us ≤ d
  pub before_exact : before_duration_us q ≡ min r.context_before_us r.start_us
  pub after_exact : after_duration_us q ≡ min r.context_after_us (d - r.end_us)
  pub whole :
      before_duration_us q + duration_us q + after_duration_us q + q.context_start_us
      ≡ q.context_end_us

-- Resolving a valid range keeps the requested interval, and clamps the context, and nothing
-- else, to the source: on each side it is as long as was asked for or reaches the source's end.
pub resolve-Encloses :
    (r : MediaRange) (d : ℕ) (q : ResolvedRange)
    → IsRange r
    → resolve r (num d) ≡ ok q
    → Encloses r d q
unfolding resolve require_int_microseconds duration_us before_duration_us after_duration_us
resolve-Encloses r d q v h = ground arith

-- A range resolves against exactly the positive durations that reach its end.
pub resolve_iff :
    (r : MediaRange) (v : Json)
    → ((q : ResolvedRange) × (resolve r v ≡ ok q))
      ↔ ((d : ℕ) × (v ≡ num d) × (1 ≤ d) × (r.end_us ≤ d))
unfolding resolve
resolve_iff r v = (
  λ (q, h). (
    q.source_duration_us,
    ground (arith, require_int-eq-ok 1 none v q.source_duration_us),
    ground (arith, require_int-eq-ok 1 none v q.source_duration_us),
    ground (arith, require_int-eq-ok 1 none v q.source_duration_us),
  ),
  λ (d, e, pos_d, fits). (resolved_at r d, rw e (unfold require_int_microseconds in ground arith)),
)
