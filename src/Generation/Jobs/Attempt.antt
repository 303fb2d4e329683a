-- ===== src/Generation/Jobs/Attempt.antt =====
-- `GenerationStatus` and `GenerationExecutionAttempt`.
use uv_studio.Base.{
  ℕ, Bool, true, false, not, Option, none, some, Text, codes, ◌==◌, take, is_empty, strip, Outcome,
  ok, raised, ◌>>=◌, ◌>>◌, raise_if, or_raise, if◌then◌else◌,
}
use uv_studio.Json.{Json, pos, num}
use uv_studio.Projects.Errors.{ValidationError}
use uv_studio.Projects.Identifiers.{validate_identifier}

-- `GenerationJobError` and its subclasses, a constructor for each message; `not_portable` is the
-- `GenerationValidationError` of a request.
pub data JobError : Type 0 where
  bad_identifier : ValidationError → JobError
  bad_status queued_attempt : JobError
  bad_retry_index missing_start bad_end bad_error : JobError
  incomplete_success failed_success missing_end running_end : JobError
  attempt_not_object missing_attempt_field : JobError
  bad_schema bad_digest request_not_object not_portable : JobError
  missing_created missing_updated duplicate_attempt gap_in_retries : JobError
  many_running queued_running not_running not_succeeded not_failed : JobError
  cannot_start cannot_cancel pending_artifact lost_attempt other_attempt : JobError

pub data Status : Type 0 where
  queued running succeeded failed cancelled : Status

unfoldable pub status_text : Status → Text
status_text Status.queued = codes "queued"
status_text Status.running = codes "running"
status_text Status.succeeded = codes "succeeded"
status_text Status.failed = codes "failed"
status_text Status.cancelled = codes "cancelled"

-- `_status`
unfoldable pub status_of : Json → Outcome JobError Status
status_of (Json.str s) =
    if s == codes "queued"
    then ok Status.queued
    else if s == codes "running"
    then ok Status.running
    else if s == codes "succeeded"
    then ok Status.succeeded
    else if s == codes "failed"
    then ok Status.failed
    else if s == codes "cancelled"
    then ok Status.cancelled
    else raised bad_status
status_of _ = raised bad_status

pub record Attempt : Type 0 where
  pub attempt_id : Text
  pub retry_index : ℕ
  pub status : Status
  pub started_at : Text
  pub ended_at : Option Text
  pub output_reference_id : Option Text
  pub take_id : Option Text
  pub error : Option Text

-- The arguments of `GenerationExecutionAttempt(...)` before they are validated.
pub record AttemptArguments : Type 0 where
  pub attempt_id : Json
  pub retry_index : Json
  pub status : Json
  pub started_at : Json
  pub ended_at : Json
  pub output_reference_id : Json
  pub take_id : Json
  pub error : Json

-- `isinstance(value, bool) or not isinstance(value, int) or value < 0`
unfoldable pub index_of : Json → Outcome JobError ℕ
index_of (Json.int (pos n)) = ok n
index_of _ = raised bad_retry_index

-- A text that is not empty, or the error
unfoldable pub full_text : JobError → Json → Outcome JobError Text
full_text e (Json.str s) = raise_if (is_empty s) e >> ok s
full_text e _ = raised e

-- None, or a text that is not empty
unfoldable pub optional_text : JobError → Json → Outcome JobError (Option Text)
unfolding full_text
optional_text e Json.null = ok none
optional_text e v = full_text e v >>= λ s. ok (some s)

unfoldable pub identifier : Json → Outcome JobError Text
identifier v = or_raise (validate_identifier v) bad_identifier

-- None, or an identifier
unfoldable pub optional_identifier : Json → Outcome JobError (Option Text)
unfolding identifier
optional_identifier Json.null = ok none
optional_identifier v = identifier v >>= λ s. ok (some s)

-- `_bounded_error`
unfoldable pub bounded_error : Json → Outcome JobError (Option Text)
bounded_error Json.null = ok none
bounded_error (Json.str s) =
    raise_if (is_empty (strip s)) bad_error >> ok (some (take 4000 (strip s)))
bounded_error _ = raised bad_error

abbrev pub is_none : Option Text → Bool
is_none none = true
is_none (some _) = false

-- The checks on the status, at the end of `__post_init__`
unfoldable pub check_attempt : Attempt → Outcome JobError Attempt
check_attempt a = elim a.status [
  | Status.queued ↦ raised queued_attempt
  | Status.running ↦ raise_if (not (is_none a.ended_at)) running_end >> ok a
  | Status.succeeded ↦ (do
    raise_if (is_none a.ended_at) incomplete_success
    raise_if (is_none a.output_reference_id) incomplete_success
    raise_if (is_none a.take_id) incomplete_success
    raise_if (not (is_none a.error)) failed_success
    ok a)
  | Status.failed ↦ raise_if (is_none a.ended_at) missing_end >> ok a
  | Status.cancelled ↦ raise_if (is_none a.ended_at) missing_end >> ok a
]

abbrev pub is_queued : Status → Bool
is_queued Status.queued = true
is_queued _ = false

-- `GenerationExecutionAttempt.__post_init__`
unfoldable pub make_attempt : AttemptArguments → Outcome JobError Attempt
unfolding check_attempt
make_attempt a = do
  id ← identifier a.attempt_id
  index ← index_of a.retry_index
  status ← status_of a.status
  raise_if (is_queued status) queued_attempt
  started ← full_text missing_start a.started_at
  ended ← optional_text bad_end a.ended_at
  output ← optional_identifier a.output_reference_id
  take_of ← optional_identifier a.take_id
  error ← bounded_error a.error
  check_attempt (record {
    attempt_id = id;
    retry_index = index;
    status = status;
    started_at = started;
    ended_at = ended;
    output_reference_id = output;
    take_id = take_of;
    error = error;
  })

-- A field that may be None, as JSON
unfoldable pub or_null : Option Text → Json
or_null none = Json.null
or_null (some s) = Json.str s

-- The fields of an attempt as arguments: what `dataclasses.replace` hands over.
unfoldable pub attempt_arguments : Attempt → AttemptArguments
unfolding or_null
attempt_arguments a = record {
  attempt_id = Json.str a.attempt_id;
  retry_index = num a.retry_index;
  status = Json.str (status_text a.status);
  started_at = Json.str a.started_at;
  ended_at = or_null a.ended_at;
  output_reference_id = or_null a.output_reference_id;
  take_id = or_null a.take_id;
  error = or_null a.error;
}
