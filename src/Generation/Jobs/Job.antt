-- ===== src/Generation/Jobs/Job.antt =====
-- `GenerationJob`: a request, its status, and the attempts to execute it.
use uv_studio.Base.{
  ℕ, ◌+◌, Bool, true, false, not, ◌&&◌, ◌||◌, List, [], ◌∷◌, map, Option, none, some, Text, leb,
  ltb, nat_eq, length, all, all_distinct, get_last?, keep_if, Outcome, ok, raised, ◌>>=◌, ◌>>◌,
  raise_if,
}
use uv_studio.Json.{Json, Fields, num, equals_one}
use uv_studio.Generation.Jobs.Attempt.{
  JobError, Status, status_text, status_of, Attempt, identifier, full_text, bad_schema, bad_digest,
  request_not_object, not_portable, missing_created, missing_updated, duplicate_attempt,
  gap_in_retries, many_running, queued_running, not_running, not_succeeded, not_failed,
}

pub record Job : Type 0 where
  pub job_id : Text
  pub project_id : Text
  pub idempotency_key : Text
  pub request_digest : Text
  pub request : Fields
  pub status : Status
  pub created_at : Text
  pub updated_at : Text
  pub attempts : List Attempt

-- The arguments of `GenerationJob(...)` before they are validated; the attempts are attempts.
pub record JobArguments : Type 0 where
  pub schema_version : Json
  pub job_id : Json
  pub project_id : Json
  pub idempotency_key : Json
  pub request_digest : Json
  pub request : Json
  pub status : Json
  pub created_at : Json
  pub updated_at : Json
  pub attempts : List Attempt

-- `ch in "0123456789abcdef"`
unfoldable pub is_hex : ℕ → Bool
is_hex c = (leb b'0' c && leb c b'9') || (leb b'a' c && leb c b'f')

-- The request digest: 64 lowercase hexadecimal digits
unfoldable pub digest_of : Json → Outcome JobError Text
unfolding is_hex
digest_of (Json.str s) = do
  raise_if (not (nat_eq (length s) 64)) bad_digest
  raise_if (not (all is_hex s)) bad_digest
  ok s
digest_of _ = raised bad_digest

-- The request, normalized by `_portable_json`, which is given as `portable`
unfoldable pub request_of : (Fields → Option Fields) → Json → Outcome JobError Fields
request_of portable (Json.obj f) = elim (portable f) [ none ↦ raised not_portable | some g ↦ ok g ]
request_of portable _ = raised request_not_object

abbrev pub same_status : Status → Status → Bool
same_status Status.queued Status.queued = true
same_status Status.running Status.running = true
same_status Status.succeeded Status.succeeded = true
same_status Status.failed Status.failed = true
same_status Status.cancelled Status.cancelled = true
same_status _ _ = false

abbrev pub attempt_ids : List Attempt → List Text
attempt_ids = map (λ a. a.attempt_id)

-- `tuple(item.retry_index for item in attempts) == tuple(range(n, n + len(attempts)))`
unfoldable pub counts_from : ℕ → List Attempt → Bool
counts_from n [] = true
counts_from n (a ∷ attempts) = nat_eq a.retry_index n && counts_from (n + 1) attempts

-- The running attempts
unfoldable pub running_attempts : List Attempt → List Attempt
running_attempts = keep_if (λ a. same_status a.status Status.running)

-- `attempts and attempts[-1].status is status`
unfoldable pub ends_with : Status → List Attempt → Bool
ends_with status attempts = elim (get_last? attempts) [
  | none ↦ false
  | some a ↦ same_status a.status status
]

-- The checks of the status against the attempts
unfoldable pub check_status : Status → List Attempt → Outcome JobError (Unit {0})
unfolding ends_with running_attempts
check_status status attempts = do
  raise_if (ltb 1 (length (running_attempts attempts))) many_running
  elim status [
    | Status.queued ↦ raise_if (ltb 0 (length (running_attempts attempts))) queued_running
    | Status.running ↦ raise_if (not (ends_with Status.running attempts)) not_running
    | Status.succeeded ↦ raise_if (not (ends_with Status.succeeded attempts)) not_succeeded
    | Status.failed ↦ raise_if (not (ends_with Status.failed attempts)) not_failed
    | Status.cancelled ↦ ok tt
  ]

-- `GenerationJob.__post_init__`
unfoldable pub make_job : (Fields → Option Fields) → JobArguments → Outcome JobError Job
unfolding digest_of request_of counts_from check_status
make_job portable a = do
  raise_if (not (equals_one a.schema_version)) bad_schema
  id ← identifier a.job_id
  project ← identifier a.project_id
  key ← identifier a.idempotency_key
  digest ← digest_of a.request_digest
  request ← request_of portable a.request
  status ← status_of a.status
  created ← full_text missing_created a.created_at
  updated ← full_text missing_updated a.updated_at
  raise_if (not (all_distinct (attempt_ids a.attempts))) duplicate_attempt
  raise_if (not (counts_from 0 a.attempts)) gap_in_retries
  check_status status a.attempts
  ok (record {
    job_id = id;
    project_id = project;
    idempotency_key = key;
    request_digest = digest;
    request = request;
    status = status;
    created_at = created;
    updated_at = updated;
    attempts = a.attempts;
  })

-- The fields of a job as arguments: what `dataclasses.replace` hands over.
unfoldable pub job_arguments : Job → JobArguments
job_arguments j = record {
  schema_version = num 1;
  job_id = Json.str j.job_id;
  project_id = Json.str j.project_id;
  idempotency_key = Json.str j.idempotency_key;
  request_digest = Json.str j.request_digest;
  request = Json.obj j.request;
  status = Json.str (status_text j.status);
  created_at = Json.str j.created_at;
  updated_at = Json.str j.updated_at;
  attempts = j.attempts;
}

-- `GenerationJob.current_attempt`
unfoldable pub current_attempt : Job → Option Attempt
current_attempt j = get_last? j.attempts
