-- ===== src/Generation/Jobs/Transitions.antt =====
-- The transitions of `GenerationJobManager`, from the job that is read to the one that is written.
-- Whether there is an artifact that is not reconciled with the job's attempts is read from the
-- project, and given here.
use uv_studio.Base.{
  Bool, ◌&&◌, List, [], ◌∷◌, ◌++◌, Option, none, some, Text, codes, ◌==◌, length, drop_last,
  Outcome, ok, raised, ◌>>=◌, ◌>>◌, raise_if, if◌then◌else◌,
}
use uv_studio.Json.{Json, Fields, num}
use uv_studio.Generation.Jobs.Attempt.{
  JobError, Status, status_text, Attempt, AttemptArguments, make_attempt, attempt_arguments,
  cannot_start, cannot_cancel, pending_artifact, lost_attempt, other_attempt,
}
use uv_studio.Generation.Jobs.Job.{Job, make_job, job_arguments, current_attempt, same_status}

-- What a transition takes from outside: the normalization of a request, whether an artifact is
-- unreconciled, a new id of uuid4, the time, and
-- the time when it is asked for again.
pub record Moment : Type 0 where
  pub portable : Fields → Option Fields
  pub unreconciled : Bool
  pub new_id : Text
  pub now : Text
  pub later : Text

-- `replace(job, status=..., updated_at=..., attempts=...)`
unfoldable pub with_attempts : Moment → Job → Status → Text → List Attempt → Outcome JobError Job
with_attempts m j status updated_at attempts =
    make_job m.portable
      (job_arguments (record j { status = status; updated_at = updated_at; attempts = attempts }))

-- The attempt that `start_execution` constructs
unfoldable pub started_attempt : Moment → Job → AttemptArguments
started_attempt m j = record {
  attempt_id = Json.str m.new_id;
  retry_index = num (length j.attempts);
  status = Json.str (status_text Status.running);
  started_at = Json.str m.now;
  ended_at = Json.null;
  output_reference_id = Json.null;
  take_id = Json.null;
  error = Json.null;
}

-- The rest of `start_execution`, once the status is checked
unfoldable pub start_attempt : Moment → Job → Outcome JobError Job
unfolding with_attempts started_attempt
start_attempt m j = do
  attempt ← make_attempt (started_attempt m j)
  with_attempts m j Status.running m.later (j.attempts ++ attempt ∷ [])

-- `start_execution`
unfoldable pub start_execution : Moment → Job → Outcome JobError Job
unfolding start_attempt
start_execution m j = elim j.status [
  | Status.queued ↦ start_attempt m j
  | Status.failed ↦ raise_if m.unreconciled pending_artifact >> start_attempt m j
  | Status.running ↦ raised cannot_start
  | Status.succeeded ↦ raised cannot_start
  | Status.cancelled ↦ raised cannot_start
]

-- `_require_running_attempt`
unfoldable pub require_running_attempt : Job → Text → Outcome JobError Attempt
unfolding current_attempt
require_running_attempt j attempt_id = elim (current_attempt j) [
  | none ↦ raised other_attempt
  | some a ↦
      if same_status j.status Status.running
        && (same_status a.status Status.running && a.attempt_id == attempt_id)
      then ok a
      else raised other_attempt
]

-- What a transition that ends the current attempt writes
unfoldable pub end_attempt : Moment → Job → AttemptArguments → Status → Outcome JobError Job
unfolding with_attempts
end_attempt m j arguments status = do
  completed ← make_attempt arguments
  with_attempts m j status m.now (drop_last j.attempts ++ completed ∷ [])

-- `succeed`; the ids of its arguments may be of any type.
unfoldable pub succeed : Moment → Text → Json → Json → Job → Outcome JobError Job
unfolding require_running_attempt end_attempt
succeed m attempt_id output_reference_id take_id j = do
  attempt ← require_running_attempt j attempt_id
  end_attempt m j
      (record (attempt_arguments attempt) {
        status = Json.str (status_text Status.succeeded);
        ended_at = Json.str m.now;
        output_reference_id = output_reference_id;
        take_id = take_id;
        error = Json.null;
      })
      Status.succeeded

-- `fail`
unfoldable pub fail : Moment → Text → Json → Job → Outcome JobError Job
unfolding require_running_attempt end_attempt
fail m attempt_id error j = do
  attempt ← require_running_attempt j attempt_id
  raise_if m.unreconciled pending_artifact
  end_attempt m j
      (record (attempt_arguments attempt) {
        status = Json.str (status_text Status.failed);
        ended_at = Json.str m.now;
        error = error;
      })
      Status.failed

-- `cancel`
unfoldable pub cancel : Moment → Job → Outcome JobError Job
unfolding with_attempts end_attempt current_attempt
cancel m j = elim j.status [
  | Status.queued ↦ with_attempts m j Status.cancelled m.now j.attempts
  | Status.running ↦ elim (current_attempt j) [
    | none ↦ raised lost_attempt
    | some attempt ↦ (do
      raise_if m.unreconciled pending_artifact
      end_attempt m j
          (record (attempt_arguments attempt) {
            status = Json.str (status_text Status.cancelled);
            ended_at = Json.str m.now;
            error = Json.str (codes "cancelled");
          })
          Status.cancelled)
  ]
  | Status.succeeded ↦ raised cannot_cancel
  | Status.failed ↦ raised cannot_cancel
  | Status.cancelled ↦ raised cannot_cancel
]

-- The job that `create_or_reuse` constructs where no job has the key
unfoldable pub new_job : Moment → Json → Json → Json → Json → Outcome JobError Job
new_job m project_id idempotency_key request_digest request = make_job m.portable (record {
  schema_version = num 1;
  job_id = Json.str m.new_id;
  project_id = project_id;
  idempotency_key = idempotency_key;
  request_digest = request_digest;
  request = request;
  status = Json.str (status_text Status.queued);
  created_at = Json.str m.now;
  updated_at = Json.str m.now;
  attempts = [];
})

-- A call of one of the methods that change a job
pub data Transition : Type 0 where
  starts cancels : Transition
  succeeds : Text → Json → Json → Transition
  fails : Text → Json → Transition

unfoldable pub transition : Transition → Moment → Job → Outcome JobError Job
unfolding start_execution succeed fail cancel
transition starts m j = start_execution m j
transition cancels m j = cancel m j
transition (succeeds attempt_id output take_id) m j = succeed m attempt_id output take_id j
transition (fails attempt_id error) m j = fail m attempt_id error j
