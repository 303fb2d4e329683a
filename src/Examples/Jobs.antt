-- ===== src/Examples/Jobs.antt =====
-- Runs of the theorems on generation jobs: a job that is created, started, and cancelled.
use uv_studio.Base.{
  ◌≡◌, inl, inr, refl, true, false, [], codes, Text, some, ok, raised, contains, all_distinct,
  to_set, ◌==◌,
}
use uv_studio.Json.{Json, Fields, equals_one}
use uv_studio.Projects.Identifiers.{matches_id, is_id_char, is_alnum, validate_identifier}
use uv_studio.Generation.Jobs.Attempt.{
  JobError, Status, status_text, status_of, identifier, full_text,
}
use uv_studio.Generation.Jobs.Job.{
  Job, make_job, job_arguments, digest_of, is_hex, request_of, counts_from, check_status,
  running_attempts, ends_with,
}
use uv_studio.Generation.Jobs.Transitions.{
  succeed, Moment, new_job, start_execution, starts, transition,
}
use uv_studio.Generation.Jobs.Lifecycle.{Ends}
use uv_studio.Generation.Jobs.Reachability.{Reached, transition_final}
use uv_studio.Generation.Jobs.Validity.{IsJob, make_job-IsJob}
use uv_studio.Generation.Jobs.Completing.{completed, completed_job, IsSuccess, succeed_total}
use uv_studio.Generation.Jobs.Starting.{started, first_attempt, start_execution_total}

abbrev moment : Moment
moment = record {
  portable = λ f. some f;
  unreconciled = false;
  new_id = codes "j1";
  now = codes "now";
  later = codes "later";
}

abbrev digest : Text
digest = codes "0123456789abcdef0123456789abcdef0123456789abcdef0123456789abcdef"

abbrev job : Job
job = record {
  job_id = codes "j1";
  project_id = codes "p";
  idempotency_key = codes "k";
  request_digest = digest;
  request = Fields.end;
  status = Status.queued;
  created_at = codes "now";
  updated_at = codes "now";
  attempts = [];
}

made :
    new_job moment
      (Json.str (codes "p"))
      (Json.str (codes "k"))
      (Json.str digest)
      (Json.obj Fields.end)
    ≡ ok job
unfolding new_job make_job identifier validate_identifier matches_id is_id_char is_alnum digest_of
    is_hex request_of status_of status_text full_text counts_from check_status running_attempts
    ends_with equals_one all_distinct to_set contains ◌==◌
made = refl

remade : make_job moment.portable (job_arguments job) ≡ ok job
unfolding make_job job_arguments identifier validate_identifier matches_id is_id_char is_alnum
    digest_of is_hex request_of status_of status_text full_text counts_from check_status
    running_attempts ends_with equals_one all_distinct to_set contains ◌==◌
remade = refl

job-IsJob : IsJob moment.portable job
job-IsJob = make_job-IsJob moment.portable (job_arguments job) job (λ f g h. refl) remade

created : Reached job
created =
    Reached.created moment (Json.str (codes "p")) (Json.str (codes "k")) (Json.str digest)
      (Json.obj Fields.end) made

new-matches_id : matches_id (codes "j1") ≡ true
unfolding matches_id is_id_char is_alnum
new-matches_id = refl

start_execution_total_example :
    (start_execution moment job ≡ ok (started moment job))
    × IsJob moment.portable (started moment job)
start_execution_total_example =
    start_execution_total moment job job-IsJob refl (inl refl)
      (record { id = new-matches_id; new = tt; now = refl; later = refl })

runs : transition starts moment job ≡ ok (started moment job)
unfolding transition
runs =
    (start_execution_total moment job job-IsJob refl (inl refl)
      (record { id = new-matches_id; new = tt; now = refl; later = refl })).0

abbrev cancelled : Job
cancelled = record job { status = Status.cancelled }

transition_final_example : (e : JobError) × (transition starts moment cancelled ≡ raised e)
transition_final_example = transition_final starts moment cancelled (inr refl)

abbrev ending : Ends Status.running (started moment job).attempts
ending = record {
  before = [];
  last = first_attempt moment job;
  all = refl;
  failed = tt;
  status = refl;
}

output-matches_id : matches_id (codes "o") ≡ true
unfolding matches_id is_id_char is_alnum
output-matches_id = refl

take-matches_id : matches_id (codes "t") ≡ true
unfolding matches_id is_id_char is_alnum
take-matches_id = refl

started-IsJob : IsJob moment.portable (started moment job)
started-IsJob =
    (start_execution_total moment job job-IsJob refl (inl refl)
      (record { id = new-matches_id; new = tt; now = refl; later = refl })).1

success : IsSuccess moment (first_attempt moment job) (codes "o") (codes "t")
success = record {
  id = new-matches_id;
  valid_output = output-matches_id;
  valid_take = take-matches_id;
  started = refl;
  now = refl;
}

abbrev done : Job
done =
    completed_job moment (started moment job) []
      (completed moment (first_attempt moment job) (codes "o") (codes "t"))

succeed_total_example :
    (succeed moment (codes "j1") (Json.str (codes "o")) (Json.str (codes "t")) (started moment job)
      ≡ ok done)
    × IsJob moment.portable done
succeed_total_example =
    succeed_total moment (started moment job) ending (codes "o") (codes "t") success started-IsJob
      refl
