-- ===== src/Generation/Jobs/Starting.antt =====
-- A valid job that is queued, or failed with nothing to reconcile, can be started.
use uv_studio.Base.{
  ℕ, ◌+◌, ◌≡◌, ◌≢◌, ◌⊎◌, refl, true, false, List, [], ◌∷◌, ◌++◌, none, some, length, is_empty,
  get_last?, All, AllPairs-append_last, ok, arith, inl, inr,
}
use uv_studio.Projects.Identifiers.{matches_id, validate_identifier-eq_self}
use uv_studio.Generation.Jobs.Attempt.{
  Status, Attempt, make_attempt, check_attempt, identifier, optional_identifier, optional_text,
  full_text, bounded_error, index_of,
}
use uv_studio.Generation.Jobs.Job.{Job, check_status, running_attempts, ends_with}
use uv_studio.Generation.Jobs.Transitions.{
  Moment, with_attempts, started_attempt, start_attempt, start_execution,
}
use uv_studio.Generation.Jobs.Lifecycle.{Past, Failed, status_of-text}
use uv_studio.Generation.Jobs.Reachability.{startable-Failed}
use uv_studio.Generation.Jobs.Validity.{Counts, IsJob, OtherAttempts, job_valid}

-- The attempt and the job that a start leads to
abbrev pub first_attempt : Moment → Job → Attempt
first_attempt m j = record {
  attempt_id = m.new_id;
  retry_index = length j.attempts;
  status = Status.running;
  started_at = m.now;
  ended_at = none;
  output_reference_id = none;
  take_id = none;
  error = none;
}

abbrev pub started : Moment → Job → Job
started m j = record j {
  status = Status.running;
  updated_at = m.later;
  attempts = j.attempts ++ first_attempt m j ∷ [];
}

-- The new id is an identifier that no attempt of the job has, and the times are not empty.
pub record IsFresh (m : Moment) (j : Job) : Type 0 where
  pub id : matches_id m.new_id ≡ true
  pub new : All (λ a. a.attempt_id ≢ m.new_id) j.attempts
  pub now : is_empty m.now ≡ false
  pub later : is_empty m.later ≡ false

-- The job waits for its execution, or for a retry.
abbrev pub IsStartable : Moment → Job → Type 0
IsStartable m j =
    (j.status ≡ Status.queued) ⊎ ((j.status ≡ Status.failed) × (m.unreconciled ≡ false))

Counts-append :
    (n : ℕ) (xs : List Attempt) (a : Attempt)
    → Counts n xs
    → a.retry_index ≡ n + length xs
    → Counts n (xs ++ a ∷ [])
Counts-append n [] a c e = (omega (arith, e), tt)
Counts-append n (x ∷ xs) a c e = (c.0, Counts-append (n + 1) xs a c.1 (omega (arith, e)))

pub running_attempts-Failed :
    (xs : List Attempt) (a : Attempt)
    → Failed xs
    → a.status ≡ Status.running
    → running_attempts (xs ++ a ∷ []) ≡ a ∷ []
unfolding running_attempts
running_attempts-Failed [] a f e = rw e refl
running_attempts-Failed (x ∷ xs) a f e = rw f.0 (running_attempts-Failed xs a f.1 e)

pub get_last-append : (xs : List Attempt) (a : Attempt) → get_last? (xs ++ a ∷ []) ≡ some a
get_last-append [] a = refl
get_last-append (x ∷ []) a = refl
get_last-append (x ∷ y ∷ xs) a = get_last-append (y ∷ xs) a

running_agrees :
    (xs : List Attempt) (a : Attempt)
    → Failed xs
    → a.status ≡ Status.running
    → check_status Status.running (xs ++ a ∷ []) ≡ ok tt
unfolding check_status ends_with
running_agrees xs a f e =
    rw (running_attempts-Failed xs a f e, get_last-append xs a, e, check_status, ends_with) refl

first_attempt-made :
    (m : Moment) (j : Job)
    → IsFresh m j
    → make_attempt (started_attempt m j) ≡ ok (first_attempt m j)
unfolding make_attempt started_attempt identifier index_of full_text optional_text
    optional_identifier bounded_error check_attempt
first_attempt-made m j fresh =
    rw (validate_identifier-eq_self m.new_id fresh.id, status_of-text Status.running, fresh.now)
      refl

started-IsJob :
    (m : Moment) (j : Job)
    → IsJob m.portable j
    → Failed j.attempts
    → IsFresh m j
    → IsJob m.portable (started m j)
started-IsJob m j v f fresh = record {
  id = v.id;
  project = v.project;
  key = v.key;
  digits = v.digits;
  hex = v.hex;
  request = v.request;
  created = v.created;
  updated = fresh.later;
  attempts =
      (AllPairs-append_last OtherAttempts j.attempts (first_attempt m j)).1 (v.attempts, fresh.new);
  counted = Counts-append 0 j.attempts (first_attempt m j) v.counted (omega arith);
  agrees = running_agrees j.attempts (first_attempt m j) f refl;
}

start_attempt-eq-ok :
    (m : Moment) (j : Job)
    → IsJob m.portable j
    → Failed j.attempts
    → IsFresh m j
    → start_attempt m j ≡ ok (started m j)
unfolding start_attempt with_attempts
start_attempt-eq-ok m j v f fresh =
    rw
      (
        first_attempt-made m j fresh,
        job_valid m.portable (started m j) (started-IsJob m j v f fresh),
      )
      refl

-- A valid job with the past of its status that is queued, or failed with no unreconciled artifact,
-- is started, given a new attempt id and times: it gets one more attempt, which runs, numbered by
-- the attempts before it, and is valid again.
pub start_execution_total :
    (m : Moment) (j : Job)
    → IsJob m.portable j
    → Past j.status j.attempts
    → IsStartable m j
    → IsFresh m j
    → (start_execution m j ≡ ok (started m j)) × IsJob m.portable (started m j)
unfolding start_execution
start_execution_total m j v p (inl e) fresh =
    let f = startable-Failed j.status j.attempts (inl e) p in
    (rw (e, start_execution) (start_attempt-eq-ok m j v f fresh), started-IsJob m j v f fresh)
start_execution_total m j v p (inr (e, settled)) fresh =
    let f = startable-Failed j.status j.attempts (inr e) p in
    (
      rw (e, settled, start_execution) (start_attempt-eq-ok m j v f fresh),
      started-IsJob m j v f fresh,
    )
