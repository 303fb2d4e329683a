-- ===== src/Generation/Jobs/Completing.antt =====
-- The running attempt of a valid job can be completed.
use uv_studio.Base.{
  ℕ, ◌+◌, ◌≡◌, refl, sym, ap, ◌∙◌, true, false, List, [], ◌∷◌, ◌++◌, none, some, Text, text_eq_refl,
  is_empty, AllPairs, AllPairs-append_last, get_last?, drop_last, ok,
}
use mathlib.Core.Path.{subst}
use uv_studio.Json.{Json}
use uv_studio.Projects.Identifiers.{matches_id, validate_identifier-eq_self}
use uv_studio.Generation.Jobs.Attempt.{
  Status, status_text, Attempt, AttemptArguments, make_attempt, attempt_arguments, check_attempt,
  identifier, optional_identifier, optional_text, full_text, bounded_error, index_of,
}
use uv_studio.Generation.Jobs.Job.{Job, check_status, running_attempts, ends_with, current_attempt}
use uv_studio.Generation.Jobs.Transitions.{
  Moment, with_attempts, end_attempt, require_running_attempt, succeed,
}
use uv_studio.Generation.Jobs.Lifecycle.{Ends, Failed, status_of-text, drop_last-append}
use uv_studio.Generation.Jobs.Validity.{Counts, IsJob, OtherAttempts, job_valid}
use uv_studio.Generation.Jobs.Starting.{get_last-append}

-- The attempt and the job after a success
abbrev pub completed : Moment → Attempt → Text → Text → Attempt
completed m a output take_of = record a {
  status = Status.succeeded;
  ended_at = some m.now;
  output_reference_id = some output;
  take_id = some take_of;
  error = none;
}

abbrev pub completed_job : Moment → Job → List Attempt → Attempt → Job
completed_job m j before a = record j {
  status = Status.succeeded;
  updated_at = m.now;
  attempts = before ++ a ∷ [];
}

-- What a success is given: identifiers, of the attempt too, and times that are not empty.
pub record IsSuccess (m : Moment) (a : Attempt) (output take_of : Text) : Type 0 where
  pub id : matches_id a.attempt_id ≡ true
  pub valid_output : matches_id output ≡ true
  pub valid_take : matches_id take_of ≡ true
  pub started : is_empty a.started_at ≡ false
  pub now : is_empty m.now ≡ false

Counts-last :
    (n : ℕ) (xs : List Attempt) (a b : Attempt)
    → a.retry_index ≡ b.retry_index
    → Counts n (xs ++ a ∷ [])
    → Counts n (xs ++ b ∷ [])
Counts-last n [] a b e c = (sym e ∙ c.0, tt)
Counts-last n (x ∷ xs) a b e c = (c.0, Counts-last (n + 1) xs a b e c.1)

none_running :
    (xs : List Attempt) (a : Attempt)
    → Failed xs
    → a.status ≡ Status.succeeded
    → running_attempts (xs ++ a ∷ []) ≡ []
unfolding running_attempts
none_running [] a f e = rw e refl
none_running (x ∷ xs) a f e = rw f.0 (none_running xs a f.1 e)

success_agrees :
    (xs : List Attempt) (a : Attempt)
    → Failed xs
    → a.status ≡ Status.succeeded
    → check_status Status.succeeded (xs ++ a ∷ []) ≡ ok tt
unfolding check_status ends_with
success_agrees xs a f e =
    rw (none_running xs a f e, get_last-append xs a, e, check_status, ends_with) refl

module _ (m : Moment) (j : Job) (p : Ends Status.running j.attempts) (output take_of : Text)
    (s : IsSuccess m p.last output take_of) where
  completed_arguments : AttemptArguments
  completed_arguments = record (attempt_arguments p.last) {
    status = Json.str (status_text Status.succeeded);
    ended_at = Json.str m.now;
    output_reference_id = Json.str output;
    take_id = Json.str take_of;
    error = Json.null;
  }

  completed_is_made : make_attempt completed_arguments ≡ ok (completed m p.last output take_of)
  unfolding make_attempt completed_arguments attempt_arguments identifier index_of full_text
      optional_text optional_identifier bounded_error check_attempt
  completed_is_made =
      rw
        (
          validate_identifier-eq_self p.last.attempt_id s.id,
          status_of-text Status.succeeded,
          s.started,
          s.now,
          validate_identifier-eq_self output s.valid_output,
          validate_identifier-eq_self take_of s.valid_take,
        )
        refl

  completed-IsJob :
      IsJob m.portable j
      → IsJob m.portable (completed_job m j p.before (completed m p.last output take_of))
  completed-IsJob v =
      let a = completed m p.last output take_of in
      record {
        id = v.id;
        project = v.project;
        key = v.key;
        digits = v.digits;
        hex = v.hex;
        request = v.request;
        created = v.created;
        updated = s.now;
        attempts = (AllPairs-append_last OtherAttempts p.before a).1 (
            (AllPairs-append_last OtherAttempts p.before p.last).0
              (subst (AllPairs OtherAttempts) p.all v.attempts));
        counted = Counts-last 0 p.before p.last a refl (subst (Counts 0) p.all v.counted);
        agrees = success_agrees p.before a p.failed refl;
      }

  current : current_attempt j ≡ some p.last
  unfolding current_attempt
  current = ap get_last? p.all ∙ get_last-append p.before p.last

  required : j.status ≡ Status.running → require_running_attempt j p.last.attempt_id ≡ ok p.last
  unfolding require_running_attempt
  required e =
      rw (current, e, p.status, text_eq_refl p.last.attempt_id, require_running_attempt) refl

  -- The running attempt of a valid job whose attempts before it failed is completed by valid ids and
  -- times: it has succeeded with them, the attempts before it stay, and the job is valid again.
  pub succeed_total :
      IsJob m.portable j
      → j.status ≡ Status.running
      → (succeed m p.last.attempt_id (Json.str output) (Json.str take_of) j
          ≡ ok (completed_job m j p.before (completed m p.last output take_of)))
        × IsJob m.portable (completed_job m j p.before (completed m p.last output take_of))
  unfolding succeed end_attempt with_attempts completed_arguments
  succeed_total v e =
      let a = completed m p.last output take_of in
      let kept : drop_last j.attempts ≡ p.before =
        ap drop_last p.all ∙ drop_last-append p.before p.last in
      (
        rw
            (
              required e,
              completed_is_made,
              kept,
              job_valid m.portable (completed_job m j p.before a) (completed-IsJob v),
            )
            refl,
        completed-IsJob v,
      )
