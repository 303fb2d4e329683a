-- ===== src/Generation/Jobs/Lifecycle.antt =====
-- What a job can have been through: the attempts before the last one have all failed.
use uv_studio.Base.{
  ◌⊎◌, ◌≡◌, refl, sym, ap, ◌∙◌, true, List, [], ◌∷◌, ◌++◌, Text, ◌==◌, get_last?, drop_last, All,
  ok, raise_if, >>=-eq-ok, ok_inj, arith, inl, inr, Option-cases,
}
use uv_studio.Json.{Json}
use uv_studio.Generation.Jobs.Attempt.{
  Status, status_text, status_of, Attempt, AttemptArguments, make_attempt, check_attempt,
  pending_artifact,
}
use uv_studio.Generation.Jobs.Job.{Job, make_job, job_arguments, current_attempt, same_status}
use uv_studio.Generation.Jobs.Transitions.{
  Moment, with_attempts, started_attempt, start_attempt, start_execution, require_running_attempt,
  end_attempt, new_job,
}

pub status_of-text : (s : Status) → status_of (Json.str (status_text s)) ≡ ok s
unfolding status_of status_text ◌==◌
status_of-text Status.queued = refl
status_of-text Status.running = refl
status_of-text Status.succeeded = refl
status_of-text Status.failed = refl
status_of-text Status.cancelled = refl

check_attempt-eq-ok : (a b : Attempt) → check_attempt a ≡ ok b → a ≡ b
unfolding check_attempt
check_attempt-eq-ok a b h = ground arith

-- The attempt has the status and the id that it is constructed with.
pub make_attempt_inv :
    (a : AttemptArguments) (b : Attempt)
    → make_attempt a ≡ ok b
    → (status_of a.status ≡ ok b.status)
unfolding make_attempt
make_attempt_inv a b h = ground arith

pub with_attempts_inv :
    (m : Moment) (j k : Job) (s : Status) (t : Text) (xs : List Attempt)
    → with_attempts m j s t xs ≡ ok k
    → (k.status ≡ s) × (k.attempts ≡ xs)
unfolding with_attempts make_job job_arguments
with_attempts_inv m j k s t xs h = ground (arith, status_of-text s)

pub drop_last-append : (xs : List Attempt) (a : Attempt) → drop_last (xs ++ a ∷ []) ≡ xs
drop_last-append [] a = refl
drop_last-append (x ∷ []) a = refl
drop_last-append (x ∷ y ∷ xs) a = ap (◌∷◌ x) (drop_last-append (y ∷ xs) a)

abbrev pub Failed : List Attempt → Type 0
Failed = All (λ a. a.status ≡ Status.failed)

-- The last attempt has the status, and all before it have failed.
pub record Ends (s : Status) (xs : List Attempt) : Type 0 where
  pub before : List Attempt
  pub last : Attempt
  pub all : xs ≡ before ++ last ∷ []
  pub failed : Failed before
  pub status : last.status ≡ s

-- What the attempts of a job with the status have been
abbrev pub Past : Status → List Attempt → Type 0
Past Status.queued xs = xs ≡ []
Past Status.cancelled xs = (xs ≡ []) ⊎ Ends Status.cancelled xs
Past Status.running xs = Ends Status.running xs
Past Status.succeeded xs = Ends Status.succeeded xs
Past Status.failed xs = Ends Status.failed xs

pub new_job-queued :
    (m : Moment) (project key digest request : Json) (j : Job)
    → new_job m project key digest request ≡ ok j
    → (j.status ≡ Status.queued) × (j.attempts ≡ [])
unfolding new_job make_job
new_job-queued m project key digest request j h = ground (arith, status_of-text Status.queued)

-- An attempt that is constructed with a status has it.
constructed_status :
    (a : AttemptArguments) (b : Attempt) (s : Status)
    → make_attempt a ≡ ok b
    → a.status ≡ Json.str (status_text s)
    → b.status ≡ s
constructed_status a b s h e =
    sym (ok_inj (sym (status_of-text s) ∙ ap status_of (sym e) ∙ make_attempt_inv a b h))

pub start_attempt_inv :
    (m : Moment) (j k : Job)
    → start_attempt m j ≡ ok k
    → (a : Attempt) × (a.status ≡ Status.running)
      × (k.status ≡ Status.running)
      × (k.attempts ≡ j.attempts ++ a ∷ [])
unfolding start_attempt started_attempt
start_attempt_inv m j k h =
    let (a, made, k1) = >>=-eq-ok (make_attempt (started_attempt m j)) _ h in
    let (status, attempts) =
      with_attempts_inv m j k Status.running m.later (j.attempts ++ a ∷ []) k1 in
    (a, constructed_status (started_attempt m j) a Status.running made refl, status, attempts)

-- Execution starts on a queued job, or on a failed one.
pub start_from :
    (m : Moment) (j k : Job) (s : Status)
    → j.status ≡ s
    → start_execution m j ≡ ok k
    → ((s ≡ Status.queued) ⊎ (s ≡ Status.failed)) × (start_attempt m j ≡ ok k)
unfolding start_execution
start_from m j k Status.queued e h = (inl refl, rw (e, start_execution) at h)
start_from m j k Status.failed e h =
    let (_, _, k1) =
      >>=-eq-ok (raise_if m.unreconciled pending_artifact) (λ _. start_attempt m j)
        (rw (e, start_execution) at h) in
    (inr refl, k1)
start_from m j k Status.running e h = let r = rw (e, start_execution) at h in cc
start_from m j k Status.succeeded e h = let r = rw (e, start_execution) at h in cc
start_from m j k Status.cancelled e h = let r = rw (e, start_execution) at h in cc

pub end_attempt_inv :
    (m : Moment) (j k : Job) (arguments : AttemptArguments) (s : Status)
    → arguments.status ≡ Json.str (status_text s)
    → end_attempt m j arguments s ≡ ok k
    → (a : Attempt) × (a.status ≡ s)
      × (k.status ≡ s)
      × (k.attempts ≡ drop_last j.attempts ++ a ∷ [])
unfolding end_attempt
end_attempt_inv m j k arguments s e h =
    let (a, made, k1) = >>=-eq-ok (make_attempt arguments) _ h in
    let (status, attempts) = with_attempts_inv m j k s m.now (drop_last j.attempts ++ a ∷ []) k1 in
    (a, constructed_status arguments a s made e, status, attempts)

pub is_running : (s : Status) → same_status s Status.running ≡ true → s ≡ Status.running
is_running Status.running h = refl
is_running Status.queued h = cc
is_running Status.succeeded h = cc
is_running Status.failed h = cc
is_running Status.cancelled h = cc

pub required_running :
    (j : Job) (id : Text) (a : Attempt)
    → require_running_attempt j id ≡ ok a
    → j.status ≡ Status.running
unfolding require_running_attempt current_attempt
required_running j id a h = elim (Option-cases (get_last? j.attempts)) [
  | inl e ↦ let r = rw (e, require_running_attempt, current_attempt) at h in cc
  | inr (b, e) ↦
      let r = rw (e, require_running_attempt, current_attempt) at h in
      ground (arith, is_running j.status)
]

-- A transition that ends the running attempt, which was the last.
pub ended-Past :
    (xs ys : List Attempt) (a : Attempt) (s : Status)
    → Ends Status.running xs
    → a.status ≡ s
    → ys ≡ drop_last xs ++ a ∷ []
    → Ends s ys
ended-Past xs ys a s p e same = record {
  before = p.before;
  last = a;
  all =
      same
      ∙ ap (λ xs. drop_last xs ++ a ∷ []) p.all
      ∙ ap (λ xs. xs ++ a ∷ []) (drop_last-append p.before p.last);
  failed = p.failed;
  status = e;
}
