-- ===== src/Generation/Jobs/Reachability.antt =====
-- The jobs that the transitions lead to, and the jobs that no transition changes.
use uv_studio.Base.{
  ◌≡◌, ◌⊎◌, refl, sym, ◌∙◌, List, [], ◌∷◌, ◌++◌, Text, get_last?, drop_last, All-append_last, ok,
  raised, raise_if, >>=-eq-ok, Option-cases, inl, inr,
}
use mathlib.Core.Path.{subst}
use uv_studio.Json.{Json}
use uv_studio.Generation.Jobs.Attempt.{
  JobError, Status, Attempt, pending_artifact, cannot_start, cannot_cancel, other_attempt,
}
use uv_studio.Generation.Jobs.Job.{Job, current_attempt}
use uv_studio.Generation.Jobs.Transitions.{
  Moment, start_execution, require_running_attempt, succeed, fail, cancel, new_job, Transition,
  starts, cancels, succeeds, fails, transition,
}
use uv_studio.Generation.Jobs.Lifecycle.{
  Ends, Past, Failed, with_attempts_inv, new_job-queued, start_from, start_attempt_inv,
  end_attempt_inv, required_running, ended-Past,
}

-- The jobs that are created, and those that the transitions lead to from them.
pub data Reached : Job → Type 0 where
  created :
      {j : Job} (m : Moment) (project key digest request : Json)
      → new_job m project key digest request ≡ ok j
      → Reached j
  next : {j k : Job} (t : Transition) (m : Moment) → Reached j → transition t m j ≡ ok k → Reached k

-- All attempts of a job that can be started have failed.
pub startable-Failed :
    (s : Status) (xs : List Attempt)
    → (s ≡ Status.queued) ⊎ (s ≡ Status.failed)
    → Past s xs
    → Failed xs
startable-Failed s xs (inl e) p = subst Failed (sym (subst (λ s. Past s xs) e p)) tt
startable-Failed s xs (inr e) p =
    let ends : Ends Status.failed xs = subst (λ s. Past s xs) e p in
    subst Failed (sym ends.all) (
      (All-append_last (λ b. b.status ≡ Status.failed) ends.before ends.last).1
        (ends.failed, ends.status))

started-Past :
    (s : Status) (xs : List Attempt) (a : Attempt)
    → (s ≡ Status.queued) ⊎ (s ≡ Status.failed)
    → Past s xs
    → a.status ≡ Status.running
    → Ends Status.running (xs ++ a ∷ [])
started-Past s xs a from p r = record {
  before = xs;
  last = a;
  all = refl;
  failed = startable-Failed s xs from p;
  status = r;
}

-- The past of a job after the end of its running attempt
end-Past :
    (j k : Job) (a : Attempt) (s : Status)
    → Ends Status.running j.attempts
    → a.status ≡ s
    → k.attempts ≡ drop_last j.attempts ++ a ∷ []
    → Ends s k.attempts
end-Past j k a s = ended-Past j.attempts k.attempts a s

running-Past :
    (j : Job)
    → j.status ≡ Status.running
    → Past j.status j.attempts
    → Ends Status.running j.attempts
running-Past j e = subst (λ s. Past s j.attempts) e

cancel-Past :
    (m : Moment) (j k : Job) (s : Status)
    → j.status ≡ s
    → Past s j.attempts
    → cancel m j ≡ ok k
    → Past k.status k.attempts
unfolding cancel current_attempt
cancel-Past m j k Status.queued e p h =
    let (status, attempts) =
      with_attempts_inv m j k Status.cancelled m.now j.attempts (rw (e, cancel) at h) in
    subst (λ s. Past s k.attempts) (sym status) (inl (attempts ∙ p))
cancel-Past m j k Status.running e p h = elim (Option-cases (get_last? j.attempts)) [
  | inl last ↦ let r = rw (e, last, cancel, current_attempt) at h in cc
  | inr (a, last) ↦
      let (_, _, k1) =
        >>=-eq-ok (raise_if m.unreconciled pending_artifact) _
          (rw (e, last, cancel, current_attempt) at h) in
      let (b, is, status, attempts) = end_attempt_inv m j k _ Status.cancelled refl k1 in
      subst (λ s. Past s k.attempts) (sym status)
        (inr (end-Past j k b Status.cancelled p is attempts))
]
cancel-Past m j k Status.succeeded e p h = let r = rw (e, cancel) at h in cc
cancel-Past m j k Status.failed e p h = let r = rw (e, cancel) at h in cc
cancel-Past m j k Status.cancelled e p h = let r = rw (e, cancel) at h in cc

transition-Past :
    (t : Transition) (m : Moment) (j k : Job)
    → Past j.status j.attempts
    → transition t m j ≡ ok k
    → Past k.status k.attempts
unfolding transition succeed fail
transition-Past starts m j k p h =
    let (from, h1) = start_from m j k j.status refl h in
    let (a, is, status, attempts) = start_attempt_inv m j k h1 in
    subst (λ s. Past s k.attempts) (sym status)
      (subst (Ends Status.running) (sym attempts) (started-Past j.status j.attempts a from p is))
transition-Past cancels m j k p h = cancel-Past m j k j.status refl p h
transition-Past (succeeds id output take_id) m j k p h =
    let (a, required, h1) = >>=-eq-ok (require_running_attempt j id) _ h in
    let (b, is, status, attempts) = end_attempt_inv m j k _ Status.succeeded refl h1 in
    subst (λ s. Past s k.attempts) (sym status)
      (end-Past j k b Status.succeeded (running-Past j (required_running j id a required) p) is
        attempts)
transition-Past (fails id error) m j k p h =
    let (a, required, h1) = >>=-eq-ok (require_running_attempt j id) _ h in
    let (_, _, h2) = >>=-eq-ok (raise_if m.unreconciled pending_artifact) _ h1 in
    let (b, is, status, attempts) = end_attempt_inv m j k _ Status.failed refl h2 in
    subst (λ s. Past s k.attempts) (sym status)
      (end-Past j k b Status.failed (running-Past j (required_running j id a required) p) is
        attempts)

-- The attempts of every job that creation and the four methods lead to, where the recovery puts no
-- failed job back into the queue and completes no attempt itself: a queued job has none; a
-- running, succeeded or failed job has a last attempt of that status, and all before it failed; a
-- cancelled job has none, or its last was cancelled and all before it failed.
pub Reached-Past : {j : Job} → Reached j → Past j.status j.attempts
Reached-Past (created {j} m project key digest request h) =
    let (status, attempts) = new_job-queued m project key digest request j h in
    subst (λ s. Past s j.attempts) (sym status) attempts
Reached-Past (next {j} {k} t m r h) = transition-Past t m j k (Reached-Past r) h

not_required :
    (j : Job) (id : Text)
    → (j.status ≡ Status.succeeded) ⊎ (j.status ≡ Status.cancelled)
    → require_running_attempt j id ≡ raised other_attempt
unfolding require_running_attempt current_attempt
not_required j id h = elim (Option-cases (get_last? j.attempts)) [
  | inl last ↦ rw (last, require_running_attempt, current_attempt) refl
  | inr (a, last) ↦ elim h [
    | inl e ↦ rw (last, e, require_running_attempt, current_attempt) refl
    | inr e ↦ rw (last, e, require_running_attempt, current_attempt) refl
  ]
]

-- A succeeded or cancelled job stays what it is: every transition raises.
pub transition_final :
    (t : Transition) (m : Moment) (j : Job)
    → (j.status ≡ Status.succeeded) ⊎ (j.status ≡ Status.cancelled)
    → (e : JobError) × (transition t m j ≡ raised e)
unfolding transition start_execution cancel succeed fail
transition_final starts m j (inl e) = (cannot_start, rw (e, transition, start_execution) refl)
transition_final starts m j (inr e) = (cannot_start, rw (e, transition, start_execution) refl)
transition_final cancels m j (inl e) = (cannot_cancel, rw (e, transition, cancel) refl)
transition_final cancels m j (inr e) = (cannot_cancel, rw (e, transition, cancel) refl)
transition_final (succeeds id output take_id) m j h = (other_attempt, rw (not_required j id h) refl)
transition_final (fails id error) m j h = (other_attempt, rw (not_required j id h) refl)
