-- ===== src/Generation/Jobs/Validity.antt =====
-- The invariant of a job, which the constructor of `GenerationJob` checks.
use mathlib.Core.Path.{subst}
use uv_studio.Base.{
  Bool, true, not, raise_if, >>=-eq-ok, ℕ, ◌+◌, ◌≡◌, ◌≢◌, ◌↔◌, refl, ap, ◌∙◌, false, List, [], ◌∷◌,
  Option, some, Text, length, all, is_empty, all_distinct, all_distinct_iff, AllPairs,
  AllPairs-of_map, ok, arith, or_raise-eq-ok, Option-cases, inl, inr, ok_inj,
}
use uv_studio.Json.{Json, Fields, equals_one}
use uv_studio.Projects.Identifiers.{
  matches_id, validate_identifier, validate_identifier-eq-ok, validate_identifier-eq_self,
}
use uv_studio.Generation.Jobs.Attempt.{
  JobError, Attempt, bad_identifier, missing_created, missing_updated, bad_schema,
  duplicate_attempt, gap_in_retries, status_of, identifier, full_text,
}
use uv_studio.Generation.Jobs.Job.{
  Job, JobArguments, make_job, job_arguments, attempt_ids, counts_from, check_status, request_of,
  digest_of, is_hex,
}
use uv_studio.Generation.Jobs.Lifecycle.{status_of-text}

-- The retry indexes count from `n`.
abbrev pub Counts : ℕ → List Attempt → Type 0
Counts n [] = Unit
Counts n (a ∷ xs) = (a.retry_index ≡ n) × Counts (n + 1) xs

pub counts_from_iff : (n : ℕ) (xs : List Attempt) → (counts_from n xs ≡ true) ↔ Counts n xs
unfolding counts_from
counts_from_iff n [] = (λ h. tt, λ h. refl)
counts_from_iff n (a ∷ xs) =
    let rest = counts_from_iff (n + 1) xs in
    (λ h. (ground arith, rest.0 (ground arith)), λ (e, k). let r = rest.1 k in ground arith)

abbrev pub OtherAttempts : Attempt → Attempt → Type 0
OtherAttempts a b = a.attempt_id ≢ b.attempt_id

-- A job: its ids and digest are well formed, its request is normalized, its attempts have
-- different ids and are numbered from 0, and its status agrees with them.
pub record IsJob (portable : Fields → Option Fields) (j : Job) : Type 0 where
  pub id : matches_id j.job_id ≡ true
  pub project : matches_id j.project_id ≡ true
  pub key : matches_id j.idempotency_key ≡ true
  pub digits : length j.request_digest ≡ 64
  pub hex : all is_hex j.request_digest ≡ true
  pub request : portable j.request ≡ some j.request
  pub created : is_empty j.created_at ≡ false
  pub updated : is_empty j.updated_at ≡ false
  pub attempts : AllPairs OtherAttempts j.attempts
  pub counted : Counts 0 j.attempts
  pub agrees : check_status j.status j.attempts ≡ ok tt

distinct_attempts :
    (xs : List Attempt) → (all_distinct (attempt_ids xs) ≡ true) ↔ AllPairs OtherAttempts xs
distinct_attempts xs =
    let ids = AllPairs-of_map (λ s t. s ≢ t) (λ (a : Attempt). a.attempt_id) xs in
    let iff = all_distinct_iff (attempt_ids xs) in (λ h. ids.0 (iff.0 h), λ h. iff.1 (ids.1 h))

digest_of_inv : (v : Json) (s : Text) → digest_of v ≡ ok s → (length s ≡ 64) × (all is_hex s ≡ true)
unfolding digest_of
digest_of_inv (Json.str t) s h = ground arith
digest_of_inv Json.null s h = cc
digest_of_inv (Json.bool b) s h = cc
digest_of_inv (Json.int n) s h = cc
digest_of_inv (Json.float n) s h = cc
digest_of_inv (Json.arr xs) s h = cc
digest_of_inv (Json.obj f) s h = cc

full_text_inv : (e : JobError) (v : Json) (s : Text) → full_text e v ≡ ok s → is_empty s ≡ false
unfolding full_text
full_text_inv e (Json.str t) s h = ground arith
full_text_inv e Json.null s h = cc
full_text_inv e (Json.bool b) s h = cc
full_text_inv e (Json.int n) s h = cc
full_text_inv e (Json.float n) s h = cc
full_text_inv e (Json.arr xs) s h = cc
full_text_inv e (Json.obj f) s h = cc

identifier_inv : (v : Json) (s : Text) → identifier v ≡ ok s → matches_id s ≡ true
unfolding identifier
identifier_inv v s h =
    (validate_identifier-eq-ok v s (or_raise-eq-ok (validate_identifier v) bad_identifier h)).1

request_of_inv :
    (portable : Fields → Option Fields) (v : Json) (g : Fields)
    → request_of portable v ≡ ok g
    → (f : Fields) × (portable f ≡ some g)
unfolding request_of
request_of_inv portable (Json.obj f) g h = elim (Option-cases (portable f)) [
  | inl e ↦ let r = rw (e, request_of) at h in cc
  | inr (x, e) ↦ (f, e ∙ ap some (ok_inj (rw (e, request_of) at h)))
]
request_of_inv portable (Json.str t) s h = cc
request_of_inv portable Json.null s h = cc
request_of_inv portable (Json.bool b) s h = cc
request_of_inv portable (Json.int n) s h = cc
request_of_inv portable (Json.float n) s h = cc
request_of_inv portable (Json.arr xs) s h = cc

-- A test that is not raised for has passed.
passed : (b : Bool) (e : JobError) → raise_if (not b) e ≡ ok tt → b ≡ true
passed true e h = refl
passed false e h = cc

module _ (portable : Fields → Option Fields) where
  -- Normalizing a normalized request changes nothing.
  abbrev pub IsNormal : Type 0
  IsNormal = (f g : Fields) → portable f ≡ some g → portable g ≡ some g

  -- Every job that is constructed, from any JSON values, is valid. Normalizing a request twice is
  -- supposed to be normalizing it once.
  pub make_job-IsJob :
      (a : JobArguments) (j : Job) → IsNormal → make_job portable a ≡ ok j → IsJob portable j
  unfolding make_job
  make_job-IsJob a j normal h =
      let (_, _, h1) = >>=-eq-ok (raise_if (not (equals_one a.schema_version)) bad_schema) _ h in
      let (id, is_id, h2) = >>=-eq-ok (identifier a.job_id) _ h1 in
      let (project, is_project, h3) = >>=-eq-ok (identifier a.project_id) _ h2 in
      let (key, is_key, h4) = >>=-eq-ok (identifier a.idempotency_key) _ h3 in
      let (digest, is_digest, h5) = >>=-eq-ok (digest_of a.request_digest) _ h4 in
      let (request, is_request, h6) = >>=-eq-ok (request_of portable a.request) _ h5 in
      let (status, _, h7) = >>=-eq-ok (status_of a.status) _ h6 in
      let (created, is_created, h8) = >>=-eq-ok (full_text missing_created a.created_at) _ h7 in
      let (updated, is_updated, h9) = >>=-eq-ok (full_text missing_updated a.updated_at) _ h8 in
      let (_, ids, h10) =
        >>=-eq-ok (raise_if (not (all_distinct (attempt_ids a.attempts))) duplicate_attempt) _ h9 in
      let (_, counts, h11) =
        >>=-eq-ok (raise_if (not (counts_from 0 a.attempts)) gap_in_retries) _ h10 in
      let (_, agrees, h12) = >>=-eq-ok (check_status status a.attempts) _ h11 in
      let (digits, hex) = digest_of_inv a.request_digest digest is_digest in
      let (f, portable_f) = request_of_inv portable a.request request is_request in
      subst (IsJob portable) (ok_inj h12) (record {
        id = identifier_inv a.job_id id is_id;
        project = identifier_inv a.project_id project is_project;
        key = identifier_inv a.idempotency_key key is_key;
        digits = digits;
        hex = hex;
        request = normal f request portable_f;
        created = full_text_inv missing_created a.created_at created is_created;
        updated = full_text_inv missing_updated a.updated_at updated is_updated;
        attempts =
            (distinct_attempts a.attempts).0
              (passed (all_distinct (attempt_ids a.attempts)) duplicate_attempt ids);
        counted =
            (counts_from_iff 0 a.attempts).0
              (passed (counts_from 0 a.attempts) gap_in_retries counts);
        agrees = agrees;
      })

  pub job_valid : (j : Job) → IsJob portable j → make_job portable (job_arguments j) ≡ ok j
  unfolding make_job job_arguments identifier full_text request_of digest_of equals_one
  job_valid j v =
      rw
        (
          validate_identifier-eq_self j.job_id v.id,
          validate_identifier-eq_self j.project_id v.project,
          validate_identifier-eq_self j.idempotency_key v.key,
          v.digits,
          v.hex,
          v.request,
          status_of-text j.status,
          v.created,
          v.updated,
          (distinct_attempts j.attempts).1 v.attempts,
          (counts_from_iff 0 j.attempts).1 v.counted,
          v.agrees,
        )
        refl
