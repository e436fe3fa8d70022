-- ===== src/Engine/Statuses.antt =====
-- The errors of the Agent Engine's client, and which of them are retried.
use capstone_project_git_fla.Prelude.{
  ℕ, Bool, true, false, not, ◌||◌, ◌&&◌, Option, none, some, ◌++◌, ◌≡◌, ◌⊎◌, refl, arith, Bytes,
  codes, ◌==◌, eqb, is_empty, if◌then◌else◌,
}
use capstone_project_git_fla.Text.{is_blank}
use capstone_project_git_fla.Domain.Agent.{
  AgentPlanRequest, AgentPlanResponse, AgentCodeGenerationRequest, AgentGeneratedFilesResponse,
}
use capstone_project_git_fla.Errors.{EngineError, Err, engine, Result, ok, err, ◌>>=◌, as_engine}
use capstone_project_git_fla.Workflow.{to_task_error, recoverable_task_error}
use capstone_project_git_fla.Worker.{temporary}
use capstone_project_git_fla.Engine.{
  Libraries, Sent, lost, answered, is_none, is_success, normalize_status, engine_error, check,
  check_response, decoded, accept_plan, accept_generated_files, receive, lost_error, problem_of,
  generate_plan, generate_files,
}

-- The statuses that the client's errors have.
abbrev pub IsKnownStatus : ℕ → Type 0
IsKnownStatus status =
    (status ≡ 400)
    ⊎ ((status ≡ 404) ⊎ ((status ≡ 422) ⊎ ((status ≡ 502) ⊎ ((status ≡ 503) ⊎ (status ≡ 504)))))

normalize_status-IsKnownStatus : (status : ℕ) → IsKnownStatus (normalize_status status)
unfolding normalize_status
normalize_status-IsKnownStatus status = ground arith

-- An `*agent.Error` with one of the statuses, of which the worker and `Retry` say alike whether it
-- is temporary.
abbrev pub IsClientError : Err → Type 0
IsClientError e =
    (x : EngineError) × (e ≡ engine x)
    × IsKnownStatus x.status
    × (recoverable_task_error (to_task_error e) ≡ temporary e)

or_rotate : (a b c : Bool) → (b || c || a) ≡ (a || b || c)
or_rotate true true true = refl
or_rotate true true false = refl
or_rotate true false true = refl
or_rotate true false false = refl
or_rotate false true true = refl
or_rotate false true false = refl
or_rotate false false true = refl
or_rotate false false false = refl

same_test :
    (x : EngineError) → recoverable_task_error (to_task_error (engine x)) ≡ temporary (engine x)
unfolding recoverable_task_error to_task_error temporary as_engine
same_test x =
    or_rotate
      (eqb x.status 502
        && (x.code == codes "agent_engine_unreachable" || x.code == codes "agent_engine_error"))
      (eqb x.status 503) (eqb x.status 504)

engine_error-IsClientError :
    (status : ℕ) (code detail : Bytes)
    → IsKnownStatus status
    → IsClientError (engine_error status code detail)
engine_error-IsClientError status code detail h = (_, refl, h, same_test _)

lost_error-IsClientError : (late : Bool) (detail : Bytes) → IsClientError (lost_error late detail)
unfolding lost_error
lost_error-IsClientError true detail = engine_error-IsClientError 504 _ _ (ground arith)
lost_error-IsClientError false detail = engine_error-IsClientError 502 _ _ (ground arith)

problem_of-IsClientError :
    (status : ℕ) (problem : Bytes × Bytes) → IsClientError (problem_of status problem)
unfolding problem_of
problem_of-IsClientError status (detail, code) =
    engine_error-IsClientError (normalize_status status) _ _ (normalize_status-IsKnownStatus status)

-- A client's error that is not retried.
abbrev pub IsFinal : Err → Type 0
IsFinal e = IsClientError e × (temporary e ≡ false)

-- The outcome is a value, or an error with the property.
abbrev pub ErrIs : {A : Type 0} → (Err → Type 0) → Result A → Type 0
ErrIs P (ok a) = Unit {0}
ErrIs P (err e) = P e

ErrIs-bind :
    {A B : Type 0} (P : Err → Type 0) (m : Result A) (k : A → Result B)
    → ErrIs P m
    → ((a : A) → ErrIs P (k a))
    → ErrIs P (m >>= k)
ErrIs-bind P (ok a) k h f = f a
ErrIs-bind P (err e) k h f = h

check-ErrIs :
    (P : Err → Type 0) (b : Bool) (status : ℕ) (code detail : Bytes)
    → P (engine_error status code detail)
    → ErrIs P (check b status code detail)
check-ErrIs P true status code detail h = tt
check-ErrIs P false status code detail h = h

-- the codes of the refusals
module _ (detail : Bytes) where
  mismatch-IsFinal : IsFinal (engine_error 502 (codes "request_id_mismatch") detail)
  unfolding temporary as_engine ◌==◌
  mismatch-IsFinal = (engine_error-IsClientError 502 _ detail (ground arith), refl)

  invalid_status-IsFinal : IsFinal (engine_error 502 (codes "invalid_agent_status") detail)
  unfolding temporary as_engine ◌==◌
  invalid_status-IsFinal = (engine_error-IsClientError 502 _ detail (ground arith), refl)

  invalid_response-IsFinal : IsFinal (engine_error 502 (codes "invalid_agent_response") detail)
  unfolding temporary as_engine ◌==◌
  invalid_response-IsFinal = (engine_error-IsClientError 502 _ detail (ground arith), refl)

  empty_output-IsFinal : IsFinal (engine_error 422 (codes "empty_output") detail)
  unfolding temporary as_engine ◌==◌
  empty_output-IsFinal = (engine_error-IsClientError 422 _ detail (ground arith), refl)

decoded-IsFinal : {A : Type 0} (o : Option A) → ErrIs IsFinal (decoded o)
decoded-IsFinal none = invalid_response-IsFinal _
decoded-IsFinal (some a) = tt

check_response-IsFinal :
    (request_id response_id status detail : Bytes)
    → ErrIs IsFinal (check_response request_id response_id status detail)
unfolding check_response
check_response-IsFinal request_id response_id status detail =
    ErrIs-bind IsFinal (check (is_empty response_id || response_id == request_id) 502 _ _) _
      (check-ErrIs IsFinal (is_empty response_id || response_id == request_id) 502 _ _
        (mismatch-IsFinal detail))
      (λ u.
        check-ErrIs IsFinal (is_empty status || status == codes "completed") 502 _ _
          (invalid_status-IsFinal _))

accept_plan-IsFinal :
    (request : AgentPlanRequest) (o : Option AgentPlanResponse)
    → ErrIs IsFinal (accept_plan request o)
unfolding accept_plan
accept_plan-IsFinal request o = ErrIs-bind IsFinal (decoded o) _ (decoded-IsFinal o) (λ r.
    ErrIs-bind IsFinal (check_response request.request_id r.request_id r.status _) _
      (check_response-IsFinal request.request_id r.request_id r.status _)
      (λ u.
        ErrIs-bind IsFinal (check (not (is_blank r.plan_markdown)) 422 _ _) _
          (check-ErrIs IsFinal (not (is_blank r.plan_markdown)) 422 _ _ (empty_output-IsFinal _))
          (λ u. tt)))

accept_generated_files-IsFinal :
    (request : AgentCodeGenerationRequest) (o : Option AgentGeneratedFilesResponse)
    → ErrIs IsFinal (accept_generated_files request o)
unfolding accept_generated_files
accept_generated_files-IsFinal request o =
    ErrIs-bind IsFinal (decoded o) _ (decoded-IsFinal o) (λ r.
      ErrIs-bind IsFinal (check_response request.request_id r.request_id r.status _) _
        (check_response-IsFinal request.request_id r.request_id r.status _)
        (λ u.
          ErrIs-bind IsFinal (check (not (is_none r.files)) 422 _ _) _
            (check-ErrIs IsFinal (not (is_none r.files)) 422 _ _ (empty_output-IsFinal _))
            (λ u. tt)))

-- The outcome by what was sent back: nothing, a success, or another status.
abbrev pub ByStatus : {A : Type 0} → Bool → Result A → Type 0
ByStatus true result = ErrIs IsFinal result
ByStatus false result = (e : Err) × (result ≡ err e) × IsClientError e

abbrev pub ByAnswer : {A : Type 0} → Sent → Result A → Type 0
ByAnswer (lost late) result = (e : Err) × (result ≡ err e) × IsClientError e × (temporary e ≡ true)
ByAnswer (answered status body) result = ByStatus (is_success status) result

lost_error-temporary : (late : Bool) (detail : Bytes) → temporary (lost_error late detail) ≡ true
unfolding lost_error temporary as_engine ◌==◌
lost_error-temporary true detail = refl
lost_error-temporary false detail = refl

receive-ByAnswer :
    {A : Type 0} (decode_problem : Bytes → Bytes × Bytes) (accept : Bytes → Result A)
    (detail : Bytes) (sent : Sent)
    → ((text : Bytes) → ErrIs IsFinal (accept text))
    → ByAnswer sent (receive decode_problem accept detail sent)
unfolding receive
receive-ByAnswer decode_problem accept detail (lost late) h = (
  lost_error late detail,
  refl,
  lost_error-IsClientError late detail,
  lost_error-temporary late detail,
)
receive-ByAnswer decode_problem accept detail (answered status body) h = step (is_success status)
  where
    step :
        (b : Bool)
        → ByStatus b (if b then accept body else err (problem_of status (decode_problem body)))
    step true = h body
    step false = (
      problem_of status (decode_problem body),
      refl,
      problem_of-IsClientError status (decode_problem body),
    )

module _ (libraries : Libraries) (base_url : Bytes) where
  -- A request for a plan or for files that can be encoded and made fails with an `*agent.Error` only, whose status is 400, 404, 422, 502, 503 or 504, and of which the worker and the command `Retry` say alike whether it is temporary. Without an answer it fails, and the error is temporary; with a status outside 200 to 299 it fails; and the refusal of an answer with a status from 200 to 299 is not temporary.
  pub generate-ByAnswer :
      (plan : AgentPlanRequest) (files : AgentCodeGenerationRequest) (plan_body files_body : Bytes)
      → libraries.encode_plan plan ≡ ok plan_body
      → libraries.encode_files files ≡ ok files_body
      → libraries.new_request (base_url ++ codes "/v1/plans/generate") ≡ ok tt
      → libraries.new_request (base_url ++ codes "/v1/files/generate") ≡ ok tt
      → ByAnswer
          (libraries.send (base_url ++ codes "/v1/plans/generate") plan_body)
          (generate_plan libraries base_url plan)
        × ByAnswer
            (libraries.send (base_url ++ codes "/v1/files/generate") files_body)
            (generate_files libraries base_url files)
  unfolding generate_plan generate_files
  generate-ByAnswer plan files plan_body files_body p f p' f' = (
    rw (generate_plan, p, p')
        (receive-ByAnswer libraries.decode_problem _ (codes "Agent Engine request timed out")
          (libraries.send (base_url ++ codes "/v1/plans/generate") plan_body)
          (λ text. accept_plan-IsFinal plan (libraries.decode_plan text))),
    rw (generate_files, f, f')
        (receive-ByAnswer libraries.decode_problem _
          (codes "Agent Engine code generation request timed out")
          (libraries.send (base_url ++ codes "/v1/files/generate") files_body)
          (λ text. accept_generated_files-IsFinal files (libraries.decode_files text))),
  )
