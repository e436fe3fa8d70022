-- ===== src/Engine.antt =====
-- The Agent Engine's client (backend/internal/agent/client.go): `Ready`, `GeneratePlan` and
-- `GenerateFiles`. JSON and HTTP are parameters; of a response, its status and its body.
pub mod Answers
pub mod Accepts
pub mod Statuses
mod Samples
use capstone_project_git_fla.Prelude.{
  ℕ, Bool, true, false, not, ◌&&◌, ◌||◌, Option, none, some, List, [], ◌∷◌, ◌++◌, reverse, Bytes,
  codes, ◌==◌, is_empty, eqb, leb, if◌then◌else◌,
}
use capstone_project_git_fla.Text.{is_blank}
use capstone_project_git_fla.Decimal.Format.{format}
use capstone_project_git_fla.Domain.{GeneratedFileOperation}
use capstone_project_git_fla.Domain.Agent.{
  AgentPlanRequest, AgentPlanResponse, AgentCodeGenerationRequest, AgentGeneratedFilesResponse,
}
use capstone_project_git_fla.Errors.{Err, about, engine, Result, ok, err, ◌>>=◌, ◌>>◌}

-- What `httpClient.Do` returns: an error, after the deadline or not, or a response.
pub data Sent : Type 0 where
  lost : Bool → Sent
  answered : ℕ → Bytes → Sent

-- encoding/json and net/http. A decoder keeps what it has read of a problem before an error.
pub record Libraries : Type 0 where
  pub encode_plan : AgentPlanRequest → Result Bytes
  pub encode_files : AgentCodeGenerationRequest → Result Bytes
  pub decode_plan : Bytes → Option AgentPlanResponse
  pub decode_files : Bytes → Option AgentGeneratedFilesResponse
  -- the detail and the code of a problem
  pub decode_problem : Bytes → Bytes × Bytes
  -- an error of `http.NewRequestWithContext` for the address
  pub new_request : Bytes → Result (Unit {0})
  pub send : Bytes → Bytes → Sent

abbrev engine_error : ℕ → Bytes → Bytes → Err
engine_error status code detail = engine (record { status = status; code = code; detail = detail })

unfoldable pub normalize_status : ℕ → ℕ
normalize_status status =
    if eqb status 400
      || eqb status 404
      || eqb status 422
      || eqb status 502
      || eqb status 503
      || eqb status 504
    then status
    else 502

abbrev or_default : Bytes → Bytes → Bytes
or_default value default = if is_empty value then default else value

-- the error for a response that is no success
unfoldable pub problem_of : ℕ → Bytes × Bytes → Err
problem_of status (detail, code) =
    engine_error (normalize_status status) (or_default code (codes "agent_engine_error"))
      (or_default detail (codes "Agent Engine returned status " ++ format status))

abbrev pub is_success : ℕ → Bool
is_success status = leb 200 status && leb status 299

unfoldable pub lost_error : Bool → Bytes → Err
lost_error true timeout_detail = engine_error 504 (codes "inference_timeout") timeout_detail
lost_error false timeout_detail =
    engine_error 502 (codes "agent_engine_unreachable") (codes "Agent Engine is unreachable")

abbrev check : Bool → ℕ → Bytes → Bytes → Result (Unit {0})
check good status code detail = if good then ok tt else err (engine_error status code detail)

-- The checks that both responses have: the request's id and the status.
unfoldable pub check_response : Bytes → Bytes → Bytes → Bytes → Result (Unit {0})
check_response request_id response_id status mismatch_detail =
    check (is_empty response_id || response_id == request_id) 502 (codes "request_id_mismatch")
      mismatch_detail
    >> check (is_empty status || status == codes "completed") 502 (codes "invalid_agent_status")
        (codes "Agent Engine returned unexpected status \"" ++ status ++ codes "\"")

abbrev decoded : {A : Type 0} → Option A → Result A
decoded none =
    err (
      engine_error 502 (codes "invalid_agent_response")
        (codes "Agent Engine returned invalid JSON"))
decoded (some response) = ok response

unfoldable pub accept_plan : AgentPlanRequest → Option AgentPlanResponse → Result AgentPlanResponse
accept_plan request response = do
  result ← decoded response
  check_response request.request_id result.request_id result.status
      (codes "Agent Engine returned a result for a different task")
  check (not (is_blank result.plan_markdown)) 422 (codes "empty_output")
      (codes "Agent Engine returned an empty plan")
  ok result

abbrev pub is_none : {A : Type 0} → List A → Bool
is_none [] = true
is_none (_ ∷ _) = false

unfoldable pub accept_generated_files :
    AgentCodeGenerationRequest
    → Option AgentGeneratedFilesResponse
    → Result AgentGeneratedFilesResponse
accept_generated_files request response = do
  result ← decoded response
  check_response request.request_id result.request_id result.status
      (codes "Agent Engine returned a file contract for a different task")
  check (not (is_none result.files)) 422 (codes "empty_output")
      (codes "Agent Engine returned no generated file operations")
  ok result

-- The answer to a request, by what accepts the body of a success.
unfoldable pub receive :
    {A : Type 0} → (Bytes → Bytes × Bytes) → (Bytes → Result A) → Bytes → Sent → Result A
receive decode_problem accept timeout_detail (lost late) = err (lost_error late timeout_detail)
receive decode_problem accept timeout_detail (answered status body) =
    if is_success status then accept body else err (problem_of status (decode_problem body))

-- strings.TrimRight(baseURL, "/")
trim_slashes : Bytes → Bytes
trim_slashes [] = []
trim_slashes (c ∷ s) =
    let rest = trim_slashes s in if eqb c b'/' && is_empty rest then [] else c ∷ rest

abbrev not_ready : ℕ → Err
not_ready status = about "Agent Engine readiness returned status " (format status) ""

module _ (libraries : Libraries) where
  -- `NewClient`: the address that requests begin with
  unfoldable pub new_client : Bytes → Bytes
  unfolding trim_slashes
  new_client base_url = trim_slashes base_url

  -- `get` is the `Do` of a request without a body: an error, or the status.
  unfoldable pub ready : (Bytes → Result ℕ) → Bytes → Result (Unit {0})
  ready get base_url = do
    libraries.new_request (base_url ++ codes "/ready")
    status ← get (base_url ++ codes "/ready")
    if is_success status then ok tt else err (not_ready status)

  unfoldable pub generate_plan : Bytes → AgentPlanRequest → Result AgentPlanResponse
  generate_plan base_url payload = do
    body ← libraries.encode_plan payload
    libraries.new_request (base_url ++ codes "/v1/plans/generate")
    receive libraries.decode_problem (λ text. accept_plan payload (libraries.decode_plan text))
        (codes "Agent Engine request timed out")
        (libraries.send (base_url ++ codes "/v1/plans/generate") body)

  unfoldable pub generate_files :
      Bytes → AgentCodeGenerationRequest → Result AgentGeneratedFilesResponse
  generate_files base_url payload = do
    body ← libraries.encode_files payload
    libraries.new_request (base_url ++ codes "/v1/files/generate")
    receive libraries.decode_problem
        (λ text. accept_generated_files payload (libraries.decode_files text))
        (codes "Agent Engine code generation request timed out")
        (libraries.send (base_url ++ codes "/v1/files/generate") body)
