-- ===== src/Workflow.antt =====
-- `Workflow` (backend/internal/service/workflow.go) over `MemoryStore`: an issue session from the
-- analysis to the generated files. Each method is an action; its child modules state what it does.
pub mod Effects
pub mod Requests
pub mod Commands
pub mod Execute
pub mod Keeps
pub mod Invariant
pub mod Sound
pub mod Outcomes
pub mod Approval
pub mod Retried
pub mod Samples
use capstone_project_git_fla.Prelude.{
  ℕ, Bool, true, false, not, ◌&&◌, ◌||◌, Option, none, some, List, [], ◌∷◌, ◌++◌, Bytes, codes,
  ◌==◌, is_empty, eqb, if◌then◌else◌,
}
use capstone_project_git_fla.Text.{trim_space, is_blank}
use capstone_project_git_fla.Config.{parse_ai_config}
use capstone_project_git_fla.Plan.{validate_plan}
use capstone_project_git_fla.Domain.{
  IssueAnalyzeRequest, IssueSession, AgentTask, TaskError, TaskStatus, SessionStatus, generating,
  plan_generated, approved, code_generation_queued, code_generation_processing, code_generated,
  correction_requested, rejected, TaskType, initial_plan, plan_revision, code_generation, incr,
}
use capstone_project_git_fla.Domain.Agent.{AgentJob, no_plan_request, no_code_request}
use capstone_project_git_fla.Errors.{
  Err, EngineError, text, about, engine, not_found, dispatch_failed, wrapped, Result, ok, err,
  guard, message, as_engine,
}
use Effects.{
  Env, World, Action, ◌>>=◌, ◌>>◌, pure, raise, lift, attempt, peek, get_session, get_task,
  get_latest_task, save_session, save_task, add_task, open_session,
}
use Requests.{
  repository_files_for_session, agent_request, code_generation_request, branch_pr_payload,
  validate_analyze,
}

unfoldable pub queued_status_for_task : TaskType → SessionStatus
queued_status_for_task code_generation = code_generation_queued
queued_status_for_task _ = generating

unfoldable pub processing_status_for_task : TaskType → SessionStatus
processing_status_for_task code_generation = code_generation_processing
processing_status_for_task _ = SessionStatus.processing

abbrev pub is_plan_generated : SessionStatus → Bool
is_plan_generated plan_generated = true
is_plan_generated _ = false

abbrev pub is_generating : SessionStatus → Bool
is_generating generating = true
is_generating _ = false

-- The statuses that `Reject` refuses.
abbrev pub is_past_approval : SessionStatus → Bool
is_past_approval approved = true
is_past_approval code_generation_queued = true
is_past_approval code_generation_processing = true
is_past_approval code_generated = true
is_past_approval _ = false

unfoldable pub status_text : SessionStatus → Bytes
status_text generating = codes "queued"
status_text SessionStatus.processing = codes "processing"
status_text plan_generated = codes "plan_generated"
status_text approved = codes "approved"
status_text code_generation_queued = codes "code_generation_queued"
status_text code_generation_processing = codes "code_generation_processing"
status_text code_generated = codes "code_generated"
status_text correction_requested = codes "correction_requested"
status_text rejected = codes "rejected"
status_text SessionStatus.failed = codes "failed"

unfoldable pub to_task_error : Err → TaskError
to_task_error e = elim (as_engine e) [
  | some x ↦ record { http_status = x.status; code = x.code; detail = x.detail }
  | none ↦ record { http_status = 502; code = codes "agent_engine_error"; detail = message e }
]

unfoldable pub recoverable_task_error : TaskError → Bool
recoverable_task_error e =
    eqb e.http_status 503
    || eqb e.http_status 504
    || (eqb e.http_status 502
        && (e.code == codes "agent_engine_unreachable" || e.code == codes "agent_engine_error"))

-- the test of `Retry`
abbrev pub is_retryable : AgentTask → Bool
is_retryable t =
    retryable_status t.status (elim t.error [ none ↦ false | some e ↦ recoverable_task_error e ])
  where
    retryable_status : TaskStatus → Bool → Bool
    retryable_status TaskStatus.failed b = b
    retryable_status _ b = false

module _ (env : Env) where
  -- a lookup of the session that fails is not an error here
  unfoldable pub fail_session : Result IssueSession → Action (Unit {0})
  fail_session (err e) = pure tt
  fail_session (ok session) =
      attempt (save_session env (record session { status = SessionStatus.failed }))

  unfoldable pub fail_task : Bytes → Err → Action (Unit {0})
  unfolding fail_session
  fail_task task_id cause = do
    task ← get_task task_id
    task' ←
        save_task env
          (record task { status = TaskStatus.failed; error = some (to_task_error cause) })
    peek (get_session task'.session_id) fail_session

  unfoldable pub refuse_job : AgentJob → Err → Action (Unit {0})
  refuse_job job e = do attempt (fail_task job.task_id e); raise (dispatch_failed e)

  unfoldable pub publish_job : AgentJob → Option Err → Action (Unit {0})
  publish_job job none w = (ok tt, record w { published = w.published ++ job ∷ [] })
  publish_job job (some e) w = refuse_job job e w

  unfoldable pub dispatch : AgentJob → Action (Unit {0})
  unfolding publish_job refuse_job
  dispatch job w = elim env.broker [
    | some publish ↦ publish_job job (publish w.published job) w
    | none ↦ elim env.generator [
      | none ↦ raise (dispatch_failed (text "task dispatcher is not configured")) w
      | some g ↦ (ok tt, record w { started = w.started ++ job ∷ [] })
    ]
  ]
