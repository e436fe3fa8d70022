-- ===== src/Workflow/Commands.antt =====
-- The commands of a user: `Analyze`, `Correct`, `Retry`, `Approve` and `Reject`
-- (backend/internal/service/workflow.go).
use capstone_project_git_fla.Prelude.{
  Bool, true, false, not, ◌||◌, Option, none, some, List, [], ◌∷◌, ◌++◌, Bytes, ◌==◌, is_empty,
  if◌then◌else◌,
}
use capstone_project_git_fla.Text.{trim_space, is_blank}
use capstone_project_git_fla.Config.{parse_ai_config}
use capstone_project_git_fla.Plan.{validate_plan}
use capstone_project_git_fla.Domain.{
  IssueAnalyzeRequest, IssueSession, AgentTask, approved, code_generation_queued,
  correction_requested, rejected, TaskType, initial_plan, plan_revision, code_generation, incr,
}
use capstone_project_git_fla.Domain.Agent.{AgentJob, no_plan_request, no_code_request}
use capstone_project_git_fla.Errors.{Err, text, about, not_found, wrapped, Result, ok, err, guard}
use capstone_project_git_fla.Workflow.{
  queued_status_for_task, is_plan_generated, is_generating, is_past_approval, status_text,
  is_retryable, dispatch,
}
use capstone_project_git_fla.Workflow.Effects.{
  Env, Action, ◌>>=◌, ◌>>◌, pure, raise, lift, peek, get_session, get_task, get_latest_task,
  save_session, save_task, add_task, open_session,
}
use capstone_project_git_fla.Workflow.Requests.{
  repository_files_for_session, agent_request, code_generation_request, branch_pr_payload,
  validate_analyze,
}

abbrev pub is_not_found : Err → Bool
is_not_found not_found = true
is_not_found _ = false

-- the last entry, if there is one
unfoldable pub last_feedback : List Bytes → Option Bytes
last_feedback [] = none
last_feedback (f ∷ []) = some f
last_feedback (f ∷ g ∷ fs) = last_feedback (g ∷ fs)

module _ (env : Env) where
  unfoldable pub start_initial_plan : Bytes → IssueSession → Action (IssueSession × AgentTask)
  start_initial_plan issue_id session = do
    task ← add_task env session.id issue_id initial_plan
    dispatch env (record {
      task_id = task.id;
      session_id = session.id;
      kind = task.kind;
      attempt = 1;
      request = agent_request task.id session none none;
      code_generation_request = no_code_request;
    })
    pure (session, task)

  -- a session that was there already: its latest task, or a first one if it has none yet
  unfoldable pub resume_session :
      Bytes → IssueSession → Result AgentTask → Action (IssueSession × AgentTask)
  resume_session issue_id session (ok task) = pure (session, task)
  resume_session issue_id session (err e) =
      if not (is_not_found e) || not (is_generating session.status)
      then raise e
      else start_initial_plan issue_id session

  unfoldable pub analyze : IssueAnalyzeRequest → Action (IssueSession × AgentTask)
  analyze req = do
    lift (validate_analyze req)
    cfg ← lift (parse_ai_config env.to_lower env.sprint env.unmarshal req.yaml_config)
    opened ← open_session env req cfg
    if opened.1
        then start_initial_plan req.issue.id opened.0
        else peek (get_latest_task opened.0.id) (resume_session req.issue.id opened.0)

  unfoldable pub correct : Bytes → Bytes → Action AgentTask
  correct issue_id feedback = do
    lift (guard (not (is_blank feedback)) (text "feedback is required"))
    session ← get_session issue_id
    lift (
        guard (is_plan_generated session.status) (
          about "plan cannot be corrected while session status is " (status_text session.status)
            ""))
    session' ← save_session env (record session {
      status = correction_requested;
      feedback_history = session.feedback_history ++ feedback ∷ [];
    })
    task ← add_task env session'.id session'.request.issue.id plan_revision
    dispatch env (record {
      task_id = task.id;
      session_id = session'.id;
      kind = task.kind;
      attempt = 1;
      request = agent_request task.id session' (some session'.plan_markdown) (some feedback);
      code_generation_request = no_code_request;
    })
    pure task

  -- the job of a retried task
  unfoldable pub retry_job : TaskType → AgentTask → IssueSession → AgentJob
  retry_job code_generation task session = record {
    task_id = task.id;
    session_id = session.id;
    kind = task.kind;
    attempt = task.attempt;
    request = no_plan_request;
    code_generation_request = code_generation_request task.id session;
  }
  retry_job plan_revision task session = record {
    task_id = task.id;
    session_id = session.id;
    kind = task.kind;
    attempt = task.attempt;
    request =
        agent_request task.id session (some session.plan_markdown)
          (last_feedback session.feedback_history);
    code_generation_request = no_code_request;
  }
  retry_job initial_plan task session = record {
    task_id = task.id;
    session_id = session.id;
    kind = task.kind;
    attempt = task.attempt;
    request = agent_request task.id session none none;
    code_generation_request = no_code_request;
  }

  unfoldable pub retry : Bytes → Action AgentTask
  unfolding retry_job
  retry task_id = do
    failed ← get_task task_id
    lift (
        guard (is_retryable failed)
          (text "only failed tasks with a temporary Agent Engine error can be retried"))
    session ← get_session failed.session_id
    task ← add_task env session.id session.request.issue.id failed.kind
    task' ← save_task env (record task { attempt = incr failed.attempt })
    session' ← save_session env (record session { status = queued_status_for_task failed.kind })
    dispatch env (retry_job failed.kind task' session')
    pure task'

  -- the edited plan, if it is given and differs
  unfoldable pub take_edit : Option Bytes → IssueSession → Action IssueSession
  take_edit none session = pure session
  take_edit (some edited) session =
      let plan = trim_space edited in
      if is_empty plan
      then raise (text "plan_markdown cannot be empty")
      else if plan == session.plan_markdown
      then pure session
      else elim (validate_plan plan (repository_files_for_session session)) [
        | err e ↦ raise (wrapped "edited plan is invalid: " e)
        | ok u ↦
            save_session env
              (record session { plan_markdown = plan; revision = incr session.revision })
      ]

  -- what follows the checks of `Approve`
  unfoldable pub queue_code_generation : IssueSession → Action (IssueSession × AgentTask)
  queue_code_generation session = do
    session' ← save_session env (record session {
      generated_files = some (branch_pr_payload env.to_lower session);
      status = approved;
    })
    task ← add_task env session'.id session'.request.issue.id code_generation
    session'' ← save_session env (record session' { status = code_generation_queued })
    dispatch env (record {
      task_id = task.id;
      session_id = session''.id;
      kind = task.kind;
      attempt = 1;
      request = no_plan_request;
      code_generation_request = code_generation_request task.id session'';
    })
    pure (session'', task)

  unfoldable pub approve : Bytes → Option Bytes → Action (IssueSession × AgentTask)
  approve issue_id edited_plan = do
    session ← get_session issue_id
    lift (
        guard (is_plan_generated session.status) (
          about "plan cannot be approved while session status is " (status_text session.status) ""))
    session' ← take_edit edited_plan session
    queue_code_generation session'

  unfoldable pub reject : Bytes → Action IssueSession
  reject issue_id = do
    session ← get_session issue_id
    lift (guard (not (is_past_approval session.status)) (text "approved plan cannot be rejected"))
    save_session env (record session { status = rejected })
