-- ===== src/Workflow/Execute.antt =====
-- The execution of a task: `ExecuteTask`, its two halves, and `RetryTask`
-- (backend/internal/service/workflow.go). Metrics are left out.
use capstone_project_git_fla.Prelude.{
  Option, none, some, List, [], ◌∷◌, ◌++◌, map, Bytes, codes, is_empty, if◌then◌else◌, length,
}
use capstone_project_git_fla.Plan.{validate_plan}
use capstone_project_git_fla.Paths.{normalize_plan_path}
use capstone_project_git_fla.Domain.{
  RepositoryFile, RelevantFile, GeneratedFileOperation, IssueSession, AgentTask, TaskStatus,
  plan_generated, code_generated, TaskType, code_generation, incr,
}
use capstone_project_git_fla.Domain.Agent.{
  AgentJob, AgentPlanResponse, AgentCodeGenerationRequest, AgentGeneratedFilesResponse,
}
use capstone_project_git_fla.Errors.{Err, text, engine, Result, ok, err, message}
use capstone_project_git_fla.Generated.{normalize_generated_files}
use capstone_project_git_fla.Generated.Filters.{
  drop_noop_generated_files, drop_unsafe_partial_modify_files,
}
use capstone_project_git_fla.Generated.Validation.{validate_generated_files}
use capstone_project_git_fla.Workflow.{
  queued_status_for_task, processing_status_for_task, fail_task,
}
use capstone_project_git_fla.Workflow.Effects.{
  Env, Generator, Action, ◌>>=◌, ◌>>◌, pure, raise, or_fail, get_session, get_task, save_session,
  save_task,
}
use capstone_project_git_fla.Workflow.Requests.{code_generation_request, branch_pr_payload}

abbrev pub unprocessable : Bytes → Bytes → Err
unprocessable code detail = engine (record { status = 422; code = code; detail = detail })

-- an error of a check becomes an `*agent.Error` with its text
unfoldable pub invalid_if : Bytes → Result (Unit {0}) → Result (Unit {0})
invalid_if code (ok u) = ok u
invalid_if code (err e) = err (unprocessable code (message e))

refuse_empty : Bytes → List GeneratedFileOperation → List GeneratedFileOperation → Result (Unit {0})
refuse_empty detail (f ∷ fs) [] = err (unprocessable (codes "invalid_generated_files") detail)
refuse_empty detail before after = ok tt

or_panic : {A : Type 0} → Option A → Result A
or_panic none = err (text "panic: index out of range")
or_panic (some a) = ok a

abbrev pub mark_valid : GeneratedFileOperation → GeneratedFileOperation
mark_valid file = record file { path = normalize_plan_path file.path; status = codes "valid" }

infixl 5 ◌⟫=◌
abbrev ◌⟫=◌ : {A B : Type 0} → Result A → (A → Result B) → Result B
ok a ⟫= f = f a
err e ⟫= f = err e

-- From the response of the Agent Engine to the files that are stored.
unfoldable pub accept_files :
    List RepositoryFile → List GeneratedFileOperation → Result (List GeneratedFileOperation)
unfolding refuse_empty or_panic
accept_files repository_files files = or_panic (normalize_generated_files files) ⟫= λ merged.
    let without_noops = drop_noop_generated_files merged repository_files in
    refuse_empty (codes "Agent Engine returned only unchanged modify operations") merged
      without_noops
    ⟫= λ _.
        let kept = drop_unsafe_partial_modify_files without_noops repository_files in
        refuse_empty (codes "Agent Engine returned only incomplete modify operations") without_noops
          kept
        ⟫= λ _.
            invalid_if (codes "invalid_generated_files")
              (validate_generated_files kept repository_files)
            ⟫= λ _. ok (map mark_valid kept)

abbrev pub relevant_path : RelevantFile → RepositoryFile
relevant_path file = record { path = file.path; content = []; kind = [] }

module _ (env : Env) where
  -- what follows the answer of the Agent Engine; until it comes other commands may run
  unfoldable pub complete_plan_task :
      Result AgentPlanResponse → AgentTask → AgentJob → Action (Unit {0})
  complete_plan_task response task job = do
    result ← or_fail response (fail_task env job.task_id)
    or_fail
        (invalid_if (codes "invalid_output") (
          validate_plan result.plan_markdown
            (job.request.repository_files ++ map relevant_path result.relevant_files)))
        (fail_task env job.task_id)
    task' ← save_task env (record task {
      status = TaskStatus.completed;
      plan_markdown = result.plan_markdown;
      relevant_files = result.relevant_files;
      model = result.model;
      usage = result.usage;
      tool_execution_summary = env.plan_summary result.model result.usage;
    })
    session ← get_session task'.session_id
    save_session env (record session {
      plan_markdown = result.plan_markdown;
      status = plan_generated;
      revision = incr session.revision;
    })
    pure tt

  unfoldable pub execute_plan_task : Generator → AgentTask → AgentJob → Action (Unit {0})
  execute_plan_task generator task job =
      complete_plan_task (generator.generate_plan job.request) task job

  abbrev pub request_of : AgentTask → IssueSession → AgentJob → AgentCodeGenerationRequest
  request_of task session job =
      if is_empty job.code_generation_request.request_id
      then code_generation_request task.id session
      else job.code_generation_request

  unfoldable pub complete_code_generation_task :
      Result AgentGeneratedFilesResponse → AgentTask → IssueSession → AgentJob → Action (Unit {0})
  complete_code_generation_task response task session job = do
    result ← or_fail response (fail_task env job.task_id)
    files ←
        or_fail (accept_files (request_of task session job).repository_files result.files)
          (fail_task env job.task_id)
    task' ← save_task env (record task {
      status = TaskStatus.completed;
      model = result.model;
      usage = result.usage;
      tool_execution_summary = env.files_summary result.model (length files) result.usage;
    })
    session' ← get_session task'.session_id
    save_session env (record session' {
      generated_files = some (record (branch_pr_payload env.to_lower session) {
        request_id = result.request_id;
        task_id = task.id;
        summary = result.summary;
        files = files;
      });
      status = code_generated;
    })
    pure tt

  unfoldable pub execute_code_generation_task :
      Generator → AgentTask → IssueSession → AgentJob → Action (Unit {0})
  execute_code_generation_task generator task session job =
      complete_code_generation_task (generator.generate_files (request_of task session job)) task
        session job

  unfoldable pub execute_by_type :
      TaskType → Generator → AgentTask → IssueSession → AgentJob → Action (Unit {0})
  execute_by_type code_generation generator task session job =
      execute_code_generation_task generator task session job
  execute_by_type _ generator task session job = execute_plan_task generator task job

  -- with a generator
  unfoldable pub run_task : Generator → AgentJob → Action (Unit {0})
  run_task generator job = do
    task ← get_task job.task_id
    task' ←
        save_task env
          (record task { status = TaskStatus.processing; attempt = job.attempt; error = none })
    session ← get_session task'.session_id
    session' ← save_session env (record session { status = processing_status_for_task task'.kind })
    execute_by_type task'.kind generator task' session' job

  unfoldable pub execute_task : AgentJob → Action (Unit {0})
  execute_task job = elim env.generator [
    | none ↦ raise (text "Agent Engine client is not configured")
    | some generator ↦ run_task generator job
  ]

  unfoldable pub retry_task : AgentJob → Action (Unit {0})
  retry_task job = do
    task ← get_task job.task_id
    task' ← save_task env (record task { status = TaskStatus.queued; attempt = job.attempt })
    session ← get_session task'.session_id
    save_session env (record session { status = queued_status_for_task task'.kind })
    pure tt
