-- ===== src/Workflow/Samples.antt =====
-- A store with one session and one task, and the theorems on the workflow there.
use capstone_project_git_fla.Prelude.{
  true, ℕ, pos, true, none, some, List, [], ◌∷◌, ◌++◌, ◌≡◌, inl, refl, Bytes, codes, ◌==◌,
}
use capstone_project_git_fla.Prelude.Map.{lookup}
use capstone_project_git_fla.Domain.{
  IssueSession, AgentTask, TaskStatus, SessionStatus, generating, plan_generated, rejected,
  initial_plan, incr, AiConfig, IssueAnalyzeRequest, AgentUsage,
}
use capstone_project_git_fla.Domain.Agent.{
  AgentJob, AgentPlanResponse, no_plan_request, no_code_request,
}
use capstone_project_git_fla.Config.{mapping, stop}
use capstone_project_git_fla.Errors.{Err, text, ok, err}
use capstone_project_git_fla.Plan.Samples.{sample_plan, sample_files, accepted}
use capstone_project_git_fla.Store.{new_memory_store, session, task, resolve}
use capstone_project_git_fla.Store.WellFormed.{IsWellFormed, new_memory_store-IsWellFormed}
use capstone_project_git_fla.Workflow.{is_retryable, recoverable_task_error}
use capstone_project_git_fla.Workflow.Effects.{Env, World}
use capstone_project_git_fla.Workflow.Commands.{retry}
use capstone_project_git_fla.Workflow.Execute.{complete_plan_task}
use capstone_project_git_fla.Workflow.Sound.{
  Command, analyze_issue, correct_plan, reject_plan, perform_all, perform_all-IsWellFormed,
}
use capstone_project_git_fla.Workflow.Outcomes.{
  HasTask, HasSession, FailedWith, complete_plan_task-ok, complete_plan_task-FailedWith,
}
use capstone_project_git_fla.Workflow.Approval.{TakesJobs}
use capstone_project_git_fla.Workflow.Retried.{Retried, retry-Retried}

abbrev counted_id : ℕ → Bytes
counted_id n = codes "id" ++ n ∷ []

-- a broker that takes every job, and libraries that give back what they are given
abbrev pub sample_env : Env
sample_env = record {
  new_id = counted_id;
  now_at = λ n. n;
  broker = some (λ jobs job. none);
  generator = none;
  to_lower = λ s. s;
  sprint = λ y. [];
  unmarshal = λ s. ok (mapping stop);
  plan_summary = λ s u. s;
  files_summary = λ s n u. s;
}

abbrev sample_usage : AgentUsage
sample_usage = record {
  prompt_tokens = 1;
  completion_tokens = 2;
  total_tokens = 3;
  tool_calls = 0;
  reasoning_chars = 0;
  generation_time_seconds = 0;
}

abbrev sample_config : AiConfig
sample_config = record {
  raw = codes "version: 1";
  version = codes "1";
  default_branch = codes "main";
  target_branch_prefix = codes "ai/";
  analysis_enabled = true;
  require_approval = true;
  recommendations_enabled = true;
  include_patterns = [];
  exclude_patterns = [];
  recommendation_categories = [];
  max_files = pos 10;
  max_snippets_per_file = pos 2;
  retention_days = pos 30;
  reviewer_policy = [];
  approve_command = [];
  correct_command = [];
  reject_command = [];
}

abbrev sample_request : IssueAnalyzeRequest
sample_request = record {
  repository = record {
    id = codes "repo";
    name = codes "r";
    default_branch = codes "main";
    commit_sha = codes "c0";
    web_url = [];
  };
  issue = record {
    id = codes "7";
    title = codes "A title";
    body = codes "A body";
    author = codes "me";
    state = codes "open";
  };
  yaml_config = codes "version: 1";
  repository_files = sample_files;
  repository_context = [];
}

abbrev pub session_in : SessionStatus → IssueSession
session_in s = record {
  id = codes "s";
  status = s;
  plan_markdown = sample_plan;
  request = sample_request;
  config = sample_config;
  revision = 1;
  feedback_history = codes "shorter" ∷ [];
  generated_files = none;
  created_at = 1;
  updated_at = 2;
}

abbrev pub sample_task : AgentTask
sample_task = record {
  id = codes "t";
  session_id = codes "s";
  issue_id = codes "7";
  kind = initial_plan;
  status = TaskStatus.processing;
  attempt = 1;
  plan_markdown = [];
  error = none;
  tool_execution_summary = [];
  relevant_files = [];
  model = [];
  usage = sample_usage;
  created_at = 1;
  updated_at = 2;
}

abbrev pub sample_job : AgentJob
sample_job = record {
  task_id = codes "t";
  session_id = codes "s";
  kind = initial_plan;
  attempt = 1;
  request = record no_plan_request { repository_files = sample_files };
  code_generation_request = no_code_request;
}

-- the Agent Engine's answer with a plan
abbrev pub answer : Bytes → AgentPlanResponse
answer plan = record {
  request_id = codes "t";
  status = codes "ok";
  plan_markdown = plan;
  relevant_files = [];
  model = codes "m";
  usage = sample_usage;
}

abbrev pub world_in : SessionStatus → World
world_in s = record {
  store = record new_memory_store {
    sessions = (codes "s", session_in s) ∷ [];
    tasks = (codes "t", sample_task) ∷ [];
  };
  draws = 0;
  ticks = 5;
  published = [];
  started = [];
}

session_in-session :
    (s : SessionStatus) → session (codes "s") (world_in s).store ≡ ok (session_in s)
unfolding session resolve lookup ◌==◌
session_in-session s = refl

sample_task-task : task (codes "t") (world_in generating).store ≡ ok sample_task
unfolding task lookup ◌==◌
sample_task-task = refl

complete_plan_task-ok_example :
    let out =
      complete_plan_task sample_env
        (ok (answer sample_plan))
        sample_task
        sample_job
        (world_in rejected) in
    (out.0 ≡ ok tt)
    × HasTask
        (codes "t")
        (λ d. (d.status ≡ TaskStatus.completed) × (d.plan_markdown ≡ sample_plan))
        out.1
    × HasSession
        (codes "s")
        (λ d.
          (d.status ≡ plan_generated)
          × (d.plan_markdown ≡ sample_plan)
          × (d.revision ≡ incr 1)
          × (d.feedback_history ≡ codes "shorter" ∷ []))
        out.1
complete_plan_task-ok_example =
    complete_plan_task-ok sample_env (answer sample_plan) sample_task sample_job (world_in rejected)
      (session_in rejected) accepted (session_in-session rejected)

abbrev unreachable : Err
unreachable = text "connection refused"

complete_plan_task-FailedWith_example :
    let out =
      complete_plan_task sample_env
        (err unreachable)
        sample_task
        sample_job
        (world_in generating) in
    (out.0 ≡ err unreachable) × FailedWith sample_env (codes "t") (codes "s") unreachable out.1
complete_plan_task-FailedWith_example =
    complete_plan_task-FailedWith sample_env (err unreachable) sample_task sample_task sample_job
      (world_in generating) (session_in generating) unreachable sample_task-task
      (session_in-session generating) (inl refl)

sample_env-TakesJobs : (w : World) → TakesJobs sample_env w
sample_env-TakesJobs w = record { publish = λ jobs job. none; present = refl; takes = λ job. refl }

abbrev empty_world : World
empty_world = record {
  store = new_memory_store;
  draws = 0;
  ticks = 0;
  published = [];
  started = [];
}

abbrev sample_commands : List Command
sample_commands =
    analyze_issue sample_request
    ∷ correct_plan (codes "7") (codes "shorter")
    ∷ reject_plan (codes "7")
    ∷ []

perform_all-IsWellFormed_example :
    IsWellFormed (perform_all sample_env empty_world sample_commands).store
perform_all-IsWellFormed_example =
    perform_all-IsWellFormed sample_env empty_world sample_commands new_memory_store-IsWellFormed

-- a task that failed since the Agent Engine was away
abbrev away_task : AgentTask
away_task = record sample_task {
  status = TaskStatus.failed;
  error = some (record {
    http_status = 503;
    code = codes "agent_engine_unreachable";
    detail = codes "no answer";
  });
}

-- its session was rejected since
abbrev away_world : World
away_world = record (world_in rejected) {
  store = record new_memory_store {
    sessions = (codes "s", session_in rejected) ∷ [];
    tasks = (codes "t", away_task) ∷ [];
  };
}

away_task-task : task (codes "t") away_world.store ≡ ok away_task
unfolding task lookup ◌==◌
away_task-task = refl

away_session : session (codes "s") away_world.store ≡ ok (session_in rejected)
unfolding session resolve lookup ◌==◌
away_session = refl

away_task-is_retryable : is_retryable away_task ≡ true
unfolding recoverable_task_error
away_task-is_retryable = refl

retry-Retried_example :
    Retried
      (sample_env.new_id away_world.draws)
      away_task
      (session_in rejected)
      away_world
      (retry sample_env (codes "t") away_world)
retry-Retried_example =
    retry-Retried sample_env (codes "t") away_world away_task (session_in rejected) away_task-task
      away_session (away_task-is_retryable, sample_env-TakesJobs away_world)
