-- ===== src/Workflow/Retried.antt =====
-- What `Retry` does when the broker takes the job.
use capstone_project_git_fla.Workflow.Outcomes.{HasSession}
use capstone_project_git_fla.Prelude.{
  true, none, some, [], ◌∷◌, ◌++◌, ◌≡◌, ◌≢◌, refl, arith, Bytes, eq_iff,
}
use capstone_project_git_fla.Prelude.Map.{Map, lookup, insert, lookup-insert, lookup-insert_self}
use capstone_project_git_fla.Domain.{
  IssueSession, AgentTask, TaskType, queued, code_generation, plan_revision, initial_plan, incr,
}
use capstone_project_git_fla.Domain.Agent.{AgentJob}
use capstone_project_git_fla.Errors.{Result, ok}
use capstone_project_git_fla.Store.{
  session, task, update_session, update_task, create_task, new_task,
}
use capstone_project_git_fla.Workflow.{is_retryable, queued_status_for_task, dispatch, publish_job}
use capstone_project_git_fla.Workflow.Effects.{
  Env, World, get_session, get_task, save_session, save_task, add_task,
}
use capstone_project_git_fla.Workflow.Commands.{retry, retry_job}
use capstone_project_git_fla.Workflow.Approval.{TakesJobs}

-- A call that returned a task under the id `fresh` for a task that had failed, put nothing else into the tasks, left the session with the queued status and its plan, and put one job for the new task behind the jobs the broker had.
pub record Retried (fresh : Bytes) (t : AgentTask) (v : IssueSession) (w : World)
    (out : Result AgentTask × World) : Type 0 where
  pub new : AgentTask
  pub job : AgentJob
  pub returned : out.0 ≡ ok new
  pub drawn : new.id ≡ fresh
  pub for_session : (new.session_id ≡ v.id) × (new.issue_id ≡ v.request.issue.id)
  pub waits : (new.status ≡ queued) × (new.kind ≡ t.kind) × (new.attempt ≡ incr t.attempt)
  pub unmarked : (new.error ≡ none) × (new.plan_markdown ≡ [])
  pub stored : lookup new.id out.1.store.tasks ≡ some new
  pub others_kept :
      (id : Bytes) → id ≢ new.id → lookup id out.1.store.tasks ≡ lookup id w.store.tasks
  pub session_waits :
      HasSession v.id
        (λ d. (d.status ≡ queued_status_for_task t.kind) × (d.plan_markdown ≡ v.plan_markdown))
        out.1
  pub sent : out.1.published ≡ w.published ++ job ∷ []
  pub for_task :
      (job.task_id ≡ new.id)
      × (job.session_id ≡ v.id)
      × (job.kind ≡ new.kind)
      × (job.attempt ≡ new.attempt)

job_for_task :
    (env : Env) (kind : TaskType) (new : AgentTask) (v : IssueSession)
    → let job = retry_job env kind new v in
      (job.task_id ≡ new.id)
      × (job.session_id ≡ v.id)
      × (job.kind ≡ new.kind)
      × (job.attempt ≡ new.attempt)
unfolding retry_job
job_for_task env code_generation new v = (refl, refl, refl, refl)
job_for_task env plan_revision new v = (refl, refl, refl, refl)
job_for_task env initial_plan new v = (refl, refl, refl, refl)

lookup-insert_twice :
    (key id : Bytes) (one two : AgentTask) (m : Map AgentTask)
    → id ≢ key
    → lookup id (insert key two (insert key one m)) ≡ lookup id m
lookup-insert_twice key id one two m n =
    ground (
      arith,
      eq_iff key id,
      lookup-insert key id two (insert key one m),
      lookup-insert key id one m,
    )

module _ (env : Env) where
  -- When a task has failed with a temporary error of the Agent Engine, its session is found and the broker takes jobs, then a retry returns a new task: it has the id drawn for it, the kind of the failed one, the attempt counted up, the status "queued", no error and no plan, and is stored under its id, while the tasks under other ids stay. The session, whatever its status was, is left with the queued status of that kind and its plan kept, and the broker gets exactly one job more, for the new task and with its attempt.
  pub retry-Retried :
      (task_id : Bytes) (w : World) (t : AgentTask) (v : IssueSession)
      → task task_id w.store ≡ ok t
      → session t.session_id w.store ≡ ok v
      → (is_retryable t ≡ true) × TakesJobs env w
      → Retried (env.new_id w.draws) t v w (retry env task_id w)
  unfolding retry get_task get_session save_session save_task add_task dispatch publish_job
      create_task update_session update_task new_task
  retry-Retried task_id w t v here_t here_v (temporary, b) =
      rw (here_t, temporary, here_v, b.present, b.takes)
        (record {
          new = _;
          job = _;
          returned = refl;
          drawn = refl;
          for_session = (refl, refl);
          waits = (refl, refl, refl);
          unmarked = (refl, refl);
          stored = lookup-insert_self _ _ _;
          others_kept = λ id n. lookup-insert_twice _ id _ _ w.store.tasks n;
          session_waits = record {
            value = _;
            stored = lookup-insert_self _ _ _;
            holds = (refl, refl);
          };
          sent = refl;
          for_task = job_for_task env t.kind _ _;
        })
