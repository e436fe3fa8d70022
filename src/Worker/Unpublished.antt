-- ===== src/Worker/Unpublished.antt =====
-- `process` with the methods of `Workflow`, when the queue refuses the job of a retry.
use capstone_project_git_fla.Prelude.{true, some, ◌≡◌, refl, ◌∙◌, Bytes, ℤ}
use capstone_project_git_fla.Prelude.Map.{lookup, lookup-insert_self}
use capstone_project_git_fla.Domain.{IssueSession, AgentTask, TaskStatus}
use capstone_project_git_fla.Domain.Agent.{AgentJob}
use capstone_project_git_fla.Errors.{Err, Result, ok, err}
use capstone_project_git_fla.Store.{
  MemoryStore, session, task, resolve, update_session, update_task,
}
use capstone_project_git_fla.Queue.Messages.{Message}
use capstone_project_git_fla.Workflow.{queued_status_for_task}
use capstone_project_git_fla.Workflow.Effects.{
  Env, World, get_session, get_task, save_session, save_task,
}
use capstone_project_git_fla.Workflow.Execute.{execute_task, retry_task}
use capstone_project_git_fla.Worker.{
  TaskExecutor, Broker, may_retry, next_job, message_of, acknowledge, buried, bury, published,
  requeued, retry, executed, process,
}

-- A broker that publishes nothing, and never writes to the store.
pub record RefusesJobs (broker : Broker World) : Type 0 where
  pub cause : Err
  pub refuses : (job : AgentJob) (w : World) → broker.publish job w ≡ (err cause, w)
  pub keeps_buried :
      (failed : Message) (e : Err) (w : World) → (broker.dead_letter failed e w).1.store ≡ w.store
  pub keeps_acknowledged : (id : Bytes) (w : World) → (broker.ack id w).1.store ≡ w.store

module _ (env : Env) where
  abbrev pub executor : TaskExecutor World
  executor = record { execute_task = execute_task env; retry_task = retry_task env }

  -- the task and its session, in a store, after `RetryTask`
  abbrev pub IsQueued : AgentTask → IssueSession → AgentJob → MemoryStore → Type 0
  IsQueued t v job s =
      ((d : AgentTask) × (lookup t.id s.tasks ≡ some d)
        × (d.status ≡ TaskStatus.queued)
        × (d.attempt ≡ job.attempt))
      × ((d : IssueSession) × (lookup v.id s.sessions ≡ some d)
          × (d.status ≡ queued_status_for_task t.kind))

  retry_task-IsQueued :
      (job : AgentJob) (w : World) (t : AgentTask) (v : IssueSession)
      → task job.task_id w.store ≡ ok t
      → session t.session_id w.store ≡ ok v
      → ((retry_task env job w).0 ≡ ok tt) × IsQueued t v job (retry_task env job w).1.store
  unfolding retry_task save_task save_session get_task get_session update_task update_session
      session resolve
  retry_task-IsQueued job w t v found_t found_v =
      rw (found_t, found_v)
        (refl, ((_, lookup-insert_self _ _ _, refl, refl), (_, lookup-insert_self _ _ _, refl)))

  module _ (broker : Broker World) (max_retries : ℤ) (id : Bytes)
      (refusal : RefusesJobs broker) where
    bury-store :
        (job : AgentJob) (cause : Err) (w : World)
        → (bury executor broker max_retries (message_of id job) cause w).store ≡ w.store
    unfolding bury buried acknowledge
    bury-store job cause w =
        step (broker.dead_letter (message_of id job) cause w).0
          (broker.dead_letter (message_of id job) cause w).1
        ∙ refusal.keeps_buried (message_of id job) cause w
      where
        step :
            (result : Result (Unit {0})) (reached : World)
            → (buried executor broker max_retries id result reached).store ≡ reached.store
        step (ok u) reached = refusal.keeps_acknowledged id reached
        step (err e) reached = refl

    requeued-store :
        (job : AgentJob) (cause : Err) (result : Result (Unit {0})) (w : World)
        → (requeued executor broker max_retries id job cause result w).store ≡ w.store
    unfolding requeued published
    requeued-store job cause (ok u) w = rw (refusal.refuses job w) (bury-store job cause w)
    requeued-store job cause (err e) w = bury-store job cause w

    retry-store :
        (job : AgentJob) (cause : Err) (w : World)
        → (retry executor broker max_retries id job cause w).store ≡ (retry_task env job w).1.store
    unfolding retry
    retry-store job cause w =
        requeued-store job cause (retry_task env job w).0 (retry_task env job w).1

    -- When a task fails with an error that allows a retry, and the broker takes no job, as when its stream is full, the store that `process` leaves has the task as queued, with the attempt counted up, and its session with the status of a queued task. The task and its session are in the store when the execution has failed, and the broker does not write to the store.
    pub process-IsQueued :
        (job : AgentJob) (w reached : World) (cause : Err) (t : AgentTask) (v : IssueSession)
        → execute_task env job w ≡ (err cause, reached)
        → may_retry cause job.attempt max_retries ≡ true
        → task job.task_id reached.store ≡ ok t
        → session t.session_id reached.store ≡ ok v
        → IsQueued t v (next_job job) (process executor broker max_retries id job w).store
    unfolding process executed
    process-IsQueued job w reached cause t v e again found_t found_v =
        rw (process, e, again, retry-store (next_job job) cause reached)
          (retry_task-IsQueued (next_job job) reached t v found_t found_v).1
