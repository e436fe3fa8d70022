-- ===== src/Worker/Samples.antt =====
-- Services that fail, and the theorems on the worker there.
use capstone_project_git_fla.Prelude.{
  ℕ, suc, ◌-◌, true, some, List, [], ◌∷◌, ◌≡◌, ◌⊎◌, inl, inr, refl, arith, Bytes, codes, pos, ◌==◌,
  Member,
}
use capstone_project_git_fla.Prelude.Map.{lookup, insert}
use capstone_project_git_fla.Domain.{IssueSession, AgentTask, TaskStatus, SessionStatus, generating}
use capstone_project_git_fla.Errors.{Err, engine, ok, err, as_engine}
use capstone_project_git_fla.Store.{
  index_session, session_key, session, task, resolve, update_session, update_task,
}
use capstone_project_git_fla.Queue.Broker.{queue_full}
use capstone_project_git_fla.Domain.Agent.{AgentJob}
use capstone_project_git_fla.Queue.Messages.{Message, nothing}
use capstone_project_git_fla.Workflow.{
  to_task_error, processing_status_for_task, fail_task, fail_session,
}
use capstone_project_git_fla.Workflow.Effects.{
  Env, World, get_session, get_task, save_session, save_task,
}
use capstone_project_git_fla.Workflow.Execute.{
  execute_task, run_task, execute_by_type, execute_plan_task, complete_plan_task,
}
use capstone_project_git_fla.Workflow.Samples.{
  sample_env, session_in, sample_task, sample_job, world_in,
}
use capstone_project_git_fla.Worker.{
  TaskExecutor, Broker, temporary, may_retry, next_job, message_of, process,
}
use capstone_project_git_fla.Worker.Calls.{unexecuted, noted_executor, noted_broker}
use capstone_project_git_fla.Worker.Calls.Performed.{Performs, process-Performs}
use capstone_project_git_fla.Worker.Kept.{DeliveryLaws, Kept, process-Kept}
use capstone_project_git_fla.Worker.Retries.{follow, limit_of, follow_total}
use capstone_project_git_fla.Worker.Unpublished.{RefusesJobs, executor, IsQueued, process-IsQueued}

abbrev unavailable : Err
unavailable =
    engine (record { status = 503; code = codes "model_unavailable"; detail = codes "no answer" })

-- The state is 1 once the broker has taken the message over.
abbrev never : TaskExecutor ℕ
never = record { execute_task = λ job s. (err unavailable, s); retry_task = λ job s. (ok tt, s) }

abbrev willing : Broker ℕ
willing = record {
  publish = λ job s. (ok tt, 1);
  read = λ consumer s. (nothing, s);
  ack = λ id s. (ok tt, s);
  dead_letter = λ failed cause s. (ok tt, 1);
}

-- a broker that keeps what it is given, next to the ids of the messages that wait
abbrev Desk : Type 0
Desk = List Bytes × List AgentJob × List Message

abbrev idle : TaskExecutor Desk
idle = record { execute_task = λ job s. (err unavailable, s); retry_task = λ job s. (ok tt, s) }

abbrev keeping : Broker Desk
keeping = record {
  publish = λ job s. (ok tt, (s.0, job ∷ s.1, s.2));
  read = λ consumer s. (nothing, s);
  ack = λ id s. (ok tt, ([], s.1, s.2));
  dead_letter = λ failed cause s. (ok tt, (s.0, s.1, failed ∷ s.2));
}

abbrev AtDesk : Desk → Type 0
AtDesk s = Member (codes "1-0") s.0

-- The job is published with the attempt counted up, or the message is a dead letter.
abbrev OffDesk : Desk → Type 0
OffDesk s =
    Member (next_job sample_job) s.1
    ⊎ (Member (message_of (codes "1-0") sample_job) s.2
        ⊎ Member (message_of (codes "1-0") (next_job sample_job)) s.2)

keeping-DeliveryLaws : DeliveryLaws idle keeping (codes "1-0") sample_job AtDesk OffDesk
keeping-DeliveryLaws = record {
  executes = λ s h. h;
  requeues = λ s h. h;
  publishes = λ s h. inl (inl refl);
  buries = λ cause s h. inr (inl (inl refl));
  buries_next = λ cause s h. inr (inr (inl refl));
  acknowledges = λ s h. h;
}

process-Performs_example :
    Performs never willing
      (pos 2)
      (codes "1-0")
      sample_job
      unexecuted
      (process never willing (pos 2) (codes "1-0") sample_job 0)
      []
      (process
        (noted_executor never)
        (noted_broker willing)
        (pos 2)
        (codes "1-0")
        sample_job
        (0, []))
process-Performs_example = process-Performs never willing (pos 2) (codes "1-0") sample_job 0 []

process-Kept_example :
    Kept idle keeping
      (pos 2)
      (codes "1-0")
      sample_job
      AtDesk
      OffDesk
      keeping-DeliveryLaws
      (process idle keeping (pos 2) (codes "1-0") sample_job (codes "1-0" ∷ [], [], []))
process-Kept_example =
    process-Kept idle keeping (pos 2) (codes "1-0") sample_job AtDesk OffDesk keeping-DeliveryLaws
      (codes "1-0" ∷ [], [], []) (inl refl)

follow_total_example :
    (t : ℕ) × (follow never willing
        (pos 2)
        (λ n. codes "1-0")
        (suc (limit_of (pos 2) - sample_job.attempt))
        sample_job
        0
      ≡ some t)
follow_total_example =
    follow_total never willing (pos 2) (λ n. codes "1-0") sample_job 0 (omega arith) (omega arith)

-- the workflow with an Agent Engine that is away
abbrev away_env : Env
away_env = record sample_env {
  generator = some (record {
    generate_plan = λ request. err unavailable;
    generate_files = λ request. err unavailable;
  });
}

abbrev full : Broker World
full = record {
  publish = λ job w. (err queue_full, w);
  read = λ consumer w. (nothing, w);
  ack = λ id w. (ok tt, w);
  dead_letter = λ failed cause w. (ok tt, w);
}

full-RefusesJobs : RefusesJobs full
full-RefusesJobs = record {
  cause = queue_full;
  refuses = λ job w. refl;
  keeps_buried = λ failed e w. refl;
  keeps_acknowledged = λ id w. refl;
}

-- the task and the session after the execution
abbrev failed_task : AgentTask
failed_task = record sample_task {
  status = TaskStatus.failed;
  error =
      some (record {
        http_status = 503;
        code = codes "model_unavailable";
        detail = codes "no answer";
      });
  updated_at = 7;
}

abbrev failed_session : IssueSession
failed_session = record (session_in SessionStatus.failed) { updated_at = 8 }

abbrev start : World
start = world_in generating

-- the execution fails, and writes that to the store
away_execution :
    (execute_task away_env sample_job start
      ≡ (err unavailable, (execute_task away_env sample_job start).1))
    × (task (codes "t") (execute_task away_env sample_job start).1.store ≡ ok failed_task)
    × (session (codes "s") (execute_task away_env sample_job start).1.store ≡ ok failed_session)
unfolding execute_task run_task execute_by_type execute_plan_task complete_plan_task get_session
    get_task save_session save_task session task resolve update_session update_task index_session
    session_key lookup insert ◌==◌ processing_status_for_task fail_task fail_session to_task_error
    as_engine
away_execution = (refl, refl, refl)

unavailable-may_retry : may_retry unavailable 1 (pos 2) ≡ true
unfolding temporary as_engine ◌==◌
unavailable-may_retry = refl

process-IsQueued_example :
    IsQueued away_env failed_task failed_session
      (next_job sample_job)
      (process (executor away_env) full (pos 2) (codes "1-0") sample_job start).store
process-IsQueued_example =
    process-IsQueued away_env full (pos 2) (codes "1-0") full-RefusesJobs sample_job start
      (execute_task away_env sample_job start).1 unavailable failed_task failed_session
      away_execution.0 unavailable-may_retry away_execution.1 away_execution.2
