-- ===== src/Worker/Calls.antt =====
-- The calls that `process` makes, as a state machine; a child module proves that they are its runs.
pub mod Performed
use capstone_project_git_fla.Prelude.{
  Bool, true, false, List, [], ◌∷◌, ◌++◌, ◌≡◌, refl, sym, ap, ◌∙◌, append_assoc, append-nil, Bytes,
  ℤ, if◌then◌else◌,
}
use capstone_project_git_fla.Domain.Agent.{AgentJob}
use capstone_project_git_fla.Errors.{Err, Result, ok, err}
use capstone_project_git_fla.Effect.{Step}
use capstone_project_git_fla.Queue.Messages.{Message}
use capstone_project_git_fla.Worker.{
  TaskExecutor, Broker, may_retry, next_job, message_of, acknowledge, buried, bury, published,
  requeued, retry, executed, process,
}

-- A call, and what it returns.
pub data Call : Type 0 where
  execution : AgentJob → Result (Unit {0}) → Call
  requeueing : AgentJob → Result (Unit {0}) → Call
  publication : AgentJob → Result (Unit {0}) → Call
  burial : Message → Err → Result (Unit {0}) → Call
  acknowledgement : Bytes → Result (Unit {0}) → Call

pub data Phase : Type 0 where
  unexecuted : Phase
  retrying : Err → Phase
  publishing : Err → Phase
  failing : AgentJob → Err → Phase
  finished : Phase
  over : Phase

-- What each call leads to for one message.
pub data Goes (max_retries : ℤ) (id : Bytes) (job : AgentJob) : Phase → Call → Phase → Type 0 where
  succeeds : Goes max_retries id job unexecuted (execution job (ok tt)) finished
  is_retried :
      {e : Err}
      → may_retry e job.attempt max_retries ≡ true
      → Goes max_retries id job unexecuted (execution job (err e)) (retrying e)
  fails :
      {e : Err}
      → may_retry e job.attempt max_retries ≡ false
      → Goes max_retries id job unexecuted (execution job (err e)) (failing job e)
  requeues :
      {e : Err}
      → Goes max_retries id job (retrying e) (requeueing (next_job job) (ok tt)) (publishing e)
  not_requeued :
      {e cause : Err}
      → Goes max_retries id job
          (retrying e)
          (requeueing (next_job job) (err cause))
          (failing (next_job job) e)
  publishes :
      {e : Err}
      → Goes max_retries id job (publishing e) (publication (next_job job) (ok tt)) finished
  not_published :
      {e cause : Err}
      → Goes max_retries id job
          (publishing e)
          (publication (next_job job) (err cause))
          (failing (next_job job) e)
  buries :
      {last : AgentJob} {e : Err}
      → Goes max_retries id job (failing last e) (burial (message_of id last) e (ok tt)) finished
  not_buried :
      {last : AgentJob} {e cause : Err}
      → Goes max_retries id job (failing last e) (burial (message_of id last) e (err cause)) over
  acknowledges :
      {r : Result (Unit {0})} → Goes max_retries id job finished (acknowledgement id r) over

pub data Runs (max_retries : ℤ) (id : Bytes) (job : AgentJob) : Phase → List Call → Type 0 where
  stop : Runs max_retries id job over []
  go :
      {p q : Phase} {c : Call} {calls : List Call}
      → Goes max_retries id job p c q
      → Runs max_retries id job q calls
      → Runs max_retries id job p (c ∷ calls)

-- The same services, that write down the calls, the last one at the end.
abbrev noted :
    {S : Type 0} → (Result (Unit {0}) → Call) → Step S (Unit {0}) → Step (S × List Call) (Unit {0})
noted call step (s, log) =
    let (result, reached) = step s in (result, (reached, log ++ call result ∷ []))

abbrev pub noted_executor : {S : Type 0} → TaskExecutor S → TaskExecutor (S × List Call)
noted_executor workflow = record {
  execute_task = λ job. noted (execution job) (workflow.execute_task job);
  retry_task = λ job. noted (requeueing job) (workflow.retry_task job);
}

abbrev pub noted_broker : {S : Type 0} → Broker S → Broker (S × List Call)
noted_broker broker = record {
  publish = λ job. noted (publication job) (broker.publish job);
  read = λ consumer (s, log).
      let (message, reached) = broker.read consumer s in (message, (reached, log));
  ack = λ id. noted (acknowledgement id) (broker.ack id);
  dead_letter = λ failed cause. noted (burial failed cause) (broker.dead_letter failed cause);
}
