-- ===== src/Worker/Kept.antt =====
-- `process` loses no message.
use capstone_project_git_fla.Prelude.{
  Bool, true, false, ◌⊎◌, inl, inr, Bytes, ℤ, if◌then◌else◌, ◌≡◌, refl, sym,
}
use mathlib.Core.Path.{subst}
use capstone_project_git_fla.Domain.Agent.{AgentJob}
use capstone_project_git_fla.Errors.{Err, Result, ok, err}
use capstone_project_git_fla.Queue.Messages.{Message}
use capstone_project_git_fla.Worker.{
  TaskExecutor, Broker, may_retry, next_job, message_of, acknowledge, buried, bury, published,
  requeued, retry, executed, process,
}

-- A call that succeeds leaves the message safe, one that fails leaves it waiting.
abbrev pub Secures : {S : Type 0} → (S → Type 0) → (S → Type 0) → Result (Unit {0}) × S → Type 0
Secures Waiting Safe (ok u, s) = Safe s
Secures Waiting Safe (err e, s) = Waiting s

-- `Waiting`: the group has the message, not acknowledged, and hands it out again. `Safe`: its job
-- is executed, is published again with the attempt counted up, or stands in the stream of dead
-- letters. Only the calls that do this for the message `id` and the job `job` are held to make it
-- safe: a call with another job or another message gives nothing.
pub record DeliveryLaws {S : Type 0} (workflow : TaskExecutor S) (broker : Broker S) (id : Bytes)
    (job : AgentJob) (Waiting Safe : S → Type 0) : Type 0 where
  pub executes : (s : S) → Waiting s → Secures Waiting Safe (workflow.execute_task job s)
  pub requeues : (s : S) → Waiting s → Waiting (workflow.retry_task (next_job job) s).1
  pub publishes : (s : S) → Waiting s → Secures Waiting Safe (broker.publish (next_job job) s)
  pub buries :
      (cause : Err) (s : S)
      → Waiting s
      → Secures Waiting Safe (broker.dead_letter (message_of id job) cause s)
  pub buries_next :
      (cause : Err) (s : S)
      → Waiting s
      → Secures Waiting Safe (broker.dead_letter (message_of id (next_job job)) cause s)
  pub acknowledges : (s : S) → Safe s → Safe (broker.ack id s).1

module _ {S : Type 0} (workflow : TaskExecutor S) (broker : Broker S) (max_retries : ℤ) (id : Bytes)
    (job : AgentJob) (Waiting Safe : S → Type 0)
    (laws : DeliveryLaws workflow broker id job Waiting Safe) where
  abbrev pub Kept : S → Type 0
  Kept s = Waiting s ⊎ Safe s

  acknowledge-Kept : (s : S) → Safe s → Kept (acknowledge workflow broker max_retries id s)
  unfolding acknowledge
  acknowledge-Kept s h = inr (laws.acknowledges s h)

  buried-Kept :
      (result : Result (Unit {0})) (s : S)
      → Secures Waiting Safe (result, s)
      → Kept (buried workflow broker max_retries id result s)
  unfolding buried
  buried-Kept (ok u) s h = acknowledge-Kept s h
  buried-Kept (err e) s h = inl h

  bury-Kept :
      (held : Message) (cause : Err) (s : S)
      → Secures Waiting Safe (broker.dead_letter held cause s)
      → held.id ≡ id
      → Kept (bury workflow broker max_retries held cause s)
  unfolding bury
  bury-Kept held cause s h e =
      subst
        (λ k. Kept (
          buried workflow broker max_retries k (broker.dead_letter held cause s).0
            (broker.dead_letter held cause s).1))
        (sym e)
        (buried-Kept (broker.dead_letter held cause s).0 (broker.dead_letter held cause s).1 h)

  bury_next-Kept :
      (cause : Err) (s : S)
      → Waiting s
      → Kept (bury workflow broker max_retries (message_of id (next_job job)) cause s)
  bury_next-Kept cause s h =
      bury-Kept (message_of id (next_job job)) cause s (laws.buries_next cause s h) refl

  published-Kept :
      (cause : Err) (result : Result (Unit {0})) (s : S)
      → Secures Waiting Safe (result, s)
      → Kept (published workflow broker max_retries id (next_job job) cause result s)
  unfolding published
  published-Kept cause (ok u) s h = acknowledge-Kept s h
  published-Kept cause (err e) s h = bury_next-Kept cause s h

  requeued-Kept :
      (cause : Err) (result : Result (Unit {0})) (s : S)
      → Waiting s
      → Kept (requeued workflow broker max_retries id (next_job job) cause result s)
  unfolding requeued
  requeued-Kept cause (ok u) s h =
      published-Kept cause (broker.publish (next_job job) s).0 (broker.publish (next_job job) s).1
        (laws.publishes s h)
  requeued-Kept cause (err e) s h = bury_next-Kept cause s h

  failed-Kept :
      (cause : Err) (again : Bool) (s : S)
      → Waiting s
      → Kept (
          if again
          then retry workflow broker max_retries id (next_job job) cause s
          else bury workflow broker max_retries (message_of id job) cause s)
  unfolding retry
  failed-Kept cause true s h =
      requeued-Kept cause (workflow.retry_task (next_job job) s).0
        (workflow.retry_task (next_job job) s).1 (laws.requeues s h)
  failed-Kept cause false s h = bury-Kept (message_of id job) cause s (laws.buries cause s h) refl

  executed-Kept :
      (result : Result (Unit {0})) (s : S)
      → Secures Waiting Safe (result, s)
      → Kept (executed workflow broker max_retries id job result s)
  unfolding executed
  executed-Kept (ok u) s h = acknowledge-Kept s h
  executed-Kept (err cause) s h = failed-Kept cause (may_retry cause job.attempt max_retries) s h

  -- A message that waits is, after `process` with its job, still waiting, or its job is executed, is published again with the attempt counted up, or is stored as a dead letter under the message's id, whichever calls fail. A call that does one of these three things for this job leaves the message waiting when it fails; counting up the attempt of the task keeps it waiting, and acknowledging the message keeps it safe.
  pub process-Kept : (s : S) → Waiting s → Kept (process workflow broker max_retries id job s)
  unfolding process
  process-Kept s h =
      executed-Kept (workflow.execute_task job s).0 (workflow.execute_task job s).1
        (laws.executes s h)
