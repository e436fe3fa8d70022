-- ===== src/Worker.antt =====
-- The agent worker (backend/cmd/agent-worker/main.go): `process`, and a turn of the loop in `main`.
-- The deadline of a task, its log and its metrics are left out.
pub mod Calls
pub mod Kept
pub mod Retries
pub mod Unpublished
mod Samples
use capstone_project_git_fla.Prelude.{
  ℕ, ◌-◌, ◌^◌, Bool, true, false, not, ◌&&◌, ◌||◌, Option, none, some, List, Bytes, codes, ◌==◌,
  is_empty, eqb, ltb, if◌then◌else◌, ℤ, pos, negsuc, leb_ℤ,
}
use capstone_project_git_fla.Domain.{incr}
use capstone_project_git_fla.Domain.Agent.{AgentJob}
use capstone_project_git_fla.Errors.{EngineError, Err, Result, ok, err, as_engine}
use capstone_project_git_fla.Effect.{Step}
use capstone_project_git_fla.Queue.Messages.{
  Message, Received, nothing, received, broken, unreadable,
}

-- the interface `taskExecutor`
pub record TaskExecutor (S : Type 0) : Type 0 where
  pub execute_task : AgentJob → Step S (Unit {0})
  pub retry_task : AgentJob → Step S (Unit {0})

-- backend/internal/queue/queue.go: the part of the interface `Broker` that the worker calls
pub record Broker (S : Type 0) : Type 0 where
  pub publish : AgentJob → Step S (Unit {0})
  pub read : Bytes → S → Received × S
  pub ack : Bytes → Step S (Unit {0})
  pub dead_letter : Message → Err → Step S (Unit {0})

abbrev is_temporary : EngineError → Bool
is_temporary e =
    (eqb e.status 502
      && (e.code == codes "agent_engine_unreachable" || e.code == codes "agent_engine_error"))
    || eqb e.status 503
    || eqb e.status 504

unfoldable pub temporary : Err → Bool
temporary e = elim (as_engine e) [ none ↦ false | some engine_error ↦ is_temporary engine_error ]

-- the integer of 64 bits
abbrev pub signed : ℕ → ℤ
signed n = if ltb n (2 ^ 63) then pos n else negsuc (2 ^ 64 - 1 - n)

-- `err` is temporary, and a retry is left.
abbrev pub may_retry : Err → ℕ → ℤ → Bool
may_retry e attempt max_retries = temporary e && not (leb_ℤ max_retries (signed attempt))

abbrev pub next_job : AgentJob → AgentJob
next_job job = record job { attempt = incr job.attempt }

abbrev pub message_of : Bytes → AgentJob → Message
message_of id job = record { id = id; job = some job }

module _ {S : Type 0} (workflow : TaskExecutor S) (broker : Broker S) (max_retries : ℤ) where
  acknowledge : Bytes → S → S
  acknowledge id s = (broker.ack id s).1

  buried : Bytes → Result (Unit {0}) → S → S
  unfolding acknowledge
  buried id (ok u) s = acknowledge id s
  buried id (err e) s = s

  -- an attempt to keep the message as a dead letter, which is what is left of it then
  bury : Message → Err → S → S
  unfolding buried
  bury failed cause s =
      let (result, reached) = broker.dead_letter failed cause s in buried failed.id result reached

  published : Bytes → AgentJob → Err → Result (Unit {0}) → S → S
  unfolding acknowledge bury
  published id job cause (ok u) s = acknowledge id s
  published id job cause (err e) s = bury (message_of id job) cause s

  requeued : Bytes → AgentJob → Err → Result (Unit {0}) → S → S
  unfolding published bury
  requeued id job cause (ok u) s =
      let (result, reached) = broker.publish job s in published id job cause result reached
  requeued id job cause (err e) s = bury (message_of id job) cause s

  retry : Bytes → AgentJob → Err → S → S
  unfolding requeued
  retry id job cause s =
      let (result, reached) = workflow.retry_task job s in requeued id job cause result reached

  executed : Bytes → AgentJob → Result (Unit {0}) → S → S
  unfolding acknowledge retry bury
  executed id job (ok u) s = acknowledge id s
  executed id job (err cause) s =
      if may_retry cause job.attempt max_retries
      then retry id (next_job job) cause s
      else bury (message_of id job) cause s

  unfoldable pub process : Bytes → AgentJob → S → S
  unfolding executed
  process id job s =
      let (result, reached) = workflow.execute_task job s in executed id job result reached

  -- what follows `Read` in the loop; `stopped` is `ctx.Err() != nil`, which ends the loop too
  unfoldable pub after_read : (S → Bool) → Received → S → S
  unfolding process bury
  after_read stopped nothing s = s
  after_read stopped (received id job) s = process id job s
  after_read stopped (broken id cause) s =
      if stopped s || is_empty id then s else bury (record { id = id; job = none }) cause s
  after_read stopped (unreadable cause) s = s

  unfoldable pub turn : Bytes → (S → Bool) → S → S
  unfolding after_read
  turn consumer stopped s =
      let (message, reached) = broker.read consumer s in after_read stopped message reached

abbrev pub job_request_id : AgentJob → Bytes
job_request_id job =
    if is_empty job.request.request_id
    then job.code_generation_request.request_id
    else job.request.request_id
