-- ===== src/Worker/Retries.antt =====
-- How often a job is executed: it is followed from its message to that of the job that replaces it.

use capstone_project_git_fla.Prelude.{
  ℕ, zero, suc, ◌+◌, ◌-◌, ◌≤◌, ◌<◌, ◌^◌, Bool, true, false, not, ◌&&◌, Option, none, some, List, [],
  ◌∷◌, ◌≡◌, ◌⊎◌, inl, inr, refl, sym, ap, ◌∙◌, arith, Bytes, ℤ, pos, negsuc, leb_ℤ, leb, lt→ltb,
  if◌then◌else◌,
}
use capstone_project_git_fla.Domain.{incr}
use capstone_project_git_fla.Domain.Agent.{AgentJob}
use capstone_project_git_fla.Errors.{Err, ok}
use capstone_project_git_fla.Worker.{
  TaskExecutor, Broker, temporary, signed, may_retry, next_job, process,
}
use capstone_project_git_fla.Worker.Calls.{
  Call, publication, unexecuted, retrying, publishing, failing, finished, over, succeeds,
  is_retried, fails, requeues, not_requeued, publishes, not_published, buries, not_buried,
  acknowledges, Runs, stop, go, noted_executor, noted_broker,
}
use capstone_project_git_fla.Worker.Calls.Performed.{process-Performs}

-- the job of the publication that succeeded, if there is one
pub republished : List Call → Option AgentJob
republished [] = none
republished (publication job (ok u) ∷ calls) = some job
republished (call ∷ calls) = republished calls

module _ (max_retries : ℤ) (id : Bytes) (job : AgentJob) where
  over_lem : {calls : List Call} → Runs max_retries id job over calls → republished calls ≡ none
  unfolding republished
  over_lem stop = refl
  over_lem (go g r) = elim g [ ]

  finished_lem :
      {calls : List Call} → Runs max_retries id job finished calls → republished calls ≡ none
  unfolding republished
  finished_lem (go acknowledges r) = over_lem r

  failing_lem :
      {last : AgentJob} {e : Err} {calls : List Call}
      → Runs max_retries id job (failing last e) calls
      → republished calls ≡ none
  unfolding republished
  failing_lem (go buries r) = finished_lem r
  failing_lem (go not_buried r) = over_lem r

  publishing_lem :
      {e : Err} {calls : List Call}
      → Runs max_retries id job (publishing e) calls
      → (republished calls ≡ none) ⊎ (republished calls ≡ some (next_job job))
  unfolding republished
  publishing_lem (go publishes r) = inr refl
  publishing_lem (go not_published r) = inl (failing_lem r)

  retrying_lem :
      {e : Err} {calls : List Call}
      → Runs max_retries id job (retrying e) calls
      → (republished calls ≡ none) ⊎ (republished calls ≡ some (next_job job))
  unfolding republished
  retrying_lem (go requeues r) = publishing_lem r
  retrying_lem (go not_requeued r) = inl (failing_lem r)

  below :
      (e : Err)
      → may_retry e job.attempt max_retries ≡ true
      → leb_ℤ max_retries (signed job.attempt) ≡ false
  below e h = step (temporary e) (leb_ℤ max_retries (signed job.attempt)) h
    where
      step : (a b : Bool) → (a && not b) ≡ true → b ≡ false
      step true true h = cc
      step true false h = refl
      step false b h = cc

  -- Nothing is published, or the next attempt of a job below the limit.
  unexecuted_lem :
      {calls : List Call}
      → Runs max_retries id job unexecuted calls
      → (republished calls ≡ none)
        ⊎ ((republished calls ≡ some (next_job job))
            × (leb_ℤ max_retries (signed job.attempt) ≡ false))
  unfolding republished
  unexecuted_lem (go succeeds r) = inl (finished_lem r)
  unexecuted_lem (go (is_retried {e} h) r) = elim (retrying_lem r) [
    | inl k ↦ inl k
    | inr k ↦ inr (k, below e h)
  ]
  unexecuted_lem (go (fails h) r) = inl (failing_lem r)

-- The greatest attempt that a job can reach: `WorkerMaxRetries`, if it is not negative.
abbrev pub limit_of : ℤ → ℕ
limit_of (pos n) = n
limit_of (negsuc n) = 0

below_limit :
    (max_retries : ℤ) (n : ℕ)
    → n < 2 ^ 63
    → leb_ℤ max_retries (signed n) ≡ false
    → n < limit_of max_retries
below_limit (pos m) n h e = more (
    ap (λ b. leb_ℤ (pos m) (if b then pos n else negsuc (2 ^ 64 - 1 - n)))
      (sym (lt→ltb n (2 ^ 63) h))
    ∙ e)
  where
    more : leb m n ≡ false → n < m
    more e = ground arith
below_limit (negsuc m) n h e = absurd (
    impossible (
      ap (λ b. leb_ℤ (negsuc m) (if b then pos n else negsuc (2 ^ 64 - 1 - n)))
        (sym (lt→ltb n (2 ^ 63) h))
      ∙ e))
  where
    impossible : true ≡ false → ⊥
    impossible e = cc

incr_small : (n : ℕ) → n < 2 ^ 63 → incr n ≡ suc n
unfolding incr
incr_small n h = omega arith

module _ {S : Type 0} (workflow : TaskExecutor S) (broker : Broker S) (max_retries : ℤ)
    (ids : ℕ → Bytes) where
  -- `process` on a job, and on the job that it publishes again, with the ids of their messages; the
  -- number bounds the executions. None says that there are more.
  pub follow : ℕ → AgentJob → S → Option S
  follow zero job s = none
  follow (suc rounds) job s =
      let (reached, calls) =
        process (noted_executor workflow) (noted_broker broker) max_retries (ids rounds) job
          (s, []) in
      elim (republished calls) [ none ↦ some reached | some next ↦ follow rounds next reached ]

  abbrev Answers : Option S → Type 0
  Answers o = (t : S) × (o ≡ some t)

  continues :
      (rounds : ℕ) (job : AgentJob) (reached : S) (calls : List Call)
      → (republished calls ≡ none)
        ⊎ ((republished calls ≡ some (next_job job))
            × (leb_ℤ max_retries (signed job.attempt) ≡ false))
      → (leb_ℤ max_retries (signed job.attempt) ≡ false
          → Answers (follow rounds (next_job job) reached))
      → Answers (elim (republished calls) [
        | none ↦ some reached
        | some next ↦ follow rounds next reached
      ])
  continues rounds job reached calls (inl e) k = rw e (reached, refl)
  continues rounds job reached calls (inr (e, b)) k = rw e (k b)

  follow-Answers :
      (rounds : ℕ) (job : AgentJob) (s : S)
      → job.attempt < 2 ^ 63
      → limit_of max_retries < 2 ^ 63
      → limit_of max_retries < rounds + job.attempt
      → 1 ≤ rounds
      → Answers (follow rounds job s)
  unfolding follow
  follow-Answers zero job s a m h r = absurd (omega arith)
  follow-Answers (suc rounds) job s a m h one =
      let noted =
        process (noted_executor workflow) (noted_broker broker) max_retries (ids rounds) job
          (s, []) in
      let (calls, e, run) = process-Performs workflow broker max_retries (ids rounds) job s [] in
      continues rounds job noted.0 noted.1
        (rw (ap (λ x. x.1) e) (unexecuted_lem max_retries (ids rounds) job run))
        (λ b.
          let less = below_limit max_retries job.attempt a b in
          let next = incr_small job.attempt a in
          follow-Answers rounds (next_job job) noted.0 (omega arith) m (omega arith) (omega arith))

  -- Along a chain of jobs in which each is processed once and the next is the one that `process` published in its place, there are at most `WorkerMaxRetries` - attempt + 1 executions, and one if that is less than 1, whatever the workflow and the broker answer. The attempts are below 2^63. A message that is handed out again, because it was not acknowledged, begins a chain of its own and is not counted here.
  pub follow_total :
      (job : AgentJob) (s : S)
      → job.attempt < 2 ^ 63
      → limit_of max_retries < 2 ^ 63
      → (t : S) × (follow (suc (limit_of max_retries - job.attempt)) job s ≡ some t)
  follow_total job s a m =
      follow-Answers (suc (limit_of max_retries - job.attempt)) job s a m (omega arith)
        (omega arith)
