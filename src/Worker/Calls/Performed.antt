-- ===== src/Worker/Calls/Performed.antt =====
-- `process` makes a run of the state machine of calls.
use capstone_project_git_fla.Worker.Calls.{
  Call, execution, requeueing, publication, burial, acknowledgement, Phase, unexecuted, retrying,
  publishing, failing, finished, over, Goes, succeeds, is_retried, fails, requeues, not_requeued,
  publishes, not_published, buries, not_buried, acknowledges, Runs, stop, go, noted_executor,
  noted_broker,
}
use capstone_project_git_fla.Prelude.{
  Bool, true, false, List, [], ◌∷◌, ◌++◌, ◌≡◌, refl, sym, ap, ◌∙◌, append_assoc, append-nil, Bytes,
  ℤ, if◌then◌else◌,
}
use capstone_project_git_fla.Domain.Agent.{AgentJob}
use capstone_project_git_fla.Errors.{Err, Result, ok, err}
use capstone_project_git_fla.Worker.{
  TaskExecutor, Broker, may_retry, next_job, message_of, acknowledge, buried, bury, published,
  requeued, retry, executed, process,
}

module _ {S : Type 0} (workflow : TaskExecutor S) (broker : Broker S) (max_retries : ℤ) (id : Bytes)
    (job : AgentJob) where
  -- The noted calls reach the same state, and those behind the log before are a run.
  abbrev pub Performs : Phase → S → List Call → S × List Call → Type 0
  Performs phase s log result =
      (calls : List Call) × (result ≡ (s, log ++ calls)) × Runs max_retries id job phase calls

  then-Performs :
      {p q : Phase} (c : Call) (s : S) (log : List Call) (result : S × List Call)
      → Goes max_retries id job p c q
      → Performs q s (log ++ c ∷ []) result
      → Performs p s log result
  then-Performs c s log result g (calls, e, r) =
      (c ∷ calls, e ∙ ap (λ l. (s, l)) (append_assoc log (c ∷ []) calls), go g r)

  ends : (s : S) (log : List Call) → Performs over s log (s, log)
  ends s log = ([], ap (λ l. (s, l)) (sym (append-nil log)), stop)

  acknowledge-Performs :
      (s : S) (log : List Call)
      → Performs finished
          (acknowledge workflow broker max_retries id s)
          log
          (acknowledge (noted_executor workflow) (noted_broker broker) max_retries id (s, log))
  unfolding acknowledge
  acknowledge-Performs s log =
      then-Performs (acknowledgement id (broker.ack id s).0) (broker.ack id s).1 log _ acknowledges
        (ends (broker.ack id s).1 (log ++ acknowledgement id (broker.ack id s).0 ∷ []))

  buried-Performs :
      (last : AgentJob) (cause : Err) (result : Result (Unit {0})) (s : S) (log : List Call)
      → Performs (failing last cause) (buried workflow broker max_retries id result s) log (
          buried
            (noted_executor workflow)
            (noted_broker broker)
            max_retries
            id
            result
            (s, log ++ burial (message_of id last) cause result ∷ []))
  unfolding buried
  buried-Performs last cause (ok u) s log =
      then-Performs _ _ log _ buries
        (acknowledge-Performs s (log ++ burial (message_of id last) cause (ok u) ∷ []))
  buried-Performs last cause (err e) s log =
      then-Performs _ _ log _ not_buried
        (ends s (log ++ burial (message_of id last) cause (err e) ∷ []))

  bury-Performs :
      (last : AgentJob) (cause : Err) (s : S) (log : List Call)
      → Performs
          (failing last cause)
          (bury workflow broker max_retries (message_of id last) cause s)
          log
          (bury
            (noted_executor workflow)
            (noted_broker broker)
            max_retries
            (message_of id last)
            cause
            (s, log))
  unfolding bury
  bury-Performs last cause s log =
      buried-Performs last cause (broker.dead_letter (message_of id last) cause s).0
        (broker.dead_letter (message_of id last) cause s).1 log

  published-Performs :
      (cause : Err) (result : Result (Unit {0})) (s : S) (log : List Call)
      → Performs
          (publishing cause)
          (published workflow broker max_retries id (next_job job) cause result s)
          log
          (published
            (noted_executor workflow)
            (noted_broker broker)
            max_retries
            id
            (next_job job)
            cause
            result
            (s, log ++ publication (next_job job) result ∷ []))
  unfolding published
  published-Performs cause (ok u) s log =
      then-Performs _ _ log _ publishes
        (acknowledge-Performs s (log ++ publication (next_job job) (ok u) ∷ []))
  published-Performs cause (err e) s log =
      then-Performs _ _ log _ not_published
        (bury-Performs (next_job job) cause s (log ++ publication (next_job job) (err e) ∷ []))

  requeued-Performs :
      (cause : Err) (result : Result (Unit {0})) (s : S) (log : List Call)
      → Performs
          (retrying cause)
          (requeued workflow broker max_retries id (next_job job) cause result s)
          log
          (requeued
            (noted_executor workflow)
            (noted_broker broker)
            max_retries
            id
            (next_job job)
            cause
            result
            (s, log ++ requeueing (next_job job) result ∷ []))
  unfolding requeued
  requeued-Performs cause (ok u) s log = then-Performs _ _ log _ requeues (
      published-Performs cause (broker.publish (next_job job) s).0
        (broker.publish (next_job job) s).1 (log ++ requeueing (next_job job) (ok u) ∷ []))
  requeued-Performs cause (err e) s log =
      then-Performs _ _ log _ not_requeued
        (bury-Performs (next_job job) cause s (log ++ requeueing (next_job job) (err e) ∷ []))

  failed-Performs :
      (cause : Err) (again : Bool) (s : S) (log : List Call)
      → may_retry cause job.attempt max_retries ≡ again
      → Performs unexecuted
          (if again
            then retry workflow broker max_retries id (next_job job) cause s
            else bury workflow broker max_retries (message_of id job) cause s)
          log
          (if again
            then retry
                (noted_executor workflow)
                (noted_broker broker)
                max_retries
                id
                (next_job job)
                cause
                (s, log ++ execution job (err cause) ∷ [])
            else bury
                (noted_executor workflow)
                (noted_broker broker)
                max_retries
                (message_of id job)
                cause
                (s, log ++ execution job (err cause) ∷ []))
  unfolding retry
  failed-Performs cause true s log e = then-Performs _ _ log _ (is_retried e) (
      requeued-Performs cause (workflow.retry_task (next_job job) s).0
        (workflow.retry_task (next_job job) s).1 (log ++ execution job (err cause) ∷ []))
  failed-Performs cause false s log e =
      then-Performs _ _ log _ (fails e)
        (bury-Performs job cause s (log ++ execution job (err cause) ∷ []))

  executed-Performs :
      (result : Result (Unit {0})) (s : S) (log : List Call)
      → Performs unexecuted (executed workflow broker max_retries id job result s) log (
          executed
            (noted_executor workflow)
            (noted_broker broker)
            max_retries
            id
            job
            result
            (s, log ++ execution job result ∷ []))
  unfolding executed
  executed-Performs (ok u) s log =
      then-Performs _ _ log _ succeeds (acknowledge-Performs s (log ++ execution job (ok u) ∷ []))
  executed-Performs (err cause) s log =
      failed-Performs cause (may_retry cause job.attempt max_retries) s log refl

  -- Whatever the workflow and the broker answer, the calls of `process` for a message are a run of the state machine, from the execution of its job to an acknowledgement or a dead letter that was refused, and to note them down changes nothing else.
  pub process-Performs :
      (s : S) (log : List Call)
      → Performs unexecuted
          (process workflow broker max_retries id job s)
          log
          (process (noted_executor workflow) (noted_broker broker) max_retries id job (s, log))
  unfolding process
  process-Performs s log =
      executed-Performs (workflow.execute_task job s).0 (workflow.execute_task job s).1 log
