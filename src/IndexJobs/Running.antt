-- ===== src/IndexJobs/Running.antt =====
-- The count of running jobs of `indexJobRegistry`, which the metrics collector reads.
use capstone_project_git_fla.Prelude.{
  ℕ, ◌+◌, Option, none, some, [], ◌∷◌, ◌≡◌, refl, ap, arith, Bytes, if◌then◌else◌,
}
use capstone_project_git_fla.Prelude.Map.{lookup, insert}
use capstone_project_git_fla.IndexJobs.Slots.{finish-running}
use capstone_project_git_fla.IndexJobs.{
  IndexJobStatus, RagIndexResult, Failure, Registry, is_running, running, finished_job, outcome,
  finish, running_count, counted,
}

counted_at : Option IndexJobStatus → ℕ
counted_at none = 0
counted_at (some job) = counted job

running_count-insert :
    (id : Bytes) (job : IndexJobStatus) (jobs : Registry)
    → running_count (insert id job jobs) + counted_at (lookup id jobs)
      ≡ running_count jobs + counted job
unfolding running_count insert lookup counted_at
running_count-insert id job [] = ground arith
running_count-insert id job ((k, j) ∷ jobs) = ground (arith, running_count-insert id job jobs)

counted-finished_job :
    (now : ℕ) (result : RagIndexResult) (cause : Option Failure) (job : IndexJobStatus)
    → counted (finished_job now result cause job) ≡ 0
unfolding finished_job outcome
counted-finished_job now result none job = refl
counted-finished_job now result (some cause) job = refl

module _ (id : Bytes) (jobs : Registry) (job : IndexJobStatus) where
  -- A running job that has ended is counted once less.
  less :
      (new : IndexJobStatus)
      → lookup id jobs ≡ some job
      → counted job ≡ 1
      → counted new ≡ 0
      → running_count (insert id new jobs) + 1 ≡ running_count jobs
  unfolding counted_at
  less new there live gone =
      let step = running_count-insert id new jobs in let old = ap counted_at there in omega arith

-- The gauge of running jobs counts one less after `finish` of a job that was running.
pub running_count-finish :
    (now : ℕ) (id : Bytes) (result : RagIndexResult) (cause : Option Failure) (jobs : Registry)
    (job : IndexJobStatus)
    → lookup id jobs ≡ some job
    → job.state ≡ running
    → running_count (finish now id result cause jobs).1 + 1 ≡ running_count jobs
running_count-finish now id result cause jobs job there live =
    rw (finish-running now id result cause jobs job there (ap is_running live)) (
      less id jobs job (finished_job now result cause job) there
        (ap (λ s. if is_running s then 1 else 0) live) (counted-finished_job now result cause job))
