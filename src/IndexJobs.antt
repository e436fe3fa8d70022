-- ===== src/IndexJobs.antt =====
-- `indexJobRegistry` (backend/internal/httpapi/repository_index_jobs.go): the indexing jobs of the
-- repositories, one at a time for each. A method takes the time that it reads, in nanoseconds, and
-- holds the lock from beginning to end, so it is one step; `wait` is the step that looks at the
-- job and the step that answers when it is woken. `close(job.done)` follows `finish` and has no
-- state of its own: a waiter is woken by it at some later state of the registry.
pub mod Slots
pub mod Running
mod Samples
use capstone_project_git_fla.Prelude.{
  ℕ, zero, suc, ◌+◌, ◌-◌, ◌/◌, ℤ, pos, negsuc, Bool, true, false, not, ◌&&◌, Option, none, some,
  List, [], ◌∷◌, ◌++◌, Bytes, is_empty, codes, leb, ltb, length, take, if◌then◌else◌,
}
use capstone_project_git_fla.Prelude.Map.{Map, lookup, insert}

pub data JobState : Type 0 where
  -- the zero value of the status
  unknown : JobState
  running : JobState
  completed : JobState
  failed : JobState

pub record IndexJobStatus : Type 0 where
  pub repository_id : Bytes
  pub connection_id : Bytes
  pub ref : Bytes
  pub commit_sha : Bytes
  pub state : JobState
  pub error_code : Bytes
  pub error : Bytes
  pub file_count : ℤ
  pub chunk_count : ℤ
  pub embedding_count : ℤ
  pub started_at : Option ℕ
  pub finished_at : Option ℕ
  pub duration_ms : ℤ

abbrev pub no_status : IndexJobStatus
no_status = record {
  repository_id = [];
  connection_id = [];
  ref = [];
  commit_sha = [];
  state = unknown;
  error_code = [];
  error = [];
  file_count = pos 0;
  chunk_count = pos 0;
  embedding_count = pos 0;
  started_at = none;
  finished_at = none;
  duration_ms = pos 0;
}

pub record RagIndexResult : Type 0 where
  pub commit_sha : Bytes
  pub file_count : ℤ
  pub chunk_count : ℤ
  pub embedding_count : ℤ

-- An error: the code of the `*IntegrationError` in it, if there is one, and `Error()`.
pub record Failure : Type 0 where
  pub integration : Option Bytes
  pub detail : Bytes

abbrev pub Registry : Type 0
Registry = Map IndexJobStatus

-- `indexJobResultTTL`: a minute
abbrev pub result_ttl : ℕ
result_ttl = 60000000000

abbrev pub error_limit : ℕ
error_limit = 300

unfoldable pub integration_code : Failure → Bytes
integration_code cause = elim cause.integration [ none ↦ [] | some code ↦ code ]

-- the bytes of "…" are behind what is left
unfoldable pub truncate_detail : Bytes → ℕ → Bytes
truncate_detail value limit =
    if leb (length value) limit then value else take limit value ++ 0xe2 ∷ 0x80 ∷ 0xa6 ∷ []

abbrev pub is_running : JobState → Bool
is_running running = true
is_running _ = false

abbrev pub is_completed : JobState → Bool
is_completed completed = true
is_completed _ = false

-- `FinishedAt` is there and less than a minute ago
abbrev pub is_recent : ℕ → Option ℕ → Bool
is_recent now none = false
is_recent now (some finished) = ltb (now - finished) result_ttl

-- The job that `begin` returns in place of a new one.
abbrev pub is_reused : ℕ → Bool → IndexJobStatus → Bool
is_reused now force job =
    if is_running job.state
    then true
    else not force && is_completed job.state && is_recent now job.finished_at

unfoldable pub new_job : ℕ → Bytes → Bytes → Bytes → IndexJobStatus
new_job now repository_id connection_id ref = record no_status {
  repository_id = repository_id;
  connection_id = connection_id;
  ref = ref;
  state = running;
  started_at = some now;
}

unfoldable pub begin :
    ℕ → Bytes → Bytes → Bytes → Bool → Registry → (IndexJobStatus × Bool) × Registry
begin now repository_id connection_id ref force jobs =
    let job = new_job now repository_id connection_id ref in
    let started : (IndexJobStatus × Bool) × Registry =
      ((job, true), insert repository_id job jobs) in
    elim (lookup repository_id jobs) [
      | none ↦ started
      | some existing ↦ if is_reused now force existing then ((existing, false), jobs) else started
    ]

abbrev minus : ℕ → ℤ
minus zero = pos zero
minus (suc n) = negsuc n

-- `finished.Sub(started).Milliseconds()`, which is cut off towards 0
unfoldable pub milliseconds : ℕ → ℕ → ℤ
milliseconds started finished =
    if leb started finished
    then pos ((finished - started) / 1000000)
    else minus ((started - finished) / 1000000)

abbrev duration : Option ℕ → ℕ → ℤ → ℤ
duration none finished old = old
duration (some started) finished old = milliseconds started finished

unfoldable pub outcome : RagIndexResult → Option Failure → IndexJobStatus → IndexJobStatus
outcome result (some cause) job = record job {
  state = failed;
  error_code = integration_code cause;
  error = truncate_detail cause.detail error_limit;
}
outcome result none job = record job {
  state = completed;
  commit_sha = if is_empty result.commit_sha then job.commit_sha else result.commit_sha;
  file_count = result.file_count;
  chunk_count = result.chunk_count;
  embedding_count = result.embedding_count;
}

unfoldable pub finished_job : ℕ → RagIndexResult → Option Failure → IndexJobStatus → IndexJobStatus
finished_job now result cause job = outcome result cause (record job {
  finished_at = some now;
  duration_ms = duration job.started_at now job.duration_ms;
})

unfoldable pub finish :
    ℕ → Bytes → RagIndexResult → Option Failure → Registry → IndexJobStatus × Registry
finish now repository_id result cause jobs = elim (lookup repository_id jobs) [
  | none ↦ (no_status, jobs)
  | some job ↦
      let job' = finished_job now result cause job in
      if is_running job.state then (job', insert repository_id job' jobs) else (no_status, jobs)
]

unfoldable pub status : Bytes → Registry → IndexJobStatus × Bool
status repository_id jobs = elim (lookup repository_id jobs) [
  | none ↦ (no_status, false)
  | some job ↦ (job, true)
]

-- What `wait` returns, or that it blocks.
pub data Waiting : Type 0 where
  answered : IndexJobStatus → Bool → Waiting
  blocked : Waiting

unfoldable pub wait : Bytes → Registry → Waiting
wait repository_id jobs = elim (lookup repository_id jobs) [
  | none ↦ answered no_status false
  | some job ↦ if is_running job.state then blocked else answered job true
]

-- What wakes a waiter: the channel is closed, the request ends with an error, or the time is up.
pub data Wake : Type 0 where
  done : Wake
  cancelled : Bytes → Wake
  timed_out : Wake

unfoldable pub wake : Bytes → Wake → Registry → IndexJobStatus × Option Bytes
wake repository_id done jobs = ((status repository_id jobs).0, none)
wake repository_id (cancelled cause) jobs = (no_status, some cause)
wake repository_id timed_out jobs =
    (no_status, some (codes "timed out waiting for repository indexing"))

abbrev pub counted : IndexJobStatus → ℕ
counted job = if is_running job.state then 1 else 0

unfoldable pub running_count : Registry → ℕ
running_count [] = 0
running_count ((id, job) ∷ jobs) = counted job + running_count jobs
