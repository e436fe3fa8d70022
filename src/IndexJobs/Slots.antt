-- ===== src/IndexJobs/Slots.antt =====
-- A repository has one indexing job at a time: what `begin` and `finish` say to each other.
use capstone_project_git_fla.Prelude.{
  ℕ, ◌-◌, ◌≤◌, ◌<◌, Bool, true, false, Option, none, some, ◌≡◌, ◌⊎◌, inl, inr, refl, ap, arith,
  Bytes, Bool-cases, Option-cases,
}
use capstone_project_git_fla.Prelude.Map.{lookup, insert, lookup-insert_self}
use capstone_project_git_fla.IndexJobs.{
  IndexJobStatus, running, no_status, RagIndexResult, Failure, Registry, result_ttl, is_running,
  is_reused, new_job, begin, finished_job, outcome, finish, wait, blocked,
}

-- The two branches of `begin`.
begin-cases :
    (now : ℕ) (id connection ref : Bytes) (force : Bool) (jobs : Registry)
    → ((job : IndexJobStatus) × (begin now id connection ref force jobs ≡ ((job, false), jobs)))
      ⊎ (begin now id connection ref force jobs
          ≡ ((new_job now id connection ref, true), insert id (new_job now id connection ref) jobs))
unfolding begin
begin-cases now id connection ref force jobs = elim (Option-cases (lookup id jobs)) [
  | inl e ↦ inr (rw (begin, e) refl)
  | inr (job, e) ↦ elim (Bool-cases (is_reused now force job)) [
    | inl b ↦ inl (job, rw (begin, e, b) refl)
    | inr b ↦ inr (rw (begin, e, b) refl)
  ]
]

begin-reused :
    (now : ℕ) (id connection ref : Bytes) (force : Bool) (jobs : Registry) (job : IndexJobStatus)
    → lookup id jobs ≡ some job
    → is_reused now force job ≡ true
    → begin now id connection ref force jobs ≡ ((job, false), jobs)
unfolding begin
begin-reused now id connection ref force jobs job there b = rw (begin, there, b) refl

begin-started :
    (now : ℕ) (id connection ref : Bytes) (force : Bool) (jobs : Registry) (job : IndexJobStatus)
    → lookup id jobs ≡ some job
    → is_reused now force job ≡ false
    → begin now id connection ref force jobs
      ≡ ((new_job now id connection ref, true), insert id (new_job now id connection ref) jobs)
unfolding begin
begin-started now id connection ref force jobs job there b = rw (begin, there, b) refl

pub finish-running :
    (now : ℕ) (id : Bytes) (result : RagIndexResult) (cause : Option Failure) (jobs : Registry)
    (job : IndexJobStatus)
    → lookup id jobs ≡ some job
    → is_running job.state ≡ true
    → finish now id result cause jobs
      ≡ (finished_job now result cause job, insert id (finished_job now result cause job) jobs)
unfolding finish
finish-running now id result cause jobs job there b = rw (finish, there, b) refl

finish-idle :
    (now : ℕ) (id : Bytes) (result : RagIndexResult) (cause : Option Failure) (jobs : Registry)
    (job : IndexJobStatus)
    → lookup id jobs ≡ some job
    → is_running job.state ≡ false
    → finish now id result cause jobs ≡ (no_status, jobs)
unfolding finish
finish-idle now id result cause jobs job there b = rw (finish, there, b) refl

finish-none :
    (now : ℕ) (id : Bytes) (result : RagIndexResult) (cause : Option Failure) (jobs : Registry)
    → lookup id jobs ≡ none
    → finish now id result cause jobs ≡ (no_status, jobs)
unfolding finish
finish-none now id result cause jobs there = rw (finish, there) refl

blocked_lem :
    (id : Bytes) (jobs : Registry) (job : IndexJobStatus)
    → lookup id jobs ≡ some job
    → is_running job.state ≡ true
    → wait id jobs ≡ blocked
unfolding wait
blocked_lem id jobs job there b = rw (wait, there, b) refl

ended :
    (now : ℕ) (result : RagIndexResult) (cause : Option Failure) (job : IndexJobStatus)
    → is_running (finished_job now result cause job).state ≡ false
unfolding finished_job outcome
ended now result none job = refl
ended now result (some cause) job = refl

new_job-running :
    (now : ℕ) (id connection ref : Bytes) → is_running (new_job now id connection ref).state ≡ true
unfolding new_job
new_job-running now id connection ref = refl

-- When a call was given the right to run a job, the next call for the repository, forced or not and at any time, is given that job and not the right to run one, and changes nothing, and a waiter blocks.
pub begin-begin :
    (now later : ℕ) (id connection other_connection ref other_ref : Bytes) (force again : Bool)
    (jobs : Registry)
    → (begin now id connection ref force jobs).0.1 ≡ true
    → let ((job, owned), jobs') = begin now id connection ref force jobs in
      (begin later id other_connection other_ref again jobs' ≡ ((job, false), jobs'))
      × (wait id jobs' ≡ blocked)
unfolding begin wait new_job
begin-begin now later id c c' ref ref' force again jobs owned =
    elim (begin-cases now id c ref force jobs) [
      | inl (job, e) ↦ cc (e, owned)
      | inr e ↦
          let job = new_job now id c ref in
          let here = lookup-insert_self id job jobs in
          rw e (
            begin-reused later id c' ref' again (insert id job jobs) job here
                (new_job-running now id c ref),
            blocked_lem id (insert id job jobs) job here (new_job-running now id c ref),
          )
    ]

-- A second call of `finish` for a repository, with whatever outcome, returns the empty status and changes nothing.
pub finish-finish :
    (now later : ℕ) (id : Bytes) (result other : RagIndexResult) (cause fault : Option Failure)
    (jobs : Registry)
    → let (job, jobs') = finish now id result cause jobs in
      finish later id other fault jobs' ≡ (no_status, jobs')
finish-finish now later id result other cause fault jobs = elim (Option-cases (lookup id jobs)) [
  | inl e ↦ rw (finish-none now id result cause jobs e) (finish-none later id other fault jobs e)
  | inr (job, e) ↦ elim (Bool-cases (is_running job.state)) [
    | inl b ↦
        let job' = finished_job now result cause job in
        rw (finish-running now id result cause jobs job e b) (
          finish-idle later id other fault (insert id job' jobs) job'
            (lookup-insert_self id job' jobs) (ended now result cause job))
    | inr b ↦
        rw (finish-idle now id result cause jobs job e b)
          (finish-idle later id other fault jobs job e b)
  ]
]

module _ (now later : ℕ) (force : Bool) (result : RagIndexResult) (job : IndexJobStatus) where
  recent :
      force ≡ false
      → later - now < result_ttl
      → is_reused later force (finished_job now result none job) ≡ true
  unfolding finished_job outcome
  recent f h = ground arith

  stale :
      (force ≡ true) ⊎ (result_ttl ≤ later - now)
      → is_reused later force (finished_job now result none job) ≡ false
  unfolding finished_job outcome
  stale h = ground arith

begin-finish_cases :
    (now later : ℕ) (id connection ref : Bytes) (force : Bool) (result : RagIndexResult)
    (jobs : Registry) (job : IndexJobStatus)
    → lookup id jobs ≡ some job
    → job.state ≡ running
    → let (done, jobs') = finish now id result none jobs in
      let r = (begin later id connection ref force jobs').0 in
      ((force ≡ false) × (later - now < result_ttl) → r ≡ (done, false))
      × ((force ≡ true) ⊎ (result_ttl ≤ later - now) → r ≡ (new_job later id connection ref, true))
begin-finish_cases now later id connection ref force result jobs job there live =
    let job' = finished_job now result none job in
    let here = lookup-insert_self id job' jobs in
    rw (finish-running now id result none jobs job there (ap is_running live)) (
      (λ (f, h).
          ap (λ r. r.0)
            (begin-reused later id connection ref force (insert id job' jobs) job' here
              (recent now later force result job f h))),
      (λ h.
          ap (λ r. r.0)
            (begin-started later id connection ref force (insert id job' jobs) job' here
              (stale now later force result job h))),
    )

reuse_or_not :
    (later now : ℕ) (force : Bool)
    → ((force ≡ false) × (later - now < result_ttl)) ⊎ ((force ≡ true) ⊎ (result_ttl ≤ later - now))
reuse_or_not later now force = ground arith

-- After a job was finished without an error, an unforced call less than a minute later is given its result, and a call that is forced or comes later starts a new job.
pub begin-finish :
    (now later : ℕ) (id connection ref : Bytes) (force : Bool) (result : RagIndexResult)
    (jobs : Registry) (job : IndexJobStatus)
    → lookup id jobs ≡ some job
    → job.state ≡ running
    → let (done, jobs') = finish now id result none jobs in
      let r = (begin later id connection ref force jobs').0 in
      (((force ≡ false) × (later - now < result_ttl)) × (r ≡ (done, false)))
      ⊎ (((force ≡ true) ⊎ (result_ttl ≤ later - now))
          × (r ≡ (new_job later id connection ref, true)))
begin-finish now later id connection ref force result jobs job there live =
    let (reused, started) =
      begin-finish_cases now later id connection ref force result jobs job there live in
    elim (reuse_or_not later now force) [ inl h ↦ inl (h, reused h) | inr h ↦ inr (h, started h) ]
