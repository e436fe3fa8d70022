-- ===== src/IndexJobs/Samples.antt =====
-- One indexing job, begun and finished.
use capstone_project_git_fla.Prelude.{
  ◌-◌, ◌<◌, ◌≤◌, pos, true, false, Option, none, some, [], ◌∷◌, ◌≡◌, ◌⊎◌, refl, Bytes, codes, ◌==◌,
}
use capstone_project_git_fla.Prelude.Map.{lookup}
use capstone_project_git_fla.IndexJobs.{
  IndexJobStatus, running, RagIndexResult, Failure, Registry, result_ttl, new_job, begin, finish,
  wait, blocked,
}
use capstone_project_git_fla.IndexJobs.Slots.{begin-begin, begin-finish}

abbrev repo : Bytes
repo = codes "repo"

abbrev connected : Bytes
connected = codes "c"

abbrev main : Bytes
main = codes "main"

abbrev indexed : RagIndexResult
indexed = record {
  commit_sha = codes "abc";
  file_count = pos 3;
  chunk_count = pos 9;
  embedding_count = pos 9;
}

abbrev broken : Option Failure
broken = some (record { integration = some (codes "rag_unreachable"); detail = codes "no answer" })

abbrev job : IndexJobStatus
job = new_job 1000 repo connected main

abbrev one_running : Registry
one_running = (repo, job) ∷ []

job-lookup : lookup repo one_running ≡ some job
unfolding lookup ◌==◌
job-lookup = refl

job-state : job.state ≡ running
unfolding new_job
job-state = refl

owned : (begin 1000 repo connected main false []).0.1 ≡ true
unfolding begin lookup
owned = refl

begin-begin_example :
    let ((job, owned), jobs') = begin 1000 repo connected main false [] in
    (begin 2000 repo connected (codes "dev") true jobs' ≡ ((job, false), jobs'))
    × (wait repo jobs' ≡ blocked)
begin-begin_example =
    begin-begin 1000 2000 repo connected connected main (codes "dev") false true [] owned

begin-finish_example :
    let (ended, jobs') = finish 5000 repo indexed none one_running in
    let r = (begin 6000 repo connected main true jobs').0 in
    (((true ≡ false) × (6000 - 5000 < result_ttl)) × (r ≡ (ended, false)))
    ⊎ (((true ≡ true) ⊎ (result_ttl ≤ 6000 - 5000))
        × (r ≡ (new_job 6000 repo connected main, true)))
begin-finish_example =
    begin-finish 5000 6000 repo connected main true indexed one_running job job-lookup job-state
