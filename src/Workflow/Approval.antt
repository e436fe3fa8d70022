-- ===== src/Workflow/Approval.antt =====
-- What `Approve` does when the broker takes the job.

use capstone_project_git_fla.Prelude.{
  false, Option, none, some, List, [], ◌∷◌, ◌++◌, ◌≡◌, ◌≢◌, ◌⊎◌, refl, arith, Bytes,
}
use capstone_project_git_fla.Prelude.Map.{lookup}
use capstone_project_git_fla.Text.{trim_space, is_blank}
use capstone_project_git_fla.Domain.{
  IssueSession, AgentTask, SessionStatus, plan_generated, code_generation_queued, code_generation,
}
use capstone_project_git_fla.Domain.Agent.{AgentJob}
use capstone_project_git_fla.Errors.{Err, about, Result, ok, err}
use capstone_project_git_fla.Plan.{validate_plan}
use capstone_project_git_fla.Store.{session}
use capstone_project_git_fla.Workflow.{is_plan_generated, status_text, dispatch, publish_job}
use capstone_project_git_fla.Workflow.Effects.{Env, World, get_session}
use capstone_project_git_fla.Workflow.Requests.{
  repository_files_for_session, code_generation_request,
}
use capstone_project_git_fla.Workflow.Commands.{take_edit, approve}

module _ (env : Env) where
  -- The broker is there and takes any job behind those it holds.
  pub record TakesJobs (w : World) : Type 0 where
    pub publish : List AgentJob → AgentJob → Option Err
    pub present : env.broker ≡ some publish
    pub takes : (job : AgentJob) → publish w.published job ≡ none

  dispatch-TakesJobs :
      (w : World) (job : AgentJob)
      → TakesJobs w
      → dispatch env job w ≡ (ok tt, record w { published = w.published ++ job ∷ [] })
  unfolding dispatch publish_job
  dispatch-TakesJobs w job b = rw (b.present, b.takes)

  -- The plan that is approved: the edited one, trimmed, or the session's.
  abbrev pub plan_of : Option Bytes → IssueSession → Bytes
  plan_of none v = v.plan_markdown
  plan_of (some edited) v = trim_space edited

  -- The edited plan, if it is given, is not blank and is the session's plan or a valid one.
  abbrev pub IsGoodEdit : Option Bytes → IssueSession → Type 0
  IsGoodEdit none v = Unit {0}
  IsGoodEdit (some edited) v =
      (is_blank edited ≡ false)
      × ((trim_space edited ≡ v.plan_markdown)
          ⊎ (validate_plan (trim_space edited) (repository_files_for_session v) ≡ ok tt))

  record Edited (edited : Option Bytes) (v : IssueSession) (w : World) : Type 0 where
    value : IssueSession
    world : World
    went : take_edit env edited v w ≡ (ok value, world)
    id : value.id ≡ v.id
    plan : value.plan_markdown ≡ plan_of edited v
    published : world.published ≡ w.published

  -- A call that returned a session waiting for its code and the task for it, both stored, with the plan `markdown`, and put one job with that plan behind the jobs the broker had.
  pub record Queued (markdown : Bytes) (had : List AgentJob)
      (out : Result (IssueSession × AgentTask) × World) : Type 0 where
    pub value : IssueSession
    pub waiting : AgentTask
    pub job : AgentJob
    pub returned : out.0 ≡ ok (value, waiting)
    pub status : value.status ≡ code_generation_queued
    pub plan : value.plan_markdown ≡ markdown
    pub kind : waiting.kind ≡ code_generation
    pub stored : lookup value.id out.1.store.sessions ≡ some value
    pub task_stored : lookup waiting.id out.1.store.tasks ≡ some waiting
    pub sent : out.1.published ≡ had ++ job ∷ []
    pub for_task : job.task_id ≡ waiting.id
    pub with_plan : job.code_generation_request.approved_plan_markdown ≡ markdown

  abbrev IsReady : Option Bytes → IssueSession → World → Type 0
  IsReady edited v w = (v.status ≡ plan_generated) × IsGoodEdit edited v × TakesJobs w

  -- A session whose status is not "plan_generated" is not approved: the call fails, naming the status, and changes nothing.
  pub approve-refused :
      (issue_id : Bytes) (edited : Option Bytes) (w : World) (v : IssueSession)
      → session issue_id w.store ≡ ok v
      → v.status ≢ plan_generated
      → approve env issue_id edited w ≡ (
        err (about "plan cannot be approved while session status is " (status_text v.status) ""),
        w,
      )
  unfolding approve get_session
  approve-refused issue_id edited w v here n = rw (here, not-waiting v.status n) refl
    where
      not-waiting : (s : SessionStatus) → s ≢ plan_generated → is_plan_generated s ≡ false
      not-waiting s n = ground arith
