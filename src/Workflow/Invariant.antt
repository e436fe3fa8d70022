-- ===== src/Workflow/Invariant.antt =====
-- The maps of the store stay well formed under every command.
use capstone_project_git_fla.Prelude.{Option, none, some, List, [], ◌∷◌, ◌++◌, Bytes}
use capstone_project_git_fla.Domain.{
  IssueAnalyzeRequest, IssueSession, AgentTask, AiConfig, TaskType,
}
use capstone_project_git_fla.Domain.Agent.{AgentJob}
use capstone_project_git_fla.Errors.{Err, text, dispatch_failed, Result, ok, err}
use capstone_project_git_fla.Store.WellFormed.{
  IsWellFormed, create_session-IsWellFormed, update_session-IsWellFormed, create_task-IsWellFormed,
  update_task-IsWellFormed,
}
use capstone_project_git_fla.Workflow.{fail_task, fail_session, dispatch, publish_job, refuse_job}
use capstone_project_git_fla.Workflow.Effects.{
  Env, Generator, World, raise, get_session, get_task, save_session, save_task, add_task,
  open_session,
}
use capstone_project_git_fla.Workflow.Keeps.{Keeps, keeps_rules}

abbrev pub IsSound : World → Type 0
IsSound w = IsWellFormed w.store

module _ (env : Env) where
  pub save_session-IsSound : (v : IssueSession) → Keeps IsSound (save_session env v)
  unfolding save_session
  save_session-IsSound v = record {
    at = λ w h. update_session-IsWellFormed (env.now_at w.ticks) w.store h v;
  }

  pub save_task-IsSound : (v : AgentTask) → Keeps IsSound (save_task env v)
  unfolding save_task
  save_task-IsSound v = record {
    at = λ w h. update_task-IsWellFormed (env.now_at w.ticks) w.store h v;
  }

  pub add_task-IsSound :
      (session_id issue_id : Bytes) (kind : TaskType)
      → Keeps IsSound (add_task env session_id issue_id kind)
  unfolding add_task
  add_task-IsSound session_id issue_id kind = record {
    at = λ w h.
        create_task-IsWellFormed (env.now_at w.ticks) w.store h (env.new_id w.draws) session_id
          issue_id kind;
  }

  pub open_session-IsSound :
      (req : IssueAnalyzeRequest) (cfg : AiConfig) → Keeps IsSound (open_session env req cfg)
  unfolding open_session
  open_session-IsSound req cfg = record {
    at = λ w h.
        create_session-IsWellFormed (env.now_at w.ticks) w.store h (env.new_id w.draws) req cfg;
  }

pub get_session-IsSound : (id : Bytes) → Keeps IsSound (get_session id)
unfolding get_session
get_session-IsSound id = record { at = λ w h. h }

pub get_task-IsSound : (id : Bytes) → Keeps IsSound (get_task id)
unfolding get_task
get_task-IsSound id = record { at = λ w h. h }

pub ruleset sound_rules = (
  keeps_rules, save_session-IsSound, save_task-IsSound, add_task-IsSound, open_session-IsSound,
  get_session-IsSound, get_task-IsSound,
)

module _ (env : Env) where
  fail_session-IsSound : (r : Result IssueSession) → Keeps IsSound (fail_session env r)
  unfolding fail_session
  fail_session-IsSound (ok v) = search sound_rules
  fail_session-IsSound (err e) = search sound_rules

  pub fail_task-IsSound :
      (task_id : Bytes) (cause : Err) → Keeps IsSound (fail_task env task_id cause)
  unfolding fail_task
  fail_task-IsSound task_id cause = search (sound_rules, fail_session-IsSound)

  refuse_job-IsSound : (job : AgentJob) (e : Err) → Keeps IsSound (refuse_job env job e)
  unfolding refuse_job
  refuse_job-IsSound job e = search (sound_rules, fail_task-IsSound)

  publish_job-IsSound : (job : AgentJob) (o : Option Err) → Keeps IsSound (publish_job env job o)
  unfolding publish_job
  publish_job-IsSound job none = record { at = λ w h. h }
  publish_job-IsSound job (some e) = record { at = λ w h. (refuse_job-IsSound job e).at w h }

  pub dispatch-IsSound : (job : AgentJob) → Keeps IsSound (dispatch env job)
  unfolding dispatch
  dispatch-IsSound job = go env.broker env.generator
    where
      go :
          (b : Option (List AgentJob → AgentJob → Option Err)) (g : Option Generator)
          → Keeps {A = Unit {0}} IsSound (λ w. elim b [
            | some publish ↦ publish_job env job (publish w.published job) w
            | none ↦ elim g [
              | none ↦ raise (dispatch_failed (text "task dispatcher is not configured")) w
              | some _ ↦ (ok tt, record w { started = w.started ++ job ∷ [] })
            ]
          ])
      go (some publish) g = record {
        at = λ w h. (publish_job-IsSound job (publish w.published job)).at w h;
      }
      go none none = record { at = λ w h. h }
      go none (some g) = record { at = λ w h. h }
