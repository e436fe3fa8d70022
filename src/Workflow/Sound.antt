-- ===== src/Workflow/Sound.antt =====
-- Every command keeps the store well formed.
use capstone_project_git_fla.Prelude.{Option, none, some, List, [], ◌∷◌, Bytes, is_empty, ◌==◌}
use capstone_project_git_fla.Text.{trim_space}
use capstone_project_git_fla.Domain.{
  IssueAnalyzeRequest, IssueSession, AgentTask, TaskType, code_generation,
}
use capstone_project_git_fla.Domain.Agent.{AgentJob, AgentPlanResponse, AgentGeneratedFilesResponse}
use capstone_project_git_fla.Errors.{Err, text, wrapped, Result, ok, err}
use capstone_project_git_fla.Plan.{validate_plan}
use capstone_project_git_fla.Workflow.Effects.{
  Env, Generator, World, Action, ◌>>◌, pure, raise, save_session, get_latest_task,
}
use capstone_project_git_fla.Workflow.Requests.{repository_files_for_session}
use capstone_project_git_fla.Workflow.Commands.{
  start_initial_plan, resume_session, take_edit, queue_code_generation, analyze, correct, retry,
  approve, reject,
}
use capstone_project_git_fla.Workflow.Execute.{
  complete_plan_task, execute_plan_task, complete_code_generation_task,
  execute_code_generation_task, execute_by_type, run_task, execute_task, retry_task,
}
use capstone_project_git_fla.Store.WellFormed.{IsWellFormed}
use capstone_project_git_fla.Workflow.Keeps.{Keeps, Keeps-if, Keeps-raise, Keeps-pure}
use capstone_project_git_fla.Workflow.Invariant.{
  IsSound, sound_rules, fail_task-IsSound, dispatch-IsSound,
}

-- What the users, the workers and the goroutines may call.
pub data Command : Type 0 where
  analyze_issue : IssueAnalyzeRequest → Command
  correct_plan : Bytes → Bytes → Command
  retry_failed : Bytes → Command
  approve_plan : Bytes → Option Bytes → Command
  reject_plan : Bytes → Command
  execute_job : AgentJob → Command
  requeue_job : AgentJob → Command

get_latest_task-IsSound : (id : Bytes) → Keeps IsSound (get_latest_task id)
unfolding get_latest_task
get_latest_task-IsSound id = record { at = λ w h. h }

module _ (env : Env) where
  unfoldable pub perform : Command → Action (Unit {0})
  perform (analyze_issue req) = do analyze env req; pure tt
  perform (correct_plan id feedback) = do correct env id feedback; pure tt
  perform (retry_failed id) = do retry env id; pure tt
  perform (approve_plan id edited) = do approve env id edited; pure tt
  perform (reject_plan id) = do reject env id; pure tt
  perform (execute_job job) = execute_task env job
  perform (requeue_job job) = retry_task env job

  -- An error ends only its own command.
  unfoldable pub perform_all : World → List Command → World
  perform_all w [] = w
  perform_all w (c ∷ cs) = perform_all (perform c w).1 cs

  start-IsSound : (id : Bytes) (v : IssueSession) → Keeps IsSound (start_initial_plan env id v)
  unfolding start_initial_plan
  start-IsSound id v = search (sound_rules, dispatch-IsSound)

  resume-IsSound :
      (id : Bytes) (v : IssueSession) (r : Result AgentTask)
      → Keeps IsSound (resume_session env id v r)
  unfolding resume_session
  resume-IsSound id v (ok t) = search sound_rules
  resume-IsSound id v (err e) = search (sound_rules, start-IsSound)

  analyze-IsSound : (req : IssueAnalyzeRequest) → Keeps IsSound (analyze env req)
  unfolding analyze
  analyze-IsSound req =
      search (sound_rules, start-IsSound, resume-IsSound, get_latest_task-IsSound) depth 12

  correct-IsSound : (id feedback : Bytes) → Keeps IsSound (correct env id feedback)
  unfolding correct
  correct-IsSound id feedback = search (sound_rules, dispatch-IsSound) depth 14

  retry-IsSound : (id : Bytes) → Keeps IsSound (retry env id)
  unfolding retry
  retry-IsSound id = search (sound_rules, dispatch-IsSound) depth 16

  reject-IsSound : (id : Bytes) → Keeps IsSound (reject env id)
  unfolding reject
  reject-IsSound id = search sound_rules depth 10

  -- the last case of an edit: it is written if it is valid
  edit-IsSound :
      (r : Result (Unit {0})) (e : Err → Err) (v : IssueSession)
      → Keeps {A = IssueSession} IsSound
          (elim r [ err x ↦ raise (e x) | ok u ↦ save_session env v ])
  edit-IsSound (ok u) e v = search sound_rules
  edit-IsSound (err x) e v = record { at = λ w h. h }

  take_edit-IsSound :
      (edited : Option Bytes) (v : IssueSession) → Keeps IsSound (take_edit env edited v)
  unfolding take_edit
  take_edit-IsSound none v = search sound_rules
  take_edit-IsSound (some edited) v =
      let plan = trim_space edited in
      Keeps-if (is_empty plan) _ _ (Keeps-raise _) (
        Keeps-if (plan == v.plan_markdown) _ _ (Keeps-pure v) (
          edit-IsSound (validate_plan plan (repository_files_for_session v))
            (wrapped "edited plan is invalid: ") _))

  queue-IsSound : (v : IssueSession) → Keeps IsSound (queue_code_generation env v)
  unfolding queue_code_generation
  queue-IsSound v = search (sound_rules, dispatch-IsSound) depth 14

  approve-IsSound : (id : Bytes) (edited : Option Bytes) → Keeps IsSound (approve env id edited)
  unfolding approve
  approve-IsSound id edited = search (sound_rules, take_edit-IsSound, queue-IsSound) depth 10

  complete_plan-IsSound :
      (r : Result AgentPlanResponse) (t : AgentTask) (job : AgentJob)
      → Keeps IsSound (complete_plan_task env r t job)
  unfolding complete_plan_task
  complete_plan-IsSound r t job = search (sound_rules, fail_task-IsSound) depth 14

  complete_code-IsSound :
      (r : Result AgentGeneratedFilesResponse) (t : AgentTask) (v : IssueSession) (job : AgentJob)
      → Keeps IsSound (complete_code_generation_task env r t v job)
  unfolding complete_code_generation_task
  complete_code-IsSound r t v job = search (sound_rules, fail_task-IsSound) depth 14

  execute_by_type-IsSound :
      (k : TaskType) (g : Generator) (t : AgentTask) (v : IssueSession) (job : AgentJob)
      → Keeps IsSound (execute_by_type env k g t v job)
  unfolding execute_by_type execute_plan_task execute_code_generation_task
  execute_by_type-IsSound code_generation g t v job = complete_code-IsSound _ t v job
  execute_by_type-IsSound _ g t v job = complete_plan-IsSound _ t job

  run_task-IsSound : (g : Generator) (job : AgentJob) → Keeps IsSound (run_task env g job)
  unfolding run_task
  run_task-IsSound g job = search (sound_rules, execute_by_type-IsSound) depth 14

  execute_task-IsSound : (job : AgentJob) → Keeps IsSound (execute_task env job)
  unfolding execute_task
  execute_task-IsSound job = go env.generator
    where
      go :
          (o : Option Generator)
          → Keeps {A = Unit {0}} IsSound (elim o [
            | none ↦ raise (text "Agent Engine client is not configured")
            | some g ↦ run_task env g job
          ])
      go none = record { at = λ w h. h }
      go (some g) = run_task-IsSound g job

  retry_task-IsSound : (job : AgentJob) → Keeps IsSound (retry_task env job)
  unfolding retry_task
  retry_task-IsSound job = search sound_rules depth 12

  perform-IsSound : (c : Command) → Keeps IsSound (perform c)
  unfolding perform
  perform-IsSound (analyze_issue req) = search (sound_rules, analyze-IsSound)
  perform-IsSound (correct_plan id feedback) = search (sound_rules, correct-IsSound)
  perform-IsSound (retry_failed id) = search (sound_rules, retry-IsSound)
  perform-IsSound (approve_plan id edited) = search (sound_rules, approve-IsSound)
  perform-IsSound (reject_plan id) = search (sound_rules, reject-IsSound)
  perform-IsSound (execute_job job) = execute_task-IsSound job
  perform-IsSound (requeue_job job) = retry_task-IsSound job

  -- Whatever the environment does, any sequence of commands, failing ones included, takes a well-formed store to a well-formed one: sessions and tasks stand under their own ids, and no index entry points at a missing session.
  pub perform_all-IsWellFormed :
      (w : World) (cs : List Command) → IsWellFormed w.store → IsWellFormed (perform_all w cs).store
  unfolding perform_all
  perform_all-IsWellFormed w [] h = h
  perform_all-IsWellFormed w (c ∷ cs) h =
      perform_all-IsWellFormed (perform c w).1 cs ((perform-IsSound c).at w h)
