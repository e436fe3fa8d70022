-- ===== src/Workflow/Effects.antt =====
-- What the methods of `Workflow` run on: the store, the broker's stream and the goroutines that
-- were started, with the environment's clock, ids, Agent Engine and libraries as parameters.
-- An action that fails keeps what it wrote before.
use capstone_project_git_fla.Prelude.{ℕ, suc, Bool, Option, List, Bytes}
use capstone_project_git_fla.Domain.{
  IssueSession, AgentTask, AgentUsage, TaskType, AiConfig, IssueAnalyzeRequest,
}
use capstone_project_git_fla.Domain.Agent.{
  AgentJob, AgentPlanRequest, AgentPlanResponse, AgentCodeGenerationRequest,
  AgentGeneratedFilesResponse,
}
use capstone_project_git_fla.Config.{Yaml}
use capstone_project_git_fla.Errors.{Err, Result, ok, err}
use capstone_project_git_fla.Store.{
  MemoryStore, create_session, session, update_session, create_task, task, update_task, latest_task,
}

-- backend/internal/agent/client.go: the interface `Generator`
pub record Generator : Type 0 where
  pub generate_plan : AgentPlanRequest → Result AgentPlanResponse
  pub generate_files : AgentCodeGenerationRequest → Result AgentGeneratedFilesResponse

pub record Env : Type 0 where
  -- the n-th id drawn, and the n-th reading of the clock
  pub new_id : ℕ → Bytes
  pub now_at : ℕ → ℕ
  -- `Broker.Publish` to a stream that holds the jobs: an error, or none
  pub broker : Option (List AgentJob → AgentJob → Option Err)
  pub generator : Option Generator
  -- strings.ToLower, fmt.Sprint of a composite, yaml.Unmarshal, and the two calls of fmt.Sprintf
  -- that print a usage, the second with the number of files
  pub to_lower : Bytes → Bytes
  pub sprint : Yaml → Bytes
  pub unmarshal : Bytes → Result Yaml
  pub plan_summary : Bytes → AgentUsage → Bytes
  pub files_summary : Bytes → ℕ → AgentUsage → Bytes

pub record World : Type 0 where
  pub store : MemoryStore
  pub draws : ℕ
  pub ticks : ℕ
  pub published : List AgentJob
  pub started : List AgentJob

abbrev pub Action : Type 0 → Type 0
Action A = World → Result A × World

abbrev pub resume : {A B : Type 0} → Result A → (A → Action B) → Action B
resume (ok a) f w = f a w
resume (err e) f w = (err e, w)

infixl 5 ◌>>=◌ ◌>>◌
abbrev pub ◌>>=◌ : {A B : Type 0} → Action A → (A → Action B) → Action B
◌>>=◌ m f w = let (r, w') = m w in resume r f w'

abbrev pub ◌>>◌ : {A B : Type 0} → Action A → Action B → Action B
m >> k = m >>= λ _. k

abbrev pub pure : {A : Type 0} → A → Action A
pure a w = (ok a, w)

abbrev pub raise : {A : Type 0} → Err → Action A
raise e w = (err e, w)

abbrev pub lift : {A : Type 0} → Result A → Action A
lift r w = (r, w)

-- A call whose result, an error included, the rest looks at.
abbrev pub peek : {A B : Type 0} → Action A → (Result A → Action B) → Action B
peek m f w = let (r, w') = m w in f r w'

-- `_ = f()`: the error is thrown away
abbrev pub attempt : {A : Type 0} → Action A → Action (Unit {0})
attempt m w = (ok tt, (m w).1)

-- `if err != nil { _ = f(); return err }`
abbrev pub or_fail : {A : Type 0} → Result A → (Err → Action (Unit {0})) → Action A
or_fail (ok a) f w = (ok a, w)
or_fail (err e) f w = (err e, (f e w).1)

-- The calls of the store.
unfoldable pub get_session : Bytes → Action IssueSession
get_session id w = (session id w.store, w)

unfoldable pub get_task : Bytes → Action AgentTask
get_task id w = (task id w.store, w)

unfoldable pub get_latest_task : Bytes → Action AgentTask
get_latest_task session_id w = (latest_task session_id w.store, w)

module _ (env : Env) where
  -- `UpdateSession` writes the time into its argument too, which the caller goes on with.
  unfoldable pub save_session : IssueSession → Action IssueSession
  save_session v w =
      let now = env.now_at w.ticks in
      (
        ok (record v { updated_at = now }),
        record w { store = update_session now v w.store; ticks = suc w.ticks },
      )

  unfoldable pub save_task : AgentTask → Action AgentTask
  save_task v w =
      let now = env.now_at w.ticks in
      (
        ok (record v { updated_at = now }),
        record w { store = update_task now v w.store; ticks = suc w.ticks },
      )

  unfoldable pub add_task : Bytes → Bytes → TaskType → Action AgentTask
  add_task session_id issue_id kind w =
      let (v, s) =
        create_task (env.now_at w.ticks) (env.new_id w.draws) session_id issue_id kind w.store in
      (ok v, record w { store = s; ticks = suc w.ticks; draws = suc w.draws })

  unfoldable pub open_session : IssueAnalyzeRequest → AiConfig → Action (IssueSession × Bool)
  open_session req cfg w =
      let (r, s) = create_session (env.now_at w.ticks) (env.new_id w.draws) req cfg w.store in
      (r, record w { store = s; ticks = suc w.ticks; draws = suc w.draws })
