-- ===== src/Store.antt =====
-- `MemoryStore` (backend/internal/repository/memory.go): its state, and its operations on issue
-- sessions and agent tasks. A method takes the time that it reads and the id that it draws as
-- arguments, and returns the new store. Records are copied on every read and write by the code's
-- `clone` functions, so they are values here. Locks are left out: each method holds its lock from
-- beginning to end, and is one step.
pub mod Accounts
pub mod Connections
pub mod Cards
pub mod Events
pub mod Recent
pub mod WellFormed
pub mod Sessions
pub mod Samples
use capstone_project_git_fla.Prelude.{
  ℕ, zero, Bool, true, false, ◌&&◌, Option, none, some, List, [], ◌∷◌, ◌++◌, Bytes, ◌==◌, ltb,
  if◌then◌else◌,
}
use capstone_project_git_fla.Prelude.Map.{Map, lookup, insert}
use capstone_project_git_fla.Domain.{
  AiConfig, IssueAnalyzeRequest, IssueSession, AgentTask, TaskType, generating, queued, AgentUsage,
}
use capstone_project_git_fla.Domain.Accounts.{
  AppUser, AppSession, GitFlameConnection, GitFlameWebhookRegistration, GitFlameWebhookEvent,
  RepositorySnapshot, RepositorySnapshotFile, RecommendationReport,
}
use capstone_project_git_fla.Errors.{Err, text, not_found, Result, ok, err}

pub record MemoryStore : Type 0 where
  pub sessions : Map IssueSession
  pub issue_index : Map Bytes
  pub tasks : Map AgentTask
  pub reports : Map RecommendationReport
  pub configs : Map AiConfig
  pub users : Map AppUser
  pub user_index : Map Bytes
  pub app_sessions : Map AppSession
  pub session_hashes : Map Bytes
  pub connections : Map GitFlameConnection
  pub webhooks : Map GitFlameWebhookRegistration
  pub events : Map GitFlameWebhookEvent
  pub snapshots : Map RepositorySnapshot
  pub snapshot_files : Map (List RepositorySnapshotFile)

abbrev pub new_memory_store : MemoryStore
new_memory_store = record {
  sessions = [];
  issue_index = [];
  tasks = [];
  reports = [];
  configs = [];
  users = [];
  user_index = [];
  app_sessions = [];
  session_hashes = [];
  connections = [];
  webhooks = [];
  events = [];
  snapshots = [];
  snapshot_files = [];
}

-- A read of a key; its absence is `ErrNotFound`.
abbrev pub found {ℓ} : {A : Type ℓ} → Option A → Result A
found none = err not_found
found (some a) = ok a

-- `repositoryID + "\x00" + issueID`
unfoldable pub session_key : Bytes → Bytes → Bytes
session_key repository_id issue_id = repository_id ++ 0 ∷ issue_id

-- The two keys of a session in `issueIndex`, written in this order.
unfoldable pub index_session : IssueAnalyzeRequest → Bytes → Map Bytes → Map Bytes
index_session req id m =
    insert (session_key req.repository.id req.issue.id) id (insert req.issue.id id m)

new_session : ℕ → Bytes → IssueAnalyzeRequest → AiConfig → IssueSession
new_session now id req cfg = record {
  id = id;
  status = generating;
  plan_markdown = [];
  request = req;
  config = cfg;
  revision = 0;
  feedback_history = [];
  generated_files = none;
  created_at = now;
  updated_at = now;
}

add_session : ℕ → Bytes → IssueAnalyzeRequest → AiConfig → MemoryStore → MemoryStore
unfolding new_session
add_session now id req cfg s = record s {
  sessions = insert id (new_session now id req cfg) s.sessions;
  issue_index = index_session req id s.issue_index;
}

-- The session of the index entry; the dereference of a missing one is a panic.
existing_session : Option IssueSession → Result (IssueSession × Bool)
existing_session none = err (text "panic: nil session")
existing_session (some v) = ok (v, false)

-- The result says whether the session is new.
unfoldable pub create_session :
    ℕ
    → Bytes
    → IssueAnalyzeRequest
    → AiConfig
    → MemoryStore
    → Result (IssueSession × Bool) × MemoryStore
unfolding add_session existing_session new_session
create_session now id req cfg s =
    elim (lookup (session_key req.repository.id req.issue.id) s.issue_index) [
      | some known ↦ (existing_session (lookup known s.sessions), s)
      | none ↦ (ok (new_session now id req cfg, true), add_session now id req cfg s)
    ]

-- The id that the index maps the argument to, or the argument.
unfoldable pub resolve : MemoryStore → Bytes → Bytes
resolve s id = elim (lookup id s.issue_index) [ none ↦ id | some mapped ↦ mapped ]

unfoldable pub session : Bytes → MemoryStore → Result IssueSession
session id s = found (lookup (resolve s id) s.sessions)

unfoldable pub update_session : ℕ → IssueSession → MemoryStore → MemoryStore
update_session now v s = record s {
  sessions = insert v.id (record v { updated_at = now }) s.sessions;
  issue_index = index_session v.request v.id s.issue_index;
}

abbrev no_usage : AgentUsage
no_usage = record {
  prompt_tokens = 0;
  completion_tokens = 0;
  total_tokens = 0;
  tool_calls = 0;
  reasoning_chars = 0;
  generation_time_seconds = 0;
}

unfoldable pub new_task : ℕ → Bytes → Bytes → Bytes → TaskType → AgentTask
new_task now id session_id issue_id kind = record {
  id = id;
  session_id = session_id;
  issue_id = issue_id;
  kind = kind;
  status = queued;
  attempt = 1;
  plan_markdown = [];
  error = none;
  tool_execution_summary = [];
  relevant_files = [];
  model = [];
  usage = no_usage;
  created_at = now;
  updated_at = now;
}

unfoldable pub create_task :
    ℕ → Bytes → Bytes → Bytes → TaskType → MemoryStore → AgentTask × MemoryStore
create_task now id session_id issue_id kind s =
    let v = new_task now id session_id issue_id kind in
    (v, record s { tasks = insert id v s.tasks })

unfoldable pub task : Bytes → MemoryStore → Result AgentTask
task id s = found (lookup id s.tasks)

unfoldable pub update_task : ℕ → AgentTask → MemoryStore → MemoryStore
update_task now v s = record s { tasks = insert v.id (record v { updated_at = now }) s.tasks }

is_later : AgentTask → Option AgentTask → Bool
is_later t none = true
is_later t (some latest) = ltb latest.created_at t.created_at

-- the loop of `LatestTask`
unfoldable pub latest_from : Bytes → Option AgentTask → Map AgentTask → Option AgentTask
unfolding is_later
latest_from session_id latest [] = latest
latest_from session_id latest ((id, t) ∷ m) =
    latest_from session_id
      (if t.session_id == session_id && is_later t latest then some t else latest) m

unfoldable pub latest_task : Bytes → MemoryStore → Result AgentTask
latest_task session_id s = found (latest_from session_id none s.tasks)
