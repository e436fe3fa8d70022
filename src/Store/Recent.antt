-- ===== src/Store/Recent.antt =====
-- What operators see (backend/internal/repository/memory.go): `ObservabilityCounts` and
-- `RecentAgentTasks`. Differences of times are taken to fit in 64 bits.
use capstone_project_git_fla.Prelude.{
  ℕ, zero, suc, ◌-◌, ◌*◌, ◌/◌, ◌^◌, not, ◌&&◌, none, some, List, [], ◌∷◌, Bytes, codes, ◌==◌,
  is_empty, eqb, ltb, leb, take, ℤ, pos, negsuc, if◌then◌else◌,
}
use capstone_project_git_fla.Prelude.Map.{Map, lookup, insert}
use capstone_project_git_fla.Domain.{
  AgentTask, TaskStatus, TaskType, initial_plan, plan_revision, code_generation,
}
use capstone_project_git_fla.Domain.Accounts.{GitFlameConnection}
use capstone_project_git_fla.Store.{MemoryStore}
use capstone_project_git_fla.Store.Connections.{or_text}

unfoldable pub task_status_text : TaskStatus → Bytes
task_status_text TaskStatus.queued = codes "queued"
task_status_text TaskStatus.processing = codes "processing"
task_status_text TaskStatus.completed = codes "completed"
task_status_text TaskStatus.failed = codes "failed"

unfoldable pub task_type_text : TaskType → Bytes
task_type_text initial_plan = codes "initial_plan"
task_type_text plan_revision = codes "plan_revision"
task_type_text code_generation = codes "code_generation"

pub record ObservabilityCounts : Type 0 where
  pub connections_by_token_status : Map ℕ
  pub tasks_by_status_last24h : Map ℕ

-- `counts[key]++`
unfoldable pub count_one : Bytes → Map ℕ → Map ℕ
count_one key counts = elim (lookup key counts) [
  | none ↦ insert key 1 counts
  | some n ↦ insert key (suc n) counts
]

count_connections : Map GitFlameConnection → Map ℕ → Map ℕ
count_connections [] counts = counts
count_connections ((id, connection) ∷ m) counts =
    count_connections m (count_one (or_text connection.token_status (codes "unknown")) counts)

count_tasks : ℕ → Map AgentTask → Map ℕ → Map ℕ
count_tasks threshold [] counts = counts
count_tasks threshold ((id, task) ∷ m) counts = count_tasks threshold m (
    if ltb task.created_at threshold
    then counts
    else count_one (task_status_text task.status) counts)

abbrev pub day : ℕ
day = 24 * 3600 * 10 ^ 9

unfoldable pub observability_counts : ℕ → MemoryStore → ObservabilityCounts
unfolding count_connections count_tasks
observability_counts now s = record {
  connections_by_token_status = count_connections s.connections [];
  tasks_by_status_last24h = count_tasks (now - day) s.tasks [];
}

pub record AgentTaskSummary : Type 0 where
  pub id : Bytes
  pub session_id : Bytes
  pub kind : Bytes
  pub status : Bytes
  pub attempt : ℕ
  pub model : Bytes
  pub error_code : Bytes
  pub duration_ms : ℤ
  pub created_at : ℕ
  pub updated_at : ℕ

negated : ℕ → ℤ
negated zero = pos 0
negated (suc n) = negsuc n

-- `b.Sub(a).Milliseconds()`
milliseconds : ℕ → ℕ → ℤ
unfolding negated
milliseconds a b = if leb a b then pos ((b - a) / 10 ^ 6) else negated ((a - b) / 10 ^ 6)

unfoldable pub summarize_task : AgentTask → AgentTaskSummary
unfolding milliseconds
summarize_task task = record {
  id = task.id;
  session_id = task.session_id;
  kind = task_type_text task.kind;
  status = task_status_text task.status;
  attempt = task.attempt;
  model = task.model;
  error_code = elim task.error [ none ↦ [] | some e ↦ e.code ];
  duration_ms =
      if not (eqb task.updated_at 0) && not (eqb task.created_at 0)
      then milliseconds task.created_at task.updated_at
      else pos 0;
  created_at = task.created_at;
  updated_at = task.updated_at;
}

summaries_of : Bytes → Map AgentTask → List AgentTaskSummary
summaries_of status [] = []
summaries_of status ((id, task) ∷ m) =
    let rest = summaries_of status m in
    if not (is_empty status) && not (task_status_text task.status == status)
    then rest
    else summarize_task task ∷ rest

insert_summary : AgentTaskSummary → List AgentTaskSummary → List AgentTaskSummary
insert_summary v [] = v ∷ []
insert_summary v (w ∷ vs) =
    let rest = insert_summary v vs in if leb w.created_at v.created_at then v ∷ w ∷ vs else w ∷ rest

-- the newest task first; ties are left open by the map's order
sort_summaries : List AgentTaskSummary → List AgentTaskSummary
sort_summaries [] = []
sort_summaries (v ∷ vs) = insert_summary v (sort_summaries vs)

abbrev limited : ℤ → List AgentTaskSummary → List AgentTaskSummary
limited (pos (suc n)) vs = take (suc n) vs
limited limit vs = vs

unfoldable pub recent_agent_tasks : ℤ → Bytes → MemoryStore → List AgentTaskSummary
unfolding summaries_of insert_summary sort_summaries
recent_agent_tasks limit status s = limited limit (sort_summaries (summaries_of status s.tasks))
