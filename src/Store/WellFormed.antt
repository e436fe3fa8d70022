-- ===== src/Store/WellFormed.antt =====
-- The invariant of the maps of sessions and tasks, and that every operation keeps it.
use capstone_project_git_fla.Prelude.{
  ℕ, Option, none, some, ◌≡◌, inl, inr, refl, arith, Bytes, ◌==◌, eq_iff, if◌then◌else◌, Bool-cases,
}
use capstone_project_git_fla.Prelude.Map.{Map, lookup, insert, lookup-insert, lookup-nil}
use capstone_project_git_fla.Domain.{
  AiConfig, IssueAnalyzeRequest, IssueSession, AgentTask, TaskType,
}
use capstone_project_git_fla.Store.{
  MemoryStore, new_memory_store, session_key, index_session, create_session, update_session,
  create_task, update_task, new_session, new_task,
}

-- Records stand under their own ids, and the index points at sessions.
pub record IsWellFormed (s : MemoryStore) : Type 0 where
  pub session_ids : (id : Bytes) (v : IssueSession) → lookup id s.sessions ≡ some v → v.id ≡ id
  pub task_ids : (id : Bytes) (t : AgentTask) → lookup id s.tasks ≡ some t → t.id ≡ id
  pub indexed :
      (k id : Bytes)
      → lookup k s.issue_index ≡ some id
      → (v : IssueSession) × (lookup id s.sessions ≡ some v)

pub new_memory_store-IsWellFormed : IsWellFormed new_memory_store
new_memory_store-IsWellFormed = record {
  session_ids = λ id v h. cc (lookup-nil {V = IssueSession} id, h);
  task_ids = λ id t h. cc (lookup-nil {V = AgentTask} id, h);
  indexed = λ k id h. absurd (cc (lookup-nil {V = Bytes} k, h));
}

lookup-index_session :
    (req : IssueAnalyzeRequest) (id : Bytes) (m : Map Bytes) (k : Bytes)
    → lookup k (index_session req id m) ≡ (
        if session_key req.repository.id req.issue.id == k
        then some id
        else if req.issue.id == k
        then some id
        else lookup k m)
unfolding index_session
lookup-index_session req id m k = simp lookup-insert

-- A session written under its id, with its two index entries.
put_session : IssueAnalyzeRequest → Bytes → IssueSession → MemoryStore → MemoryStore
put_session req id v s = record s {
  sessions = insert id v s.sessions;
  issue_index = index_session req id s.issue_index;
}

put_session-IsWellFormed :
    (req : IssueAnalyzeRequest) (id : Bytes) (v : IssueSession) (s : MemoryStore)
    → v.id ≡ id
    → IsWellFormed s
    → IsWellFormed (put_session req id v s)
unfolding put_session
put_session-IsWellFormed req id v s e h = record {
  session_ids =
      λ j w p. ground (arith, lookup-insert id j v s.sessions, eq_iff id j, h.session_ids j w);
  task_ids = h.task_ids;
  indexed = λ k j p. elim (Bool-cases (id == j)) [
    | inl b ↦ (v, ground (arith, lookup-insert id j v s.sessions))
    | inr b ↦
        let old : lookup k s.issue_index ≡ some j =
          ground (arith, lookup-index_session req id s.issue_index k, eq_iff id j) in
        let (w, q) = h.indexed k j old in (w, ground (arith, lookup-insert id j v s.sessions))
  ];
}

put_task-IsWellFormed :
    (id : Bytes) (t : AgentTask) (s : MemoryStore)
    → t.id ≡ id
    → IsWellFormed s
    → IsWellFormed (record s { tasks = insert id t s.tasks })
put_task-IsWellFormed id t s e h = record {
  session_ids = h.session_ids;
  task_ids = λ j u p. ground (arith, lookup-insert id j t s.tasks, eq_iff id j, h.task_ids j u);
  indexed = h.indexed;
}

module _ (now : ℕ) (s : MemoryStore) (h : IsWellFormed s) where
  pub create_session-IsWellFormed :
      (id : Bytes) (req : IssueAnalyzeRequest) (cfg : AiConfig)
      → IsWellFormed (create_session now id req cfg s).1
  unfolding create_session put_session
  create_session-IsWellFormed id req cfg =
      go (lookup (session_key req.repository.id req.issue.id) s.issue_index) refl
    where
      go :
          (o : Option Bytes)
          → lookup (session_key req.repository.id req.issue.id) s.issue_index ≡ o
          → IsWellFormed (create_session now id req cfg s).1
      go none e =
          rw (e, create_session)
            (put_session-IsWellFormed req id (new_session now id req cfg) s refl h)
      go (some known) e = rw (e, create_session) h

  pub update_session-IsWellFormed : (v : IssueSession) → IsWellFormed (update_session now v s)
  unfolding update_session put_session
  update_session-IsWellFormed v =
      put_session-IsWellFormed v.request v.id (record v { updated_at = now }) s refl h

  pub create_task-IsWellFormed :
      (id session_id issue_id : Bytes) (kind : TaskType)
      → IsWellFormed (create_task now id session_id issue_id kind s).1
  unfolding create_task new_task
  create_task-IsWellFormed id session_id issue_id kind =
      put_task-IsWellFormed id (new_task now id session_id issue_id kind) s refl h

  pub update_task-IsWellFormed : (t : AgentTask) → IsWellFormed (update_task now t s)
  unfolding update_task
  update_task-IsWellFormed t = put_task-IsWellFormed t.id (record t { updated_at = now }) s refl h
