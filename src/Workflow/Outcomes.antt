-- ===== src/Workflow/Outcomes.antt =====
-- What a plan task leaves behind when it ends, and what `Reject` does to a session.
use capstone_project_git_fla.Prelude.{
  true, false, some, ◌++◌, map, ◌≡◌, ◌⊎◌, inl, inr, refl, arith, Bytes, codes,
}
use capstone_project_git_fla.Prelude.Map.{lookup, lookup-insert_self}
use capstone_project_git_fla.Domain.{
  IssueSession, AgentTask, TaskStatus, SessionStatus, plan_generated, rejected, approved,
  code_generation_queued, code_generation_processing, code_generated, incr,
}
use capstone_project_git_fla.Domain.Agent.{AgentJob, AgentPlanResponse}
use capstone_project_git_fla.Errors.{Err, text, Result, ok, err, message}
use capstone_project_git_fla.Plan.{validate_plan}
use capstone_project_git_fla.Store.{session, task, resolve, update_session, update_task}
use capstone_project_git_fla.Workflow.{is_past_approval, to_task_error, fail_session, fail_task}
use capstone_project_git_fla.Workflow.Effects.{
  Env, World, get_session, get_task, save_session, save_task,
}
use capstone_project_git_fla.Workflow.Commands.{reject}
use capstone_project_git_fla.Workflow.Execute.{
  invalid_if, unprocessable, relevant_path, complete_plan_task,
}

-- The store holds a task with the id, and it has the property.
pub record HasTask (id : Bytes) (P : AgentTask → Type 0) (w : World) : Type 0 where
  pub value : AgentTask
  pub stored : lookup id w.store.tasks ≡ some value
  pub holds : P value

pub record HasSession (id : Bytes) (P : IssueSession → Type 0) (w : World) : Type 0 where
  pub value : IssueSession
  pub stored : lookup id w.store.sessions ≡ some value
  pub holds : P value

module _ (env : Env) (result : AgentPlanResponse) (t : AgentTask) (job : AgentJob) where
  -- When the Agent Engine has answered with a plan that is valid for the job's files and the files that the answer names, and the session of the task is found, then the second half of a plan task succeeds, stores the task as completed with the plan, and stores the session, whatever its status was, with the plan, the status "plan_generated", the revision counted up and the feedback kept.
  pub complete_plan_task-ok :
      (w : World) (v : IssueSession)
      → validate_plan result.plan_markdown
          (job.request.repository_files ++ map relevant_path result.relevant_files)
        ≡ ok tt
      → session t.session_id w.store ≡ ok v
      → let out = complete_plan_task env (ok result) t job w in
        (out.0 ≡ ok tt)
        × HasTask t.id
            (λ d. (d.status ≡ TaskStatus.completed) × (d.plan_markdown ≡ result.plan_markdown))
            out.1
        × HasSession v.id
            (λ d.
              (d.status ≡ plan_generated)
              × (d.plan_markdown ≡ result.plan_markdown)
              × (d.revision ≡ incr v.revision)
              × (d.feedback_history ≡ v.feedback_history))
            out.1
  unfolding complete_plan_task save_task save_session get_session update_task update_session
      invalid_if session resolve
  complete_plan_task-ok w v valid here =
      rw (valid, here)
        (
          refl,
          record { value = _; stored = lookup-insert_self _ _ _; holds = (refl, refl) },
          record { value = _; stored = lookup-insert_self _ _ _; holds = (refl, refl, refl, refl) },
        )

module _ (env : Env) where
  -- A task that failed: the task and its session say so, and the task says why.
  abbrev pub FailedWith : Bytes → Bytes → Err → World → Type 0
  FailedWith task_id session_id cause w =
      HasTask task_id (λ d. (d.status ≡ TaskStatus.failed) × (d.error ≡ some (to_task_error cause)))
        w
      × HasSession session_id (λ d. d.status ≡ SessionStatus.failed) w

  -- `FailedWith` for a task and a session that are there.
  pub fail_task-FailedWith :
      (task_id : Bytes) (cause : Err) (w : World) (t : AgentTask) (v : IssueSession)
      → task task_id w.store ≡ ok t
      → session t.session_id w.store ≡ ok v
      → FailedWith t.id v.id cause (fail_task env task_id cause w).1
  unfolding fail_task fail_session save_task save_session get_task get_session update_task
      update_session session resolve
  fail_task-FailedWith task_id cause w t v found_t found_v =
      rw (found_t, found_v)
        (
          record { value = _; stored = lookup-insert_self _ _ _; holds = (refl, refl) },
          record { value = _; stored = lookup-insert_self _ _ _; holds = refl },
        )

  -- When the task of the job is found in the store, and so is its session, and the Agent Engine fails or its plan is not valid, then the second half of a plan task returns the error (for a plan, status 422 with the code "invalid_output" and the text of the check) and stores the task as failed with that error and its session as failed. Without that task or session nothing is said.
  pub complete_plan_task-FailedWith :
      (response : Result AgentPlanResponse) (t u : AgentTask) (job : AgentJob) (w : World)
      (v : IssueSession) (cause : Err)
      → task job.task_id w.store ≡ ok u
      → session u.session_id w.store ≡ ok v
      → (response ≡ err cause)
        ⊎ ((result : AgentPlanResponse) × (e : Err) × (response ≡ ok result)
            × (validate_plan result.plan_markdown
                  (job.request.repository_files ++ map relevant_path result.relevant_files)
                ≡ err e)
            × (cause ≡ unprocessable (codes "invalid_output") (message e)))
      → let out = complete_plan_task env response t job w in
        (out.0 ≡ err cause) × FailedWith u.id v.id cause out.1
  unfolding complete_plan_task invalid_if
  complete_plan_task-FailedWith response t u job w v cause found_u found_v (inl e) =
      rw e (refl, fail_task-FailedWith job.task_id cause w u v found_u found_v)
  complete_plan_task-FailedWith response t u job w v cause found_u found_v
        (inr (result, x, e, invalid, c)) =
      rw (e, invalid, c)
        (
          refl,
          fail_task-FailedWith job.task_id (unprocessable (codes "invalid_output") (message x)) w u
              v found_u found_v,
        )

  abbrev pub IsPastApproval : SessionStatus → Type 0
  IsPastApproval s =
      (s ≡ approved)
      ⊎ (s ≡ code_generation_queued)
      ⊎ (s ≡ code_generation_processing)
      ⊎ (s ≡ code_generated)

  past_sound : (s : SessionStatus) → IsPastApproval s → is_past_approval s ≡ true
  past_sound s h = ground arith

  past_complete : (s : SessionStatus) → ¬ IsPastApproval s → is_past_approval s ≡ false
  past_complete s h = ground arith

  reject_cases :
      (issue_id : Bytes) (w : World) (v : IssueSession)
      → session issue_id w.store ≡ ok v
      → let out = reject env issue_id w in
        (IsPastApproval v.status → out ≡ (err (text "approved plan cannot be rejected"), w))
        × (¬ IsPastApproval v.status
            → HasSession v.id
                (λ d. (d.status ≡ rejected) × (d.plan_markdown ≡ v.plan_markdown))
                out.1)
  unfolding reject get_session save_session update_session
  reject_cases issue_id w v here = rw here (
    (λ p. rw (past_sound v.status p)),
    (λ n.
        rw (past_complete v.status n)
          (record { value = _; stored = lookup-insert_self _ _ _; holds = (refl, refl) })),
  )

  past_or_not : (s : SessionStatus) → IsPastApproval s ⊎ (¬ IsPastApproval s)
  past_or_not s = ground arith

  -- A session that is approved, or whose code is being or has been generated, is not rejected: the call fails and changes nothing. Any other session, also one whose plan is just being generated, is stored as rejected with its plan kept.
  pub reject_lem :
      (issue_id : Bytes) (w : World) (v : IssueSession)
      → session issue_id w.store ≡ ok v
      → let out = reject env issue_id w in
        (IsPastApproval v.status × (out ≡ (err (text "approved plan cannot be rejected"), w)))
        ⊎ ((¬ IsPastApproval v.status)
            × HasSession v.id
                (λ d. (d.status ≡ rejected) × (d.plan_markdown ≡ v.plan_markdown))
                out.1)
  reject_lem issue_id w v here =
      let (refused, done) = reject_cases issue_id w v here in
      elim (past_or_not v.status) [ inl p ↦ inl (p, refused p) | inr n ↦ inr (n, done n) ]
