-- ===== src/Resume/Reconcile/Reasons.antt =====
-- Why resume takes each action.
use taskplane.Base.{◌≡◌, refl, ◌⊎◌, Bool, true, false, has, arith}
use taskplane.Batch.{pending, running, held, TaskRecord}
use taskplane.Resume.Reconcile.{
  Action, reconnect, mark_complete, mark_failed, re_execute, skip, pending_action, Signals,
  is_alive, is_terminal, reconcile_task,
}

abbrev pub Held : Signals → TaskRecord → Bool → Type 0
Held s t b = has t.task_id s.hold_blocked_task_ids ≡ b

abbrev pub Done : Signals → TaskRecord → Bool → Type 0
Done s t b = has t.task_id s.done_task_ids ≡ b

abbrev pub Worktree : Signals → TaskRecord → Bool → Type 0
Worktree s t b = has t.task_id s.existing_worktrees ≡ b

-- Neither held nor done, without a live worker, and not terminal.
pub record Lost (s : Signals) (t : TaskRecord) : Type 0 where
  pub not_held : Held s t false
  pub not_done : Done s t false
  pub dead : is_alive s t ≡ false
  pub live_status : is_terminal t.status ≡ false

abbrev pub Reason : Signals → TaskRecord → Action → Type 0
Reason s t mark_complete = Held s t false × Done s t true
Reason s t reconnect = Held s t false × Done s t false × (is_alive s t ≡ true)
Reason s t skip =
    Held s t false × Done s t false × (is_alive s t ≡ false) × (is_terminal t.status ≡ true)
Reason s t re_execute = Worktree s t true × (Held s t true ⊎ Lost s t)
Reason s t pending_action = Worktree s t false × (Held s t true ⊎ (Lost s t × (t.status ≡ pending)))
Reason s t mark_failed = Worktree s t false × Lost s t × ((t.status ≡ running) ⊎ (t.status ≡ held))

Reason-of :
    (s : Signals) (t : TaskRecord) (a : Action) → (reconcile_task s t).action ≡ a → Reason s t a
unfolding reconcile_task
Reason-of s t mark_complete e = ground arith
Reason-of s t reconnect e = ground arith
Reason-of s t skip e = ground arith
Reason-of s t re_execute e = ground arith
Reason-of s t pending_action e = ground arith
Reason-of s t mark_failed e = ground arith

-- The action that resume takes for a task is justified. A task under an unresolved hold is never
-- marked complete, not even with a `.DONE` file; a task is marked failed only if it had started, is
-- not held, and left neither a `.DONE` file, a live worker nor a worktree, so a task that never
-- started is not; a terminal task is skipped only where no worker lives.
pub reconcile_task-Reason : (s : Signals) (t : TaskRecord) → Reason s t (reconcile_task s t).action
reconcile_task-Reason s t = Reason-of s t (reconcile_task s t).action refl
