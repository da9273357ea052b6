-- ===== src/Resume/Reconcile.antt =====
-- `reconcileTaskStates` of resume.ts.
pub mod Reasons
use taskplane.Base.{
  if◌then◌else◌, Bool, true, false, not, ◌&&◌, ◌||◌, List, map, Option, none, some, Text, has,
  is_empty,
}
use taskplane.Batch.{
  Status, pending, running, succeeded, failed, stalled, skipped, held, TaskRecord, BatchState,
}

pub data Action : Type 0 where
  reconnect mark_complete mark_failed re_execute skip pending_action : Action

pub record ReconciledTaskState : Type 0 where
  pub task_id : Text
  pub persisted_status : Status
  pub live_status : Status
  pub session_alive : Bool
  pub done_file_found : Bool
  pub worktree_exists : Bool
  pub action : Action

-- What resume has found out: live sessions, `.DONE` files, worktrees, tasks with an unresolved hold,
-- and, where the registry names them, the tasks with a live worker.
pub record Signals : Type 0 where
  pub alive_sessions : List Text
  pub done_task_ids : List Text
  pub existing_worktrees : List Text
  pub hold_blocked_task_ids : List Text
  pub alive_task_ids : Option (List Text)

abbrev pub is_alive : Signals → TaskRecord → Bool
is_alive s task = elim s.alive_task_ids [
  | none ↦ has task.session_name s.alive_sessions
  | some ids ↦ has task.task_id ids
]

abbrev pub is_terminal : Status → Bool
is_terminal succeeded = true
is_terminal failed = true
is_terminal stalled = true
is_terminal skipped = true
is_terminal _ = false

abbrev is_pending : Status → Bool
is_pending pending = true
is_pending _ = false

abbrev outcome : TaskRecord → Status → Bool → Bool → Bool → Action → ReconciledTaskState
outcome task live alive done worktree action = record {
  task_id = task.task_id;
  persisted_status = task.status;
  live_status = live;
  session_alive = alive;
  done_file_found = done;
  worktree_exists = worktree;
  action = action;
}

-- The rules in their order: a hold, `.DONE`, a live session, a terminal status, a worktree, a task
-- that never started, and a task that crashed.
unfoldable pub reconcile_task : Signals → TaskRecord → ReconciledTaskState
reconcile_task s task =
    let alive = is_alive s task in
    let done = has task.task_id s.done_task_ids in
    let worktree = has task.task_id s.existing_worktrees in
    if has task.task_id s.hold_blocked_task_ids
    then outcome task held alive done worktree (if worktree then re_execute else pending_action)
    else (if done
        then outcome task succeeded alive true worktree mark_complete
        else (if alive
            then outcome task running true false worktree reconnect
            else (if is_terminal task.status
                then outcome task task.status false false worktree skip
                else (if worktree
                    then outcome task pending false false true re_execute
                    else (if is_pending task.status
                          && (is_empty task.session_name || (not alive && not worktree))
                        then outcome task pending false false false pending_action
                        else outcome task failed false false false mark_failed)))))

unfoldable pub reconcile_task_states : BatchState → Signals → List ReconciledTaskState
unfolding reconcile_task
reconcile_task_states state s = map (reconcile_task s) state.tasks
