-- ===== src/Resume/Point.antt =====
-- `computeResumePoint` of resume.ts. A wave is its task ids with the segment that each stands for,
-- where the source keeps the segments of all waves in one map with keys `wave:task`.
pub mod Scan
use taskplane.Base.{
  ℕ, zero, suc, ◌+◌, ◌==◌, if◌then◌else◌, Bool, true, false, not, ◌&&◌, ◌||◌, List, [], ◌∷◌, ◌++◌,
  map, filter, filter_map, find, all, any, is_empty, length, get_elem?, Option, none, some, Text,
  Dict, get, get_or, set,
}
use taskplane.Batch.{
  Status, pending, running, succeeded, failed, stalled, skipped, held, MergeStatus, merge_succeeded,
  SegmentRecord, TaskRecord, BatchState,
}
use taskplane.Resume.Eligibility.{get_merge_status_for_wave}
use taskplane.Resume.Reconcile.{
  Action, reconnect, mark_complete, mark_failed, re_execute, skip, pending_action,
  ReconciledTaskState, is_terminal,
}

pub record ResumePoint : Type 0 where
  pub resume_wave_index : ℕ
  pub completed_task_ids : List Text
  pub pending_task_ids : List Text
  pub failed_task_ids : List Text
  pub reconnect_task_ids : List Text
  pub re_execute_task_ids : List Text
  pub merge_retry_wave_indexes : List ℕ

-- `new Map` over an array: a later entry replaces an earlier one.
reconciled_map : List ReconciledTaskState → Dict ReconciledTaskState → Dict ReconciledTaskState
reconciled_map [] d = d
reconciled_map (t ∷ ts) d = reconciled_map ts (set t.task_id t d)

segment_statuses : List SegmentRecord → Dict Status → Dict Status
segment_statuses [] d = d
segment_statuses (s ∷ ss) d = segment_statuses ss (set s.segment_id s.status d)

segment_ids_by_task : List TaskRecord → Dict (List Text) → Dict (List Text)
segment_ids_by_task [] d = d
segment_ids_by_task (t ∷ ts) d =
    segment_ids_by_task ts (if is_empty t.segment_ids then d else set t.task_id t.segment_ids d)

pub record Wave : Type 0 where
  pub tasks : List Text
  pub segments : Dict Text

-- The segment that the occurrence of a task stands for, and the number of its occurrences so far.
abbrev assign : Option Text → Text → ℕ → Dict Text × Dict ℕ → Dict Text × Dict ℕ
assign none task_id n st = (st.0, set task_id (n + 1) st.1)
assign (some segment) task_id n st = (set task_id segment st.0, set task_id (n + 1) st.1)

abbrev occurrence : Dict (List Text) → Text → Dict Text × Dict ℕ → Dict Text × Dict ℕ
occurrence ids task_id st = elim (get task_id ids) [
  | none ↦ st
  | some segments ↦ let n = get_or st.1 task_id 0 in assign (get_elem? segments n) task_id n st
]

occurrences : Dict (List Text) → List Text → Dict Text × Dict ℕ → Dict Text × Dict ℕ
occurrences ids [] st = st
occurrences ids (t ∷ ts) st = occurrences ids ts (occurrence ids t st)

waves_from : Dict (List Text) → List (List Text) → Dict ℕ → List Wave
unfolding occurrences
waves_from ids [] counts = []
waves_from ids (tasks ∷ plan) counts =
    let st = occurrences ids tasks ([], counts) in
    record { tasks = tasks; segments = st.0 } ∷ waves_from ids plan st.1

pub record Lookup : Type 0 where
  pub reconciled : Dict ReconciledTaskState
  pub statuses : Dict Status

-- The status of the segment that a task stands for in a wave, where there is a record of it.
abbrev pub segment_status : Lookup → Wave → Text → Option Status
segment_status l w task_id = elim (get task_id w.segments) [
  | none ↦ none
  | some s ↦ if is_empty s then none else get s l.statuses
]

abbrev task_done : Option ReconciledTaskState → Bool
task_done none = false
task_done (some t) = elim t.action [
  | mark_complete ↦ true
  | mark_failed ↦ true
  | skip ↦ is_terminal t.live_status
  | _ ↦ false
]

-- The test of `allDone`.
abbrev pub is_done : Lookup → Wave → Text → Bool
is_done l w task_id = elim (segment_status l w task_id) [
  | some s ↦ is_terminal s
  | none ↦ task_done (get task_id l.reconciled)
]

abbrev is_succeeded : Status → Bool
is_succeeded succeeded = true
is_succeeded _ = false

abbrev task_succeeded : Option ReconciledTaskState → Bool
task_succeeded none = false
task_succeeded (some t) = elim t.action [
  | mark_complete ↦ true
  | skip ↦ is_succeeded t.live_status || is_succeeded t.persisted_status
  | _ ↦ false
]

-- The test of `hasSucceededTasks`.
abbrev pub has_succeeded : Lookup → Wave → Text → Bool
has_succeeded l w task_id = elim (segment_status l w task_id) [
  | some s ↦ is_succeeded s
  | none ↦ task_succeeded (get task_id l.reconciled)
]

abbrev is_merged : Option MergeStatus → Bool
is_merged (some merge_succeeded) = true
is_merged _ = false

-- A wave with a succeeded task whose merge is missing or did not succeed. The list of merge results
-- is always there, as in every validated state.
abbrev pub needs_merge : BatchState → Lookup → ℕ → Wave → Bool
needs_merge state l i w =
    any (has_succeeded l w) w.tasks
    && not (is_merged (get_merge_status_for_wave state.merge_results i))

-- The loop over the waves from index `i` on. `n` is the number of waves.
pub scan : BatchState → Lookup → ℕ → ℕ → List Wave → ℕ → List ℕ → ℕ × List ℕ
scan state l n i [] resume retries = (resume, retries)
scan state l n i (w ∷ ws) resume retries =
    let at_i = if resume == n then i else resume in
    let merge = needs_merge state l i w in
    let rest =
      scan state l n (i + 1) ws (if merge then at_i else resume)
        (if merge then retries ++ i ∷ [] else retries) in
    if all (is_done l w) w.tasks then rest else (at_i, retries)

abbrev awaits : Status → Bool
awaits running = true
awaits pending = true
awaits _ = false

abbrev is_pending : Status → Bool
is_pending pending = true
is_pending _ = false

abbrev task_awaits : Option ReconciledTaskState → Bool
task_awaits none = true
task_awaits (some t) = elim t.action [
  | reconnect ↦ true
  | re_execute ↦ true
  | skip ↦ is_pending t.persisted_status
  | pending_action ↦ true
  | _ ↦ false
]

abbrev pub needs_execution : Lookup → Wave → Text → Bool
needs_execution l w task_id = elim (segment_status l w task_id) [
  | some s ↦ awaits s
  | none ↦ task_awaits (get task_id l.reconciled)
]

-- The loop over the waves from the resume point on.
pub pending_from : Lookup → ℕ → List Wave → List Text
pending_from l zero [] = []
pending_from l zero (w ∷ ws) = filter (needs_execution l w) w.tasks ++ pending_from l zero ws
pending_from l (suc k) [] = []
pending_from l (suc k) (w ∷ ws) = pending_from l k ws

abbrev is_failed : Status → Bool
is_failed failed = true
is_failed stalled = true
is_failed _ = false

abbrev counts_completed : ReconciledTaskState → Bool
counts_completed t = elim t.action [
  | mark_complete ↦ true
  | skip ↦ is_succeeded t.live_status || is_succeeded t.persisted_status
  | _ ↦ false
]

abbrev counts_failed : ReconciledTaskState → Bool
counts_failed t = elim t.action [
  | mark_failed ↦ true
  | skip ↦
      not (is_succeeded t.live_status || is_succeeded t.persisted_status)
      && (is_failed t.live_status || is_failed t.persisted_status)
  | _ ↦ false
]

abbrev has_action_reconnect : ReconciledTaskState → Bool
has_action_reconnect t = elim t.action [ reconnect ↦ true | _ ↦ false ]

abbrev has_action_re_execute : ReconciledTaskState → Bool
has_action_re_execute t = elim t.action [ re_execute ↦ true | _ ↦ false ]

abbrev ids_where : (ReconciledTaskState → Bool) → List ReconciledTaskState → List Text
ids_where p ts = map (λ (t : ReconciledTaskState). t.task_id) (filter p ts)

unfoldable pub lookup_of : BatchState → List ReconciledTaskState → Lookup
unfolding reconciled_map segment_statuses
lookup_of state reconciled = record {
  reconciled = reconciled_map reconciled [];
  statuses = segment_statuses state.segments [];
}

unfoldable pub waves_of : BatchState → List (List Text) → List Wave
unfolding segment_ids_by_task waves_from
waves_of state wave_plan = waves_from (segment_ids_by_task state.tasks []) wave_plan []

unfoldable pub compute_resume_point :
    BatchState → List ReconciledTaskState → List (List Text) → ResumePoint
unfolding lookup_of waves_of scan pending_from
compute_resume_point state reconciled wave_plan =
    let l = lookup_of state reconciled in
    let waves = waves_of state wave_plan in
    let found = scan state l (length wave_plan) 0 waves (length wave_plan) [] in
    record {
      resume_wave_index = found.0;
      completed_task_ids = ids_where counts_completed reconciled;
      pending_task_ids = pending_from l found.0 waves;
      failed_task_ids = ids_where counts_failed reconciled;
      reconnect_task_ids = ids_where has_action_reconnect reconciled;
      re_execute_task_ids = ids_where has_action_re_execute reconciled;
      merge_retry_wave_indexes = found.1;
    }
