-- ===== src/Segments.antt =====
-- extensions/taskplane/segment-recovery.ts: the writers of segment records.
pub mod Recovery
mod Tests
use taskplane.Base.{
  ℕ, ◌+◌, if◌then◌else◌, Bool, true, false, not, ◌&&◌, ◌||◌, List, [], ◌∷◌, map, filter, find, all,
  is_empty, Option, none, some, Text, text, text_eq,
}
use taskplane.Diagnostics.{ExitClassification}
use taskplane.Batch.{
  Status, pending, running, succeeded, failed, stalled, skipped, held, SegmentRecord, TaskRecord,
  BatchState,
}

abbrev or_value {ℓ} : {A : Type ℓ} → Option A → A → A
or_value none d = d
or_value (some a) d = a

-- Failed, stalled, running or skipped.
abbrev pub is_retryable : Status → Bool
is_retryable failed = true
is_retryable stalled = true
is_retryable running = true
is_retryable skipped = true
is_retryable _ = false

abbrev pub is_settled : Status → Bool
is_settled succeeded = true
is_settled skipped = true
is_settled _ = false

abbrev pub is_unfinished : Status → Bool
is_unfinished pending = true
is_unfinished running = true
is_unfinished _ = false

unfoldable pub reset_segment : SegmentRecord → SegmentRecord
reset_segment seg = record seg {
  status = pending;
  started_at = none;
  ended_at = none;
  exit_diagnostic = none;
  exit_reason = [];
  retries = seg.retries + 1;
}

pub record SegmentResetSummary : Type 0 where
  pub reset_segment_ids : List Text
  pub preserved_segment_ids : List Text

-- The body of the loop over the segments.
abbrev pub retry_segment : Text → SegmentRecord → SegmentRecord
retry_segment task_id seg =
    if not (text_eq seg.task_id task_id)
    then seg
    else (if is_retryable seg.status then reset_segment seg else seg)

abbrev ids_where : (SegmentRecord → Bool) → List SegmentRecord → List Text
ids_where p segments = map (λ (s : SegmentRecord). s.segment_id) (filter p segments)

-- `state.tasks.find(…)`, and its `activeSegmentId` set: the first task with the id.
unfoldable pub set_active : Text → Option Text → List TaskRecord → List TaskRecord
set_active task_id active [] = []
set_active task_id active (t ∷ ts) =
    let rest = set_active task_id active ts in
    if text_eq t.task_id task_id then record t { active_segment_id = active } ∷ ts else t ∷ rest

unfoldable pub reset_task_segments_for_retry : BatchState → Text → BatchState × SegmentResetSummary
unfolding reset_segment set_active
reset_task_segments_for_retry state task_id = (
  record state {
    segments = map (retry_segment task_id) state.segments;
    tasks = set_active task_id none state.tasks;
  },
  record {
    reset_segment_ids =
        ids_where (λ s. text_eq s.task_id task_id && is_retryable s.status) state.segments;
    preserved_segment_ids =
        ids_where (λ s. text_eq s.task_id task_id && not (is_retryable s.status)) state.segments;
  },
)

abbrev pub skip_segment : Text → ℕ → SegmentRecord → SegmentRecord
skip_segment task_id ended_at seg =
    if not (text_eq seg.task_id task_id) || is_settled seg.status then seg else record seg {
      status = skipped;
      ended_at = some (or_value seg.ended_at ended_at);
      exit_reason =
          if is_empty seg.exit_reason then text "Skipped by supervisor" else seg.exit_reason;
    }

unfoldable pub mark_task_segments_skipped : BatchState → Text → ℕ → BatchState × List Text
mark_task_segments_skipped state task_id ended_at = (
  record state { segments = map (skip_segment task_id ended_at) state.segments },
  ids_where (λ s. text_eq s.task_id task_id && not (is_settled s.status)) state.segments,
)

pub record ReExecutionOutcome : Type 0 where
  pub start_time : Option ℕ
  pub end_time : Option ℕ
  pub exit_reason : Option Text
  pub exit_diagnostic : Option ExitClassification

-- `succeeded` is the flag of the outcome: "succeeded" or "failed".
abbrev pub apply_outcome : Bool → ReExecutionOutcome → ℕ → SegmentRecord → SegmentRecord
apply_outcome ok outcome now seg = record seg {
  status = if ok then succeeded else failed;
  started_at = some (or_value seg.started_at (or_value outcome.start_time now));
  ended_at = some (or_value outcome.end_time now);
  exit_reason =
      or_value outcome.exit_reason
        (if ok then text "Re-executed task completed" else text "Re-executed task failed");
  exit_diagnostic = if ok then none else outcome.exit_diagnostic;
}

abbrev pub executed : Text → Option Text → SegmentRecord → Bool
executed task_id segment_id seg =
    text_eq seg.task_id task_id
    && elim segment_id [ none ↦ true | some s ↦ text_eq seg.segment_id s ]
    && is_unfinished seg.status

unfoldable pub apply_re_execution_outcome_to_segments :
    List SegmentRecord
    → Text
    → Bool
    → ReExecutionOutcome
    → Option Text
    → ℕ
    → List SegmentRecord × List Text
apply_re_execution_outcome_to_segments segments task_id ok outcome segment_id now = (
  map (λ seg. if executed task_id segment_id seg then apply_outcome ok outcome now seg else seg)
      segments,
  ids_where (executed task_id segment_id) segments,
)

-- `none` is null: the task has no segment records.
unfoldable pub task_segments_all_succeeded : List SegmentRecord → Text → Option Bool
task_segments_all_succeeded segments task_id =
    let own = filter (λ (s : SegmentRecord). text_eq s.task_id task_id) segments in
    if is_empty own then none else some (all (λ s. is_settled s.status) own)

-- `new Map(segments.map(s => [s.segmentId, s])).get(id)`: the last record with the id.
unfoldable pub record_by_id : List SegmentRecord → Text → Option SegmentRecord
record_by_id [] id = none
record_by_id (s ∷ segments) id = elim (record_by_id segments id) [
  | some later ↦ some later
  | none ↦ if text_eq s.segment_id id then some s else none
]

abbrev pub status_or_pending : Option SegmentRecord → Status
status_or_pending none = pending
status_or_pending (some s) = s.status

abbrev first_unfinished : List SegmentRecord → List Text → Option Text
first_unfinished segments order =
    find (λ id. is_unfinished (status_or_pending (record_by_id segments id))) order

abbrev advance_in : BatchState → Text → Option TaskRecord → BatchState × Option Text
advance_in state task_id none = (state, none)
advance_in state task_id (some task) =
    let active = first_unfinished state.segments task.segment_ids in
    (record state { tasks = set_active task_id active state.tasks }, active)

unfoldable pub advance_active_segment : BatchState → Text → BatchState × Option Text
unfolding record_by_id set_active
advance_active_segment state task_id =
    advance_in state task_id (find (λ (t : TaskRecord). text_eq t.task_id task_id) state.tasks)

unfoldable pub segments_for_task : BatchState → Text → List SegmentRecord
segments_for_task state task_id =
    filter (λ (s : SegmentRecord). text_eq s.task_id task_id) state.segments
