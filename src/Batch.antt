-- ===== src/Batch.antt =====
-- extensions/taskplane/types.ts: the persisted state of a batch, as the recovery tools and the
-- resume engine read it. The statuses of tasks and of segments are the same seven.
use taskplane.Base.{ℕ, List, Option, Text}
use taskplane.Diagnostics.{ExitClassification}
use taskplane.Holds.Records.{HoldRecord}

pub data Status : Type 0 where
  pending running succeeded failed stalled skipped held : Status

-- A diagnostic is carried along; its classification stands for it.
pub record SegmentRecord : Type 0 where
  pub segment_id : Text
  pub task_id : Text
  pub status : Status
  pub started_at : Option ℕ
  pub ended_at : Option ℕ
  pub retries : ℕ
  pub depends_on_segment_ids : List Text
  pub exit_diagnostic : Option ExitClassification
  pub exit_reason : Text

-- An absent `segmentIds` and an empty one are not told apart by the code modelled.
pub record TaskRecord : Type 0 where
  pub task_id : Text
  pub session_name : Text
  pub status : Status
  pub segment_ids : List Text
  pub active_segment_id : Option Text

pub data MergeStatus : Type 0 where
  merge_succeeded merge_failed merge_partial : MergeStatus

pub record MergeResult : Type 0 where
  pub wave_index : ℕ
  pub status : MergeStatus

pub data Phase : Type 0 where
  idle launching planning executing merging paused stopped completed_phase failed_phase : Phase

pub record BatchState : Type 0 where
  pub phase : Phase
  pub batch_id : Text
  pub segments : List SegmentRecord
  pub tasks : List TaskRecord
  pub wave_plan : List (List Text)
  pub merge_results : List MergeResult
  pub holds : List HoldRecord
