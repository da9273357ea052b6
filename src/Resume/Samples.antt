-- ===== src/Resume/Samples.antt =====
-- A batch with one task of two segments, the first of which failed.
use taskplane.Base.{[], ◌∷◌, none, Text, text}
use taskplane.Batch.{
  Status, pending, failed, SegmentRecord, TaskRecord, merge_succeeded, executing, BatchState,
}

abbrev pub segment : Text → Status → SegmentRecord
segment id status = record {
  segment_id = id;
  task_id = text "T-1";
  status = status;
  started_at = none;
  ended_at = none;
  retries = 0;
  depends_on_segment_ids = [];
  exit_diagnostic = none;
  exit_reason = [];
}

abbrev pub api : Text
api = text "T-1::api"

abbrev pub web : Text
web = text "T-1::web"

abbrev pub task : TaskRecord
task = record {
  task_id = text "T-1";
  session_name = text "s";
  status = failed;
  segment_ids = api ∷ web ∷ [];
  active_segment_id = none;
}

abbrev pub batch : BatchState
batch = record {
  phase = executing;
  batch_id = text "b";
  segments = segment api failed ∷ segment web pending ∷ [];
  tasks = task ∷ [];
  wave_plan = (text "T-1" ∷ []) ∷ (text "T-1" ∷ []) ∷ [];
  merge_results = record { wave_index = 0; status = merge_succeeded } ∷ [];
  holds = [];
}
