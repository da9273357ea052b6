-- ===== src/Resume/Tests.antt =====
-- Resume on a sample batch.
use taskplane.Base.{
  ◌≡◌, ◌↔◌, ◌⊎◌, refl, ◌==◌, if◌then◌else◌, true, List, [], ◌∷◌, ◌++◌, all, none, some, Text, text,
  text_eq, text_le, has, count, get_or, get, set, add, sort_by, arith,
}
use taskplane.Batch.{
  pending, succeeded, stopped, failed_phase, merge_failed, MergeResult, SegmentRecord,
}
use taskplane.Segments.{record_by_id, reset_task_segments_for_retry}
use taskplane.Resume.Samples.{segment, api, web, task, batch}
use taskplane.Resume.Eligibility.{
  check_resume_eligibility, Interrupted, eligible_iff, get_merge_status_for_wave,
  merge_status-append,
}
use taskplane.Resume.Frontier.{
  completed_class, pending_class, ids_of, all_succeeded, update_task, next_segment, dependencies,
  classify_segment_status,
}
use taskplane.Resume.Frontier.Laws.{update_task-succeeded, next_segment-ready}
use taskplane.Resume.Frontier.Retry.{retried, retry_reactivates}
use taskplane.Resume.Reconcile.{Signals, reconcile_task, reconcile_task_states}
use taskplane.Resume.Reconcile.Reasons.{Reason, reconcile_task-Reason}
use taskplane.Resume.Point.{compute_resume_point, lookup_of, waves_of}
use taskplane.Resume.Point.Scan.{First, resume_point-First}

eligible_iff_example : ((check_resume_eligibility batch true).eligible ≡ true) ↔ (
    Interrupted batch.phase
    ⊎ ((true ≡ true) × ((batch.phase ≡ stopped) ⊎ (batch.phase ≡ failed_phase))))
eligible_iff_example = eligible_iff batch true

abbrev retry_result : MergeResult
retry_result = record { wave_index = 0; status = merge_failed }

merge_status-append_example :
    get_merge_status_for_wave (batch.merge_results ++ retry_result ∷ []) 0
    ≡ (if 0 == 0 then some merge_failed else get_merge_status_for_wave batch.merge_results 0)
merge_status-append_example = merge_status-append batch.merge_results retry_result 0

abbrev half : List SegmentRecord
half = segment api succeeded ∷ segment web pending ∷ []

run : Unit {0}
unfolding text_eq text_le has count get set add sort_by record_by_id classify_segment_status
    update_task next_segment reset_task_segments_for_retry
run = tt

update_task-succeeded_example :
    ((update_task text_le half task).status ≡ succeeded)
    ↔ (all_succeeded half task.segment_ids ≡ true)
unfolding run
update_task-succeeded_example = update_task-succeeded text_le half task refl

next_segment-ready_example :
    (s : Text) × (next_segment text_le half (api ∷ web ∷ []) ≡ some s)
    × (has s (ids_of pending_class half (api ∷ web ∷ [])) ≡ true)
    × (all
          (λ d. has d (ids_of completed_class half (api ∷ web ∷ [])))
          (get_or (dependencies text_le half (api ∷ web ∷ [])) s [])
        ≡ true)
unfolding run
next_segment-ready_example = next_segment-ready text_le half (api ∷ web ∷ []) refl (λ e. cc e)

owned :
    (id : Text) (s : SegmentRecord)
    → has id task.segment_ids ≡ true
    → record_by_id batch.segments id ≡ some s
    → s.task_id ≡ task.task_id
unfolding record_by_id
owned id s h e = ground arith

retry_reactivates_example :
    ((update_task text_le (retried batch task) task).status ≡ pending)
    ⊎ (((update_task text_le (retried batch task) task).status ≡ succeeded)
        × (all_succeeded (retried batch task) task.segment_ids ≡ true))
unfolding run
retry_reactivates_example = retry_reactivates text_le batch task owned refl

abbrev signals : Signals
signals = record {
  alive_sessions = text "s" ∷ [];
  done_task_ids = text "T-1" ∷ [];
  existing_worktrees = [];
  hold_blocked_task_ids = text "T-1" ∷ [];
  alive_task_ids = none;
}

reconcile_task-Reason_example : Reason signals task (reconcile_task signals task).action
reconcile_task-Reason_example = reconcile_task-Reason signals task

resume_point-First_example :
    First batch
      (lookup_of batch (reconcile_task_states batch signals))
      2
      0
      (waves_of batch batch.wave_plan)
      (compute_resume_point batch
        (reconcile_task_states batch signals)
        batch.wave_plan).resume_wave_index
resume_point-First_example =
    resume_point-First batch (reconcile_task_states batch signals) batch.wave_plan

-- The failed first segment closes its wave; the second one is pending.
resume_point-batch :
    (compute_resume_point batch
      (reconcile_task_states batch signals)
      batch.wave_plan).resume_wave_index
    ≡ 1
unfolding run compute_resume_point reconcile_task_states get_merge_status_for_wave
resume_point-batch = refl
