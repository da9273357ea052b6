-- ===== src/Segments/Tests.antt =====
-- The recovery tools on a sample batch.
use taskplane.Base.{◌≡◌, refl, true, ◌&&◌, [], all, none, some, text, text_eq}
use taskplane.Segments.{
  is_settled, is_unfinished, mark_task_segments_skipped, segments_for_task,
  apply_re_execution_outcome_to_segments, ReExecutionOutcome, advance_active_segment,
}
use taskplane.Segments.Recovery.{Others, skip_settles, outcome_spares}
use taskplane.Resume.Samples.{batch, api, web}

abbrev outcome : ReExecutionOutcome
outcome = record {
  start_time = some 5;
  end_time = none;
  exit_reason = none;
  exit_diagnostic = none;
}

skip_settles_example :
    let once = mark_task_segments_skipped batch (text "T-1") 7 in
    (all (λ s. is_settled s.status) (segments_for_task once.0 (text "T-1")) ≡ true)
    × (mark_task_segments_skipped once.0 (text "T-1") 8 ≡ (once.0, []))
skip_settles_example = skip_settles batch (text "T-1") 7 8

outcome_spares_example :
    Others
      (λ s. text_eq s.task_id (text "T-1") && text_eq s.segment_id api && is_unfinished s.status)
      batch.segments
      (apply_re_execution_outcome_to_segments batch.segments
        (text "T-1")
        true
        outcome
        (some api)
        9).0
outcome_spares_example = outcome_spares batch.segments (text "T-1") true outcome api 9

advance_skips_failed : (advance_active_segment batch (text "T-1")).1 ≡ some web
unfolding advance_active_segment text_eq
advance_skips_failed = refl
