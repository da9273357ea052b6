-- ===== src/Resume/Frontier/Retry.antt =====
-- About `resetTaskSegmentsForRetry`, followed by the frontier of the resume.
use taskplane.Base.{
  ◌≡◌, refl, Bool, true, false, List, [], ◌∷◌, map, any, is_empty, Option, none, some, Text,
  text_eq_iff, has, has-cons, has-cons_self, arith, ◌⊎◌, inl, inr, Option-cases,
}
use taskplane.Batch.{
  Status, pending, running, succeeded, failed, stalled, skipped, SegmentRecord, TaskRecord,
  BatchState,
}
use taskplane.Segments.{record_by_id, reset_segment, retry_segment, reset_task_segments_for_retry}
use taskplane.Resume.Frontier.{
  failed_class, in_flight_class, pending_class, classify_segment_status, status_of, ids_of,
  all_succeeded, has_record, update_task,
}

-- Neither failed, stalled, running nor skipped.
abbrev is_clean : Option Status → Bool
is_clean (some running) = false
is_clean (some failed) = false
is_clean (some stalled) = false
is_clean (some skipped) = false
is_clean _ = true

retried_record :
    (task_id : Text) (segments : List SegmentRecord) (id : Text)
    → record_by_id (map (retry_segment task_id) segments) id
      ≡ (elim (record_by_id segments id) [ none ↦ none | some s ↦ some (retry_segment task_id s) ])
unfolding record_by_id reset_task_segments_for_retry
retried_record task_id [] id = refl
retried_record task_id (s ∷ segments) id = ground (arith, retried_record task_id segments id)

clean_retry :
    (task_id : Text) (s : SegmentRecord)
    → s.task_id ≡ task_id
    → is_clean (some (retry_segment task_id s).status) ≡ true
unfolding reset_segment
clean_retry task_id s e = ground (arith, text_eq_iff s.task_id task_id)

clean_frontier :
    (segments : List SegmentRecord) (ids : List Text)
    → ((id : Text) → has id ids ≡ true → is_clean (status_of segments id) ≡ true)
    → (is_empty (ids_of failed_class segments ids) ≡ true)
      × (is_empty (ids_of in_flight_class segments ids) ≡ true)
      × ((is_empty (ids_of pending_class segments ids) ≡ false)
          ⊎ (all_succeeded segments ids ≡ true))
unfolding classify_segment_status
clean_frontier segments [] h = (refl, refl, inr refl)
clean_frontier segments (y ∷ ids) h = ground (
  arith,
  clean_frontier segments ids (λ id m. h id (has-cons id y ids m)),
  h y (has-cons_self y ids),
)

clean_reset :
    (state : BatchState) (task : TaskRecord)
    → ((id : Text) (s : SegmentRecord)
        → has id task.segment_ids ≡ true
        → record_by_id state.segments id ≡ some s
        → s.task_id ≡ task.task_id)
    → (id : Text) → has id task.segment_ids ≡ true
    → is_clean (status_of (map (retry_segment task.task_id) state.segments) id) ≡ true
clean_reset state task owned id m = elim (Option-cases (record_by_id state.segments id)) [
  | inl e ↦ ground (arith, retried_record task.task_id state.segments id)
  | inr (s, e) ↦ ground (
    arith,
    retried_record task.task_id state.segments id,
    clean_retry task.task_id s (owned id s m e),
  )
]

-- The segment records after the retry of a task.
abbrev pub retried : BatchState → TaskRecord → List SegmentRecord
retried state task = (reset_task_segments_for_retry state task.task_id).0.segments

-- After an operator's retry of a task whose segments are its own, and one of which has a record, the
-- next resume takes the task for pending, or for succeeded where all of its segments have succeeded;
-- it does not fall back to failed.
pub retry_reactivates :
    (locale_le : Text → Text → Bool) (state : BatchState) (task : TaskRecord)
    → ((id : Text) (s : SegmentRecord)
        → has id task.segment_ids ≡ true
        → record_by_id state.segments id ≡ some s
        → s.task_id ≡ task.task_id)
    → any (has_record (retried state task)) task.segment_ids ≡ true
    → ((update_task locale_le (retried state task) task).status ≡ pending)
      ⊎ (((update_task locale_le (retried state task) task).status ≡ succeeded)
          × (all_succeeded (retried state task) task.segment_ids ≡ true))
unfolding update_task reset_task_segments_for_retry
retry_reactivates locale_le state task owned concrete = ground (
  arith,
  clean_frontier (map (retry_segment task.task_id) state.segments) task.segment_ids
      (clean_reset state task owned),
)
