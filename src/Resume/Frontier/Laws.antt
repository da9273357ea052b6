-- ===== src/Resume/Frontier/Laws.antt =====
-- What the reconstructed frontier of a task says of its segments.
use taskplane.Base.{
  ◌≡◌, ◌≢◌, ◌↔◌, refl, Bool, true, List, [], ◌∷◌, all, any, some, Text, has, get_or, arith,
  List-cases, inl, inr, has-filter, has-cons_self,
}
use taskplane.Batch.{succeeded, SegmentRecord, TaskRecord}
use taskplane.Resume.Frontier.{
  completed_class, failed_class, in_flight_class, pending_class, classify_segment_status, ids_of,
  all_succeeded, dependencies, ready_pending, next_segment, has_record, update_task,
}

none_left :
    (segments : List SegmentRecord) (ids : List Text)
    → all_succeeded segments ids ≡ true
    → (ids_of failed_class segments ids ≡ [])
      × (ids_of in_flight_class segments ids ≡ [])
      × (ids_of pending_class segments ids ≡ [])
unfolding classify_segment_status
none_left segments [] h = (refl, refl, refl)
none_left segments (y ∷ ids) h = ground (arith, none_left segments ids)

module _ (locale_le : Text → Text → Bool) (segments : List SegmentRecord) where
  -- A task that has a segment record is taken for succeeded exactly if each of its segments has
  -- succeeded; one skipped segment is enough to deny it.
  pub update_task-succeeded :
      (task : TaskRecord)
      → any (has_record segments) task.segment_ids ≡ true
      → ((update_task locale_le segments task).status ≡ succeeded)
        ↔ (all_succeeded segments task.segment_ids ≡ true)
  unfolding update_task
  update_task-succeeded task concrete =
      (λ e. ground arith, λ h. ground (arith, none_left segments task.segment_ids h))

  -- Where no segment runs and some pending one is ready, the next segment is pending, and each of its
  -- dependencies is completed.
  pub next_segment-ready :
      (ids : List Text)
      → ids_of in_flight_class segments ids ≡ []
      → ready_pending locale_le segments ids ≢ []
      → (s : Text) × (next_segment locale_le segments ids ≡ some s)
        × (has s (ids_of pending_class segments ids) ≡ true)
        × (all
              (λ d. has d (ids_of completed_class segments ids))
              (get_or (dependencies locale_le segments ids) s [])
            ≡ true)
  unfolding next_segment
  next_segment-ready ids idle some_ready =
      elim (List-cases (ready_pending locale_le segments ids)) [
        | inl e ↦ absurd (some_ready e)
        | inr (s, r, e) ↦
            let here : has s (ready_pending locale_le segments ids) ≡ true =
              rw e (has-cons_self s r) in
            let known = has-filter s (is_ready ids) (ids_of pending_class segments ids) in
            (s, rw (idle, e), ground arith, ground arith)
      ]
    where
      is_ready : List Text → Text → Bool
      is_ready ids id =
          all (λ d. has d (ids_of completed_class segments ids))
            (get_or (dependencies locale_le segments ids) id [])
