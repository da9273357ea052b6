-- ===== src/Resume/Frontier.antt =====
-- `reconstructSegmentFrontier` of resume.ts. `locale_le a b` stands for
-- `a.localeCompare(b) <= 0`, whose order depends on the locale.
pub mod Laws
pub mod Retry
use taskplane.Base.{
  ℕ, if◌then◌else◌, Bool, true, false, not, ◌&&◌, ◌||◌, List, [], ◌∷◌, ◌++◌, map, foldl, filter,
  find, all, any, is_empty, Option, none, some, Text, text, text_eq, has, add, Dict, get_or, set,
  sort_by,
}
use taskplane.Batch.{
  Status, pending, running, succeeded, failed, stalled, skipped, held, SegmentRecord, TaskRecord,
  BatchState,
}
use taskplane.Holds.Records.{HoldRecord}
use taskplane.Holds.Authority.{is_hold_unresolved}
use taskplane.Segments.{record_by_id}

pub data SegmentClass : Type 0 where
  completed_class failed_class in_flight_class pending_class : SegmentClass

-- An absent record counts as pending, and so does a held one.
unfoldable pub classify_segment_status : Option Status → SegmentClass
classify_segment_status none = pending_class
classify_segment_status (some succeeded) = completed_class
classify_segment_status (some skipped) = completed_class
classify_segment_status (some failed) = failed_class
classify_segment_status (some stalled) = failed_class
classify_segment_status (some running) = in_flight_class
classify_segment_status (some _) = pending_class

abbrev pub is_class : SegmentClass → SegmentClass → Bool
is_class completed_class completed_class = true
is_class failed_class failed_class = true
is_class in_flight_class in_flight_class = true
is_class pending_class pending_class = true
is_class _ _ = false

abbrev pub status_of : List SegmentRecord → Text → Option Status
status_of segments id = elim (record_by_id segments id) [ none ↦ none | some s ↦ some s.status ]

abbrev pub ids_of : SegmentClass → List SegmentRecord → List Text → List Text
ids_of c segments ids =
    filter (λ id. is_class c (classify_segment_status (status_of segments id))) ids

-- `array[0] ?? next`.
abbrev pub first_or : List Text → Option Text → Option Text
first_or [] next = next
first_or (x ∷ _) next = some x

abbrev is_status_succeeded : Option Status → Bool
is_status_succeeded (some succeeded) = true
is_status_succeeded _ = false

abbrev pub all_succeeded : List SegmentRecord → List Text → Bool
all_succeeded segments ids = all (λ id. is_status_succeeded (status_of segments id)) ids

abbrev is_skipped : Status → Bool
is_skipped skipped = true
is_skipped _ = false

abbrev kept_skipped : Status → Status
kept_skipped s = if is_skipped s then skipped else failed

pub record SegmentFrontier : Type 0 where
  pub task_id : Text
  pub completed_segment_ids : List Text
  pub in_flight_segment_ids : List Text
  pub pending_segment_ids : List Text
  pub failed_segment_ids : List Text
  pub next_segment_id : Option Text
  pub all_succeeded : Bool
  pub dependency_by_segment_id : Dict (List Text)

abbrev pub has_record : List SegmentRecord → Text → Bool
has_record segments id = elim (record_by_id segments id) [ none ↦ false | some _ ↦ true ]

abbrev recorded_dependencies : Option SegmentRecord → List Text
recorded_dependencies none = []
recorded_dependencies (some s) = s.depends_on_segment_ids

abbrev fallback_dependencies : Option Text → List Text
fallback_dependencies none = []
fallback_dependencies (some p) = p ∷ []

module _ (locale_le : Text → Text → Bool) where
  -- The dependencies of one segment: those recorded, else the segment before it.
  abbrev own_dependencies : List SegmentRecord → List Text → Option Text → Text → List Text
  own_dependencies segments ids previous id =
      let recorded = recorded_dependencies (record_by_id segments id) in
      let fallback = fallback_dependencies previous in
      let deps = filter (λ d. has d ids) (if is_empty recorded then fallback else recorded) in
      sort_by locale_le (foldl (λ s d. add d s) [] deps)

  unfoldable pub dependency_map :
      List SegmentRecord → List Text → Option Text → List Text → Dict (List Text) → Dict (List Text)
  dependency_map segments ids previous [] d = d
  dependency_map segments ids previous (id ∷ rest) d =
      dependency_map segments ids (some id) rest
        (set id (own_dependencies segments ids previous id) d)

  abbrev pub dependencies : List SegmentRecord → List Text → Dict (List Text)
  dependencies segments ids = dependency_map segments ids none ids []

  abbrev pub ready_pending : List SegmentRecord → List Text → List Text
  ready_pending segments ids =
      filter
        (λ id.
          all (λ d. has d (ids_of completed_class segments ids))
            (get_or (dependencies segments ids) id []))
        (ids_of pending_class segments ids)

  unfoldable pub next_segment : List SegmentRecord → List Text → Option Text
  next_segment segments ids =
      first_or (ids_of in_flight_class segments ids)
        (first_or (ready_pending segments ids) (first_or (ids_of pending_class segments ids) none))

  frontier_of : List SegmentRecord → TaskRecord → SegmentFrontier
  unfolding dependency_map next_segment
  frontier_of segments task = record {
    task_id = task.task_id;
    completed_segment_ids = ids_of completed_class segments task.segment_ids;
    in_flight_segment_ids = ids_of in_flight_class segments task.segment_ids;
    pending_segment_ids = ids_of pending_class segments task.segment_ids;
    failed_segment_ids = ids_of failed_class segments task.segment_ids;
    next_segment_id = next_segment segments task.segment_ids;
    all_succeeded = all_succeeded segments task.segment_ids;
    dependency_by_segment_id = dependencies segments task.segment_ids;
  }

  -- The task's `status` and `activeSegmentId` follow its segments, if one of them has a record.
  unfoldable pub update_task : List SegmentRecord → TaskRecord → TaskRecord
  unfolding record_by_id classify_segment_status dependency_map next_segment
  update_task segments task =
      let ids = task.segment_ids in
      let in_flight = ids_of in_flight_class segments ids in
      if is_empty ids || not (any (has_record segments) ids)
      then task
      else (if not (is_empty (ids_of failed_class segments ids))
          then record task { status = kept_skipped task.status; active_segment_id = none }
          else (if not (is_empty in_flight)
              then record task { status = running; active_segment_id = first_or in_flight none }
              else (if not (is_empty (ids_of pending_class segments ids))
                  then record task {
                    status = pending;
                    active_segment_id = next_segment segments ids;
                  }
                  else (if all_succeeded segments ids
                      then record task { status = succeeded; active_segment_id = none }
                      else record task {
                        status = kept_skipped task.status;
                        active_segment_id = none;
                      }))))

  -- The map that is returned. A task without segments has no entry.
  frontiers : List SegmentRecord → List TaskRecord → Dict SegmentFrontier → Dict SegmentFrontier
  unfolding frontier_of
  frontiers segments [] d = d
  frontiers segments (task ∷ tasks) d =
      frontiers segments tasks
        (if is_empty task.segment_ids then d else set task.task_id (frontier_of segments task) d)

  unfoldable pub reconstruct_segment_frontier : BatchState → BatchState × Dict SegmentFrontier
  unfolding update_task frontiers
  reconstruct_segment_frontier state = (
    record state { tasks = map (update_task state.segments) state.tasks },
    frontiers state.segments state.tasks [],
  )
