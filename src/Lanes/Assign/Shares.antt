-- ===== src/Lanes/Assign/Shares.antt =====
-- About the lanes of `assignTasksToLanes`: where each task ends up.
use taskplane.Base.{
  ℕ, zero, suc, ◌+◌, ◌<◌, ◌≡◌, refl, if◌then◌else◌, true, false, ◌&&◌, List, [], ◌∷◌, ◌++◌, map,
  length, flatten, Text, text_eq, text_eq_iff, count, count-append, Dict, get, arith, inl, inr, ◌⊎◌,
  ap, Option-cases,
}
use taskplane.Types.{ParsedTask, LaneAssignment}
use taskplane.Lanes.Assign.{Lane, add_task, fill, modify_at, is_pending_task}

abbrev pub ids_of : List LaneAssignment → List Text
ids_of tasks = map (λ (a : LaneAssignment). a.task_id) tasks

abbrev pub all_tasks : List Lane → List LaneAssignment
all_tasks lanes = flatten (map (λ (l : Lane). l.tasks) lanes)

pub ids_of-append : (ps qs : List LaneAssignment) → ids_of (ps ++ qs) ≡ ids_of ps ++ ids_of qs
ids_of-append [] qs = refl
ids_of-append (a ∷ ps) qs = rw (ids_of-append ps qs) refl

module _ (weights : Dict ℕ) (pending : Dict ParsedTask) where
  -- The tasks of a lane after one more id.
  pub tasks-add_task :
      (number : ℕ) (id : Text) (l : Lane)
      → ((add_task weights pending number id l).tasks ≡ l.tasks)
          × (is_pending_task pending id ≡ false)
        ⊎ ((t : ParsedTask) × ((add_task weights pending number id l).tasks
              ≡ l.tasks ++ record { task_id = id; lane = number; task = t } ∷ [])
            × (is_pending_task pending id ≡ true))
  unfolding add_task
  tasks-add_task number id l = elim (Option-cases (get id pending)) [
    | inl e ↦ inl (rw (e, add_task) refl, rw (e, is_pending_task) refl)
    | inr (t, e) ↦ inr (t, rw (e, add_task) refl, rw (e, is_pending_task) refl)
  ]

  count-add_task :
      (x : Text) (number : ℕ) (id : Text) (l : Lane)
      → count x (ids_of (add_task weights pending number id l).tasks)
        ≡ count x (ids_of l.tasks) + (if is_pending_task pending x && text_eq x id then 1 else 0)
  unfolding count
  count-add_task x number id l = elim (tasks-add_task number id l) [
    | inl (e, no_task) ↦ ground (arith, ap (λ ts. count x (ids_of ts)) e, text_eq_iff x id)
    | inr (t, e, known) ↦
        let entry : LaneAssignment = record { task_id = id; lane = number; task = t } in
        ground (
          arith,
          ap (λ ts. count x (ids_of ts)) e,
          ids_of-append l.tasks (entry ∷ []),
          count-append x (ids_of l.tasks) (id ∷ []),
          text_eq_iff x id,
        )
  ]

  pub count-fill :
      (x : Text) (number : ℕ) (g : List Text) (l : Lane)
      → count x (ids_of (fill weights pending number g l).tasks)
        ≡ count x (ids_of l.tasks) + (if is_pending_task pending x then count x g else 0)
  unfolding fill count
  count-fill x number [] l = ground arith
  count-fill x number (id ∷ ids) l = ground (
    arith,
    count-fill x number ids (add_task weights pending number id l),
    count-add_task x number id l,
  )

  pub count-assign :
      (x : Text) (number : ℕ) (g : List Text) (i : ℕ) (lanes : List Lane)
      → i < length lanes
      → count x (ids_of (all_tasks (modify_at i (fill weights pending number g) lanes)))
        ≡ count x (ids_of (all_tasks lanes)) + (if is_pending_task pending x then count x g else 0)
  count-assign x number g i [] h = absurd (omega arith)
  count-assign x number g zero (l ∷ lanes) h = ground (
    arith,
    count-fill x number g l,
    ids_of-append l.tasks (all_tasks lanes),
    ids_of-append (fill weights pending number g l).tasks (all_tasks lanes),
    count-append x (ids_of l.tasks) (ids_of (all_tasks lanes)),
    count-append x (ids_of (fill weights pending number g l).tasks) (ids_of (all_tasks lanes)),
  )
  count-assign x number g (suc i) (l ∷ lanes) h = ground (
    arith,
    count-assign x number g i lanes,
    ids_of-append l.tasks (all_tasks lanes),
    ids_of-append l.tasks (all_tasks (modify_at i (fill weights pending number g) lanes)),
    count-append x (ids_of l.tasks) (ids_of (all_tasks lanes)),
    count-append x (ids_of l.tasks)
        (ids_of (all_tasks (modify_at i (fill weights pending number g) lanes))),
  )
