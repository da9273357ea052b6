-- ===== src/Lanes/Assign/Total.antt =====
-- About `assignTasksToLanes` as a whole.
use taskplane.Base.{
  ℕ, ◌+◌, ◌==◌, ◌<◌, ◌≤◌, ◌≡◌, ◌↔◌, refl, sym, ◌∙◌, min, if◌then◌else◌, Bool, true, false, ◌&&◌,
  ◌||◌, List, [], ◌∷◌, ◌++◌, replicate, length, any, flatten, All, All-append, Option, some, Text,
  text_eq, text_eq_iff, has, has-append, has-cons_self, count, count_of_has, has_of_count, Distinct,
  Dict, arith, inl, inr, ap, Bool-cases,
}
use taskplane.Types.{ParsedTask, LaneAssignment}
use taskplane.Lanes.Forest.Classes.{Linked}
use taskplane.Lanes.Affinity.{apply_file_scope_affinity}
use taskplane.Lanes.Affinity.Groups.{together}
use taskplane.Lanes.Affinity.Components.{Keyed, Overlapping}
use taskplane.Lanes.Affinity.Refinement.{affinity_components}
use taskplane.Lanes.Assign.{
  Lane, empty_lane, is_pending_task, place_groups, assign_groups, assign_tasks_to_lanes,
}
use taskplane.Lanes.Assign.Shares.{ids_of, ids_of-append, all_tasks}
use taskplane.Lanes.Assign.Lanes.{In, Numbered, Alike}
use taskplane.Lanes.Assign.Ended.{Assigned, Assigned-place_groups}

-- The task stands in the lane of this number.
abbrev pub at_lane : Text → ℕ → List LaneAssignment → Bool
at_lane x n tasks = any (λ (a : LaneAssignment). text_eq a.task_id x && a.lane == n) tasks

at_lane-append :
    (x : Text) (n : ℕ) (ps qs : List LaneAssignment)
    → at_lane x n (ps ++ qs) ≡ (at_lane x n ps || at_lane x n qs)
at_lane-append x n [] qs = refl
at_lane-append x n (a ∷ ps) qs = ground (arith, at_lane-append x n ps qs)

at_lane-In :
    (x : Text) (n : ℕ) (tasks : List LaneAssignment)
    → In n tasks
    → has x (ids_of tasks) ≡ true
    → at_lane x n tasks ≡ true
unfolding has
at_lane-In x n [] h hx = cc
at_lane-In x n (a ∷ tasks) h hx =
    ground (arith, h.0, at_lane-In x n tasks h.1, text_eq_iff a.task_id x, text_eq_iff x a.task_id)

-- Tasks that stand in the same lanes meet in the lane of the one.
meets :
    (x y : Text) (i : ℕ) (lanes : List Lane)
    → Numbered i lanes
    → All (Alike x y) lanes
    → has x (ids_of (all_tasks lanes)) ≡ true
    → (n : ℕ) × (at_lane x n (all_tasks lanes) ≡ true) × (at_lane y n (all_tasks lanes) ≡ true)
unfolding has
meets x y i [] num alike h = cc
meets x y i (l ∷ lanes) num alike h = elim (Bool-cases (has x (ids_of l.tasks))) [
  | inl e ↦ (
    i,
    ground (arith, at_lane-append x i l.tasks (all_tasks lanes), at_lane-In x i l.tasks num.0),
    ground (
      arith,
      at_lane-append y i l.tasks (all_tasks lanes),
      at_lane-In y i l.tasks num.0,
      alike.0,
    ),
  )
  | inr e ↦
      let (n, hx, hy) = meets x y (i + 1) lanes num.1 alike.1 (later e) in
      (
        n,
        ground (arith, at_lane-append x n l.tasks (all_tasks lanes)),
        ground (arith, at_lane-append y n l.tasks (all_tasks lanes)),
      )
]
  where
    later : has x (ids_of l.tasks) ≡ false → has x (ids_of (all_tasks lanes)) ≡ true
    later e = ground (
      arith,
      has-append x (ids_of l.tasks) (ids_of (all_tasks lanes)),
      ap (has x) (ids_of-append l.tasks (all_tasks lanes)),
    )

abbrev pub Between : ℕ → ℕ → LaneAssignment → Type 0
Between low high a = (low ≤ a.lane) × (a.lane ≤ high)

in_range :
    (high i : ℕ) (lanes : List Lane)
    → 1 ≤ i
    → i + length lanes ≤ high + 1
    → Numbered i lanes
    → All (Between 1 high) (all_tasks lanes)
in_range high i [] low h num = tt
in_range high i (l ∷ lanes) low h num =
    All-append (Between 1 high) l.tasks (all_tasks lanes) (here l.tasks num.0)
      (in_range high (i + 1) lanes (omega arith) (omega arith) num.1)
  where
    here : (tasks : List LaneAssignment) → In i tasks → All (Between 1 high) tasks
    here [] n = tt
    here (a ∷ tasks) n = ((omega (arith, n.0), omega (arith, n.0)), here tasks n.1)

same_tasks : {a b : List LaneAssignment} → some a ≡ some b → a ≡ b
same_tasks h = cc

record Outcome (wave : List Text) (pending : Dict ParsedTask) (max_lanes : ℕ)
    (result : Option (List LaneAssignment)) : Type 0 where
  groups : List (List Text)
  lanes : List Lane
  lane_count : ℕ
  bounded : lane_count ≤ max_lanes
  runs : result ≡ some (all_tasks lanes)
  assigned : Assigned pending lane_count groups lanes
  counts : (x : Text) → count x (flatten groups) ≡ count x wave
  components :
      (x y : Text)
      → has x wave ≡ true
      → has y wave ≡ true
      → (together x y groups ≡ true) ↔ Linked (Overlapping pending wave) x y

assign_groups-runs :
    (locale_le : Text → Text → Bool) (wave : List Text) (pending : Dict ParsedTask) (max_lanes : ℕ)
    (strategy : Text) (weights : Dict ℕ) (groups : List (List Text))
    → 0 < min (length groups) max_lanes
    → let n = min (length groups) max_lanes in
      assign_groups locale_le wave pending max_lanes strategy weights groups
      ≡ some (
          all_tasks
            (place_groups locale_le strategy weights pending n groups (replicate n empty_lane)))
unfolding assign_groups
assign_groups-runs locale_le wave pending max_lanes strategy weights groups h =
    let some_lane : (min (length groups) max_lanes == 0) ≡ false = ground arith in rw some_lane refl

assign_tasks_to_lanes-groups :
    (locale_le : Text → Text → Bool) (id : Text) (ids : List Text) (pending : Dict ParsedTask)
    (max_lanes : ℕ) (strategy : Text) (weights : Dict ℕ) (groups : List (List Text))
    → apply_file_scope_affinity locale_le (id ∷ ids) pending ≡ some groups
    → assign_tasks_to_lanes locale_le (id ∷ ids) pending max_lanes strategy weights
      ≡ assign_groups locale_le (id ∷ ids) pending max_lanes strategy weights groups
unfolding assign_tasks_to_lanes
assign_tasks_to_lanes-groups locale_le id ids pending max_lanes strategy weights groups e =
    rw (e, assign_tasks_to_lanes) refl

some_group :
    (x : Text) (groups : List (List Text)) → 1 ≤ count x (flatten groups) → 0 < length groups
unfolding count
some_group x [] h = absurd (omega arith)
some_group x (g ∷ groups) h = omega arith

assign-Outcome :
    (locale_le : Text → Text → Bool) (wave : List Text) (pending : Dict ParsedTask) (max_lanes : ℕ)
    (strategy : Text) (weights : Dict ℕ)
    → Keyed pending
    → Distinct wave
    → 1 ≤ max_lanes
    → Outcome wave pending max_lanes
        (assign_tasks_to_lanes locale_le wave pending max_lanes strategy weights)
unfolding assign_tasks_to_lanes count has
assign-Outcome locale_le [] pending max_lanes strategy weights keyed distinct h = record {
  groups = [];
  lanes = [];
  lane_count = 0;
  bounded = omega arith;
  runs = refl;
  assigned = record {
    counted = λ x. ground arith;
    alike = λ x y px py t. cc;
    length_is = refl;
    numbered = tt;
  };
  counts = λ x. refl;
  components = λ x y hx hy. absurd (cc);
}
assign-Outcome locale_le (id ∷ ids) pending max_lanes strategy weights keyed distinct h =
    let (groups, runs, counts, components) =
      affinity_components locale_le (id ∷ ids) pending keyed in
    let n = min (length groups) max_lanes in
    let group : 0 < length groups =
      some_group id groups
        (omega (arith, counts id, count_of_has id (id ∷ ids) (has-cons_self id ids))) in
    let lane : 0 < n = omega arith in
    record {
      groups = groups;
      lanes = place_groups locale_le strategy weights pending n groups (replicate n empty_lane);
      lane_count = n;
      bounded = omega arith;
      runs =
          assign_tasks_to_lanes-groups locale_le id ids pending max_lanes strategy weights groups
            runs
          ∙ assign_groups-runs locale_le (id ∷ ids) pending max_lanes strategy weights groups lane;
      assigned =
          Assigned-place_groups weights pending locale_le strategy n groups lane
            (λ x. omega (arith, counts x, distinct x));
      counts = counts;
      components = components;
    }

-- With at least one lane, and each pending task kept under its own id, a wave without repetitions is
-- always assigned, whatever the strategy and the weights: each of its tasks that is pending gets one
-- place, other tasks none, and the lanes are numbered from 1 to at most the greatest number of lanes.
pub assign_complete :
    (locale_le : Text → Text → Bool) (wave : List Text) (pending : Dict ParsedTask) (max_lanes : ℕ)
    (strategy : Text) (weights : Dict ℕ)
    → Keyed pending
    → Distinct wave
    → 1 ≤ max_lanes
    → (r : List LaneAssignment) × (assign_tasks_to_lanes locale_le wave pending max_lanes strategy
          weights
        ≡ some r)
      × ((x : Text) → count x (ids_of r) ≡ (if is_pending_task pending x then count x wave else 0))
      × All (Between 1 max_lanes) r
assign_complete locale_le wave pending max_lanes strategy weights keyed distinct h =
    let o = assign-Outcome locale_le wave pending max_lanes strategy weights keyed distinct h in
    (
      all_tasks o.lanes,
      o.runs,
      λ x. ground (arith, o.assigned.counted x, o.counts x),
      in_range max_lanes 1 o.lanes (omega arith) (omega (arith, o.assigned.length_is, o.bounded))
          o.assigned.numbered,
    )

-- With at least one lane, each pending task kept under its own id and no task twice in the wave: two
-- pending tasks of the wave that a chain of overlapping file scopes links are assigned to one lane,
-- whatever the strategy.
pub assign_linked :
    (locale_le : Text → Text → Bool) (wave : List Text) (pending : Dict ParsedTask) (max_lanes : ℕ)
    (strategy : Text) (weights : Dict ℕ) (r : List LaneAssignment) (x y : Text)
    → Keyed pending
    → Distinct wave
    → 1 ≤ max_lanes
    → assign_tasks_to_lanes locale_le wave pending max_lanes strategy weights ≡ some r
    → has x wave ≡ true
    → has y wave ≡ true
    → is_pending_task pending x ≡ true
    → is_pending_task pending y ≡ true
    → Linked (Overlapping pending wave) x y
    → (n : ℕ) × (at_lane x n r ≡ true) × (at_lane y n r ≡ true)
assign_linked locale_le wave pending max_lanes strategy weights r x y keyed distinct h e hx hy px py
      l =
    let o = assign-Outcome locale_le wave pending max_lanes strategy weights keyed distinct h in
    let same : all_tasks o.lanes ≡ r = same_tasks (sym o.runs ∙ e) in
    rw (← same) (
      meets x y 1 o.lanes o.assigned.numbered
        (o.assigned.alike x y px py ((o.components x y hx hy).1 l))
        (has_of_count x (ids_of (all_tasks o.lanes))
          (ground (arith, o.assigned.counted x, o.counts x, count_of_has x wave))))
