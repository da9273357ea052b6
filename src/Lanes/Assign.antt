-- ===== src/Lanes/Assign.antt =====
-- `assignTasksToLanes` of waves.ts. A lane is its entries in the two arrays `laneWeights` and
-- `laneAssignments`, and weights are natural numbers.
pub mod Steps
pub mod Shares
pub mod Lanes
pub mod Ended
pub mod Total
use taskplane.Base.{
  ℕ, suc, ◌+◌, ◌%◌, ◌==◌, ltb, min, if◌then◌else◌, Bool, true, false, ◌&&◌, ◌||◌, List, [], ◌∷◌,
  ◌++◌, map, filter, any, length, replicate, flatten, Option, none, some, Text, text, text_eq, Dict,
  get, get_or, sort_by, total,
}
use taskplane.Types.{ParsedTask, LaneAssignment}
use taskplane.Lanes.Affinity.{apply_file_scope_affinity, first_or_empty}

pub record Lane : Type 0 where
  pub weight : ℕ
  pub tasks : List LaneAssignment

-- `a || b` on numbers.
abbrev or_else_weight : ℕ → ℕ → ℕ
or_else_weight a b = if a == 0 then b else a

abbrev default_weight : Dict ℕ → ℕ
default_weight weights = or_else_weight (get_or weights (text "M") 0) 2

unfoldable pub get_weight : Dict ℕ → Dict ParsedTask → Text → ℕ
unfolding get
get_weight weights pending id = elim (get id pending) [
  | none ↦ default_weight weights
  | some t ↦ or_else_weight (get_or weights t.size 0) (default_weight weights)
]

-- The body of the loop over a group, for the lane of this number.
unfoldable pub add_task : Dict ℕ → Dict ParsedTask → ℕ → Text → Lane → Lane
unfolding get get_weight
add_task weights pending number id lane = elim (get id pending) [
  | none ↦ lane
  | some t ↦ record {
    weight = lane.weight + get_weight weights pending id;
    tasks = lane.tasks ++ record { task_id = id; lane = number; task = t } ∷ [];
  }
]

unfoldable pub fill : Dict ℕ → Dict ParsedTask → ℕ → List Text → Lane → Lane
unfolding add_task
fill weights pending number [] lane = lane
fill weights pending number (id ∷ ids) lane =
    fill weights pending number ids (add_task weights pending number id lane)

abbrev pub modify_at {ℓ} : {A : Type ℓ} → ℕ → (A → A) → List A → List A
modify_at i f [] = []
modify_at ℕ.zero f (x ∷ xs) = f x ∷ xs
modify_at (suc i) f (x ∷ xs) = x ∷ modify_at i f xs

unfoldable pub assign_group_to_lane :
    Dict ℕ → Dict ParsedTask → List Text → ℕ → List Lane → List Lane
unfolding fill
assign_group_to_lane weights pending group index lanes =
    modify_at index (fill weights pending (index + 1) group) lanes

-- The loop from index `i` on.
abbrev pub lightest_from : ℕ → List Lane → ℕ → ℕ → ℕ
lightest_from i [] min_index min_weight = min_index
lightest_from i (l ∷ lanes) min_index min_weight =
    lightest_from (i + 1) lanes (if ltb l.weight min_weight then i else min_index)
      (if ltb l.weight min_weight then l.weight else min_weight)

abbrev pub find_lightest_lane : List Lane → ℕ
find_lightest_lane [] = 0
find_lightest_lane (l ∷ lanes) = lightest_from 1 lanes 0 l.weight

unfoldable pub round_robin :
    Dict ℕ → Dict ParsedTask → ℕ → ℕ → List (List Text) → List Lane → List Lane
unfolding assign_group_to_lane
round_robin weights pending lane_count i [] lanes = lanes
round_robin weights pending lane_count i (g ∷ groups) lanes =
    round_robin weights pending lane_count (i + 1) groups
      (assign_group_to_lane weights pending g (i % lane_count) lanes)

unfoldable pub fill_lightest : Dict ℕ → Dict ParsedTask → List (List Text) → List Lane → List Lane
unfolding assign_group_to_lane
fill_lightest weights pending [] lanes = lanes
fill_lightest weights pending (g ∷ groups) lanes =
    fill_lightest weights pending groups
      (assign_group_to_lane weights pending g (find_lightest_lane lanes) lanes)

-- The comparators: heavier groups first, and by their first tasks where they weigh the same.
abbrev pub by_weight : (Text → Text → Bool) → (List Text → ℕ) → List Text → List Text → Bool
by_weight locale_le weigh a b =
    ltb (weigh b) (weigh a)
    || (weigh b == weigh a && locale_le (first_or_empty a) (first_or_empty b))

abbrev pub is_multi : List Text → Bool
is_multi g = ltb 1 (length g)

abbrev pub is_single : List Text → Bool
is_single g = length g == 1

abbrev pub heaviest_first :
    (Text → Text → Bool) → Dict ℕ → Dict ParsedTask → List (List Text) → List (List Text)
heaviest_first locale_le weights pending groups =
    sort_by (by_weight locale_le (λ g. total (get_weight weights pending) g)) groups

-- The order in which `affinity-first` places the groups.
abbrev pub multi_then_single :
    (Text → Text → Bool) → Dict ℕ → Dict ParsedTask → List (List Text) → List (List Text)
multi_then_single locale_le weights pending groups =
    heaviest_first locale_le weights pending (filter is_multi groups)
    ++ sort_by (by_weight locale_le (λ g. get_weight weights pending (first_or_empty g)))
        (filter is_single groups)

-- Step 4.
unfoldable pub place_groups :
    (Text → Text → Bool)
    → Text
    → Dict ℕ
    → Dict ParsedTask
    → ℕ
    → List (List Text)
    → List Lane
    → List Lane
unfolding round_robin fill_lightest sort_by get_weight text_eq
place_groups locale_le strategy weights pending lane_count groups lanes =
    if text_eq strategy (text "round-robin")
    then round_robin weights pending lane_count 0 groups lanes
    else (if text_eq strategy (text "load-balanced")
        then fill_lightest weights pending (heaviest_first locale_le weights pending groups) lanes
        else fill_lightest weights pending (multi_then_single locale_le weights pending groups)
            lanes)

abbrev pub is_pending_task : Dict ParsedTask → Text → Bool
is_pending_task pending id = elim (get id pending) [ none ↦ false | some _ ↦ true ]

abbrev pub empty_lane : Lane
empty_lane = record { weight = 0; tasks = [] }

-- Without lanes `laneAssignments[0]` is undefined, and the first task's push throws.
unfoldable pub assign_groups :
    (Text → Text → Bool)
    → List Text
    → Dict ParsedTask
    → ℕ
    → Text
    → Dict ℕ
    → List (List Text)
    → Option (List LaneAssignment)
unfolding place_groups get
assign_groups locale_le wave pending max_lanes strategy weights groups =
    let lane_count = min (length groups) max_lanes in
    if lane_count == 0
    then (if any (is_pending_task pending) wave then none else some [])
    else some (
        flatten (
          map (λ (l : Lane). l.tasks)
            (place_groups locale_le strategy weights pending lane_count groups
              (replicate lane_count empty_lane))))

unfoldable pub assign_tasks_to_lanes :
    (Text → Text → Bool)
    → List Text
    → Dict ParsedTask
    → ℕ
    → Text
    → Dict ℕ
    → Option (List LaneAssignment)
unfolding assign_groups apply_file_scope_affinity
assign_tasks_to_lanes locale_le [] pending max_lanes strategy weights = some []
assign_tasks_to_lanes locale_le (id ∷ ids) pending max_lanes strategy weights =
    elim (apply_file_scope_affinity locale_le (id ∷ ids) pending) [
      | none ↦ none
      | some groups ↦ assign_groups locale_le (id ∷ ids) pending max_lanes strategy weights groups
    ]
