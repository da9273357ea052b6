-- ===== src/Lanes/Plan.antt =====
-- `validateAllocationInputs` of waves.ts, and `allocateLanes` up to the worktrees.
pub mod Groups
pub mod Numbers
pub mod Entries
pub mod Complete
mod Tests
use taskplane.Base.{
  ℕ, suc, ◌+◌, ◌==◌, leb, if◌then◌else◌, Bool, true, false, not, List, [], ◌∷◌, ◌++◌, filter, any,
  length, is_empty, Option, none, some, Text, text, has, Dict, get, sort_by,
}
use taskplane.Base.Chars.{trim}
use taskplane.Types.{ParsedTask, LaneAssignment, AllocationErrorCode}
use taskplane.Lanes.Assign.{assign_tasks_to_lanes, is_pending_task}
use taskplane.Lanes.Repos.{RepoTaskGroup, LaneEntry, group_tasks_by_repo, enforce_global_lane_cap}

-- The part of the configuration that an allocation reads.
pub record AllocationConfig : Type 0 where
  pub max_lanes : ℕ
  pub worktree_prefix : Option Text
  pub strategy : Text
  pub size_weights : Dict ℕ

abbrev pub missing_tasks : Dict ParsedTask → List Text → List Text
missing_tasks pending wave = filter (λ id. not (is_pending_task pending id)) wave

abbrev pub valid_strategies : List Text
valid_strategies = text "affinity-first" ∷ text "round-robin" ∷ text "load-balanced" ∷ []

-- `!prefix?.trim()`.
unfoldable pub is_blank : Option Text → Bool
unfolding trim
is_blank none = true
is_blank (some prefix) = is_empty (trim prefix)

-- A number of lanes is a natural number, so that 0 alone is refused.
unfoldable pub validate_allocation_inputs :
    List Text → Dict ParsedTask → AllocationConfig → Option AllocationErrorCode
unfolding is_blank has get
validate_allocation_inputs wave pending config =
    if config.max_lanes == 0
    then some AllocationErrorCode.alloc_invalid_config
    else (if is_empty wave
        then some AllocationErrorCode.alloc_empty_wave
        else (if not (is_empty (missing_tasks pending wave))
            then some AllocationErrorCode.alloc_task_not_found
            else (if not (has config.strategy valid_strategies)
                then some AllocationErrorCode.alloc_invalid_config
                else (if is_blank config.worktree_prefix
                    then some AllocationErrorCode.alloc_invalid_config
                    else none))))

abbrev pub add_number : ℕ → List ℕ → List ℕ
add_number n ns = if any (λ m. m == n) ns then ns else ns ++ n ∷ []

-- `new Set` of the lanes.
abbrev pub lane_numbers : List LaneAssignment → List ℕ → List ℕ
lane_numbers [] ns = ns
lane_numbers (a ∷ assignments) ns = lane_numbers assignments (add_number a.lane ns)

unfoldable pub sorted_local_lanes : List LaneAssignment → List ℕ
unfolding sort_by
sorted_local_lanes assignments = sort_by leb (lane_numbers assignments [])

-- What `byLocalLane` holds for a lane: its assignments, in their order.
abbrev pub on_lane : ℕ → List LaneAssignment → List LaneAssignment
on_lane n assignments = filter (λ (a : LaneAssignment). a.lane == n) assignments

-- The entries of a repository. No lane is twice among the sorted ones, so `localToGlobal` gives them
-- the numbers after `offset`.
abbrev pub entries_of : ℕ → Option Text → List LaneAssignment → List ℕ → List LaneEntry
entries_of offset repo assignments [] = []
entries_of offset repo assignments (n ∷ ns) =
    record {
      global_lane = offset + 1;
      local_lane = n;
      repo_id = repo;
      assignments = on_lane n assignments;
    }
    ∷ entries_of (offset + 1) repo assignments ns

-- The loop over the groups of tasks.
unfoldable pub global_lane_entries :
    (Text → Text → Bool)
    → Dict ParsedTask
    → AllocationConfig
    → List RepoTaskGroup
    → ℕ
    → Option (List LaneEntry)
unfolding assign_tasks_to_lanes sorted_local_lanes
global_lane_entries locale_le pending config [] offset = some []
global_lane_entries locale_le pending config (g ∷ groups) offset =
    elim (assign_tasks_to_lanes locale_le g.task_ids pending config.max_lanes config.strategy
      config.size_weights) [
        | none ↦ none
        | some r ↦
            let lanes = sorted_local_lanes r in
            elim (global_lane_entries locale_le pending config groups (offset + length lanes)) [
              | none ↦ none
              | some rest ↦ some (entries_of offset g.repo_id r lanes ++ rest)
            ]
      ]

-- The lanes for which worktrees are made, or the code of the error.
pub data LanePlan : Type 0 where
  refused : AllocationErrorCode → LanePlan
  planned : List LaneEntry → LanePlan

abbrev pub plan_or_refuse : List LaneEntry → LanePlan
plan_or_refuse [] = LanePlan.refused AllocationErrorCode.alloc_empty_wave
plan_or_refuse (e ∷ entries) = LanePlan.planned (e ∷ entries)

unfoldable pub plan_lanes :
    (Text → Text → Bool) → List Text → Dict ParsedTask → AllocationConfig → Option LanePlan
unfolding validate_allocation_inputs global_lane_entries group_tasks_by_repo enforce_global_lane_cap
plan_lanes locale_le wave pending config = elim (validate_allocation_inputs wave pending config) [
  | some code ↦ some (LanePlan.refused code)
  | none ↦
      elim (global_lane_entries locale_le pending config (group_tasks_by_repo wave pending) 0) [
        | none ↦ none
        | some entries ↦ some (plan_or_refuse (enforce_global_lane_cap entries config.max_lanes))
      ]
]
