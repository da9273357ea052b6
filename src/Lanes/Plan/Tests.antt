-- ===== src/Lanes/Plan/Tests.antt =====
-- A wave of three tasks in two repositories, planned for two lanes.
use taskplane.Base.{
  ℕ, ◌≤◌, ◌≡◌, ◌⊎◌, refl, List, [], ◌∷◌, length, some, none, Text, text, text_eq, text_eq_iff,
  text_le, has, count, Distinct, Dict, get, set, push_to, sort, sort_by, total, arith,
}
use taskplane.Base.Chars.{trim, starts_with, has_code, split_once}
use taskplane.Types.{ParsedTask, LaneAssignment, AllocationErrorCode}
use taskplane.Lanes.Affinity.Components.{Keyed, Keyed-All}
use taskplane.Lanes.Repos.{LaneEntry, group_tasks_by_repo}
use taskplane.Lanes.Repos.Cap.{places}
use taskplane.Lanes.Repos.Enforce.{Sequential}
use taskplane.Lanes.Plan.{AllocationConfig, LanePlan, validate_allocation_inputs, plan_lanes}
use taskplane.Lanes.Plan.Complete.{plan_lanes_complete}

abbrev task : Text → Text → ParsedTask
task id repo = record {
  task_id = id;
  size = text "M";
  dependencies = [];
  file_scope = [];
  prompt_path = [];
  resolved_repo_id = some repo;
  explicit_segment_dag = none;
}

abbrev a : Text
a = text "A"

abbrev b : Text
b = text "B"

abbrev c : Text
c = text "C"

abbrev wave : List Text
wave = a ∷ b ∷ c ∷ []

abbrev pending : Dict ParsedTask
pending = (a, task a (text "web")) ∷ (b, task b (text "api")) ∷ (c, task c (text "web")) ∷ []

abbrev config : AllocationConfig
config = record {
  max_lanes = 2;
  worktree_prefix = some (text "wt");
  strategy = text "load-balanced";
  size_weights = (text "M", 2) ∷ [];
}

abbrev assigned : ℕ → Text → Text → LaneAssignment
assigned lane id repo = record { task_id = id; lane = lane; task = task id repo }

abbrev entry : ℕ → Text → List LaneAssignment → LaneEntry
entry n repo assignments = record {
  global_lane = n;
  local_lane = 1;
  repo_id = some repo;
  assignments = assignments;
}

run : Unit {0}
unfolding plan_lanes validate_allocation_inputs has get set push_to sort sort_by text_eq text_le
    trim starts_with has_code split_once
run = tt

valid : validate_allocation_inputs wave pending config ≡ none
unfolding run
valid = refl

-- The second lane of `web` is merged into its first.
plan_run :
    plan_lanes text_le wave pending config
    ≡ some (
        LanePlan.planned (
          entry 1 (text "api") (assigned 1 b (text "api") ∷ [])
          ∷ entry 2 (text "web") (assigned 1 a (text "web") ∷ assigned 2 c (text "web") ∷ [])
          ∷ []))
unfolding run
plan_run = refl

unknown_run :
    plan_lanes text_le (a ∷ text "X" ∷ []) pending config
    ≡ some (LanePlan.refused AllocationErrorCode.alloc_task_not_found)
unfolding run
unknown_run = refl

pending-Keyed : Keyed pending
pending-Keyed = Keyed-All pending (refl, (refl, (refl, tt)))

wave-Distinct : Distinct wave
unfolding count text_eq
wave-Distinct x = ground (arith, text_eq_iff x a, text_eq_iff x b, text_eq_iff x c)

plan_lanes_complete_example :
    (plan : List LaneEntry) × (plan_lanes text_le wave pending config
      ≡ some (LanePlan.planned plan))
    × ((x : Text) → total (places x) plan ≡ count x wave)
    × ((length plan ≤ 2) ⊎ (length plan ≤ length (group_tasks_by_repo wave pending)))
    × Sequential 1 plan
plan_lanes_complete_example =
    plan_lanes_complete text_le wave pending config pending-Keyed wave-Distinct valid
