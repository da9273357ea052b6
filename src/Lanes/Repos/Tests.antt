-- ===== src/Lanes/Repos/Tests.antt =====
-- Three lanes of two repositories under a cap of two lanes.
use taskplane.Base.{
  ℕ, ◌≤◌, ◌≡◌, ◌⊎◌, refl, List, [], ◌∷◌, length, map, some, none, Text, text, text_eq, text_le, get,
  set, push_to, sort, total,
}
use taskplane.Types.{LaneAssignment}
use taskplane.Lanes.Repos.{LaneEntry, enforce_global_lane_cap}
use taskplane.Lanes.Repos.Cap.{places}
use taskplane.Lanes.Repos.Enforce.{repos_from, Sequential, cap_enforced}

abbrev assignment : Text → LaneAssignment
assignment id = record {
  task_id = id;
  lane = 1;
  task = record {
    task_id = id;
    size = text "M";
    dependencies = [];
    file_scope = [];
    prompt_path = [];
    resolved_repo_id = none;
    explicit_segment_dag = none;
  };
}

abbrev entry : ℕ → ℕ → Text → List Text → LaneEntry
entry global local repo ids = record {
  global_lane = global;
  local_lane = local;
  repo_id = some repo;
  assignments = map assignment ids;
}

abbrev entries : List LaneEntry
entries =
    entry 1 1 (text "api") (text "A" ∷ [])
    ∷ entry 2 1 (text "web") (text "B" ∷ [])
    ∷ entry 3 2 (text "web") (text "C" ∷ text "D" ∷ [])
    ∷ []

run : Unit {0}
unfolding enforce_global_lane_cap push_to get set sort text_eq text_le
run = tt

cap_run :
    enforce_global_lane_cap entries 2
    ≡ entry 1 1 (text "api") (text "A" ∷ [])
      ∷ entry 2 1 (text "web") (text "B" ∷ text "C" ∷ text "D" ∷ [])
      ∷ []
unfolding run
cap_run = refl

cap_enforced_example :
    let capped = enforce_global_lane_cap entries 2 in
    ((x : Text) → total (places x) capped ≡ total (places x) entries)
    × ((length capped ≤ 2) ⊎ (length capped ≤ length (repos_from entries [])))
    × Sequential 1 capped
cap_enforced_example = cap_enforced entries 2 (refl, (refl, (refl, tt)))
