-- ===== src/SegmentPlans/Rounds.antt =====
-- `buildSegmentFrontierWaves` of engine.ts: the waves of tasks as rounds of segments. The fields that
-- it sets on the parsed tasks are left out, and its statuses are among those of the batch.
pub mod Shares
pub mod Complete
mod Tests
use taskplane.Base.{
  ℕ, zero, suc, ◌+◌, ltb, if◌then◌else◌, Bool, true, false, List, [], ◌∷◌, ◌++◌, map, filter,
  length, Option, none, some, Text, text, text_eq, has, add, Dict, get, get_or, set, push_to,
  is_empty, sort_by,
}
use Prim.Native.Nat.{max}
use taskplane.Base.Chars.{trim}
use taskplane.Batch.{Status, pending}
use taskplane.Types.{ParsedTask}
use taskplane.SegmentPlans.Build.{
  TaskSegmentNode, TaskSegmentEdge, TaskSegmentPlan, repo_singleton, build_segment_id,
}
use taskplane.SegmentPlans.Linear.{linearize_task_segment_plan}

abbrev or_default_repo : Text → Text
or_default_repo [] = text "default"
or_default_repo (c ∷ t) = c ∷ t

abbrev trimmed_repo : Option Text → Text
trimmed_repo none = text "default"
trimmed_repo (some repo) = or_default_repo (trim repo)

unfoldable pub build_fallback_segment_plan : Text → ParsedTask → TaskSegmentPlan
unfolding trim
build_fallback_segment_plan id task = record {
  task_id = id;
  segments =
      record {
        segment_id = id ++ text "::" ++ trimmed_repo task.resolved_repo_id;
        task_id = id;
        repo_id = trimmed_repo task.resolved_repo_id;
        order = 0;
      }
      ∷ [];
  edges = [];
  mode = repo_singleton;
}

abbrev no_dependencies : List TaskSegmentNode → Dict (List Text) → Dict (List Text)
no_dependencies [] deps = deps
no_dependencies (s ∷ segments) deps = no_dependencies segments (set s.segment_id [] deps)

abbrev push_dependency : TaskSegmentEdge → Dict (List Text) → Dict (List Text)
push_dependency e deps = elim (get e.to_segment_id deps) [
  | none ↦ deps
  | some _ ↦ push_to e.to_segment_id e.from_segment_id deps
]

abbrev push_dependencies : List TaskSegmentEdge → Dict (List Text) → Dict (List Text)
push_dependencies [] deps = deps
push_dependencies (e ∷ edges) deps = push_dependencies edges (push_dependency e deps)

-- `new Set`.
abbrev unique : List Text → List Text → List Text
unique [] seen = seen
unique (x ∷ xs) seen = unique xs (add x seen)

abbrev sort_unique : (Text → Text → Bool) → Dict (List Text) → Dict (List Text)
sort_unique locale_le [] = []
sort_unique locale_le ((k, v) ∷ d) = (k, sort_by locale_le (unique v [])) ∷ sort_unique locale_le d

unfoldable pub build_segment_dependency_map :
    (Text → Text → Bool) → TaskSegmentPlan → Dict (List Text)
unfolding push_to get set add sort_by
build_segment_dependency_map locale_le plan =
    sort_unique locale_le (push_dependencies plan.edges (no_dependencies plan.segments []))

pub record SegmentFrontierTaskState : Type 0 where
  pub task_id : Text
  pub ordered_segments : List TaskSegmentNode
  pub next_segment_index : ℕ
  pub status_by_segment_id : Dict Status
  pub depends_on_by_segment_id : Dict (List Text)
  pub terminal_status : Status

abbrev all_pending : List TaskSegmentNode → Dict Status → Dict Status
all_pending [] d = d
all_pending (s ∷ segments) d = all_pending segments (set s.segment_id pending d)

unfoldable pub plan_of : Dict TaskSegmentPlan → Text → ParsedTask → TaskSegmentPlan
unfolding get build_fallback_segment_plan
plan_of plans id task = elim (get id plans) [
  | none ↦ build_fallback_segment_plan id task
  | some plan ↦ plan
]

unfoldable pub task_state :
    (Text → Text → Bool) → Text → TaskSegmentPlan → List TaskSegmentNode → SegmentFrontierTaskState
unfolding build_segment_dependency_map set
task_state locale_le id plan ordered = record {
  task_id = id;
  ordered_segments = ordered;
  next_segment_index = 0;
  status_by_segment_id = all_pending ordered [];
  depends_on_by_segment_id = build_segment_dependency_map locale_le plan;
  terminal_status = pending;
}

-- The loop over the pending tasks.
unfoldable pub task_states :
    (Text → Text → Bool)
    → Dict TaskSegmentPlan
    → Dict ParsedTask
    → Dict SegmentFrontierTaskState
    → Option (Dict SegmentFrontierTaskState)
unfolding plan_of linearize_task_segment_plan task_state set
task_states locale_le plans [] states = some states
task_states locale_le plans ((id, task) ∷ tasks) states =
    elim (linearize_task_segment_plan locale_le (plan_of plans id task)) [
      | none ↦ none
      | some ordered ↦
          task_states locale_le plans tasks
            (set id (task_state locale_le id (plan_of plans id task) ordered) states)
    ]

-- A task without a state has no segments to run.
unfoldable pub segment_count : Dict SegmentFrontierTaskState → Text → ℕ
unfolding get
segment_count states id = elim (get id states) [ none ↦ 0 | some s ↦ length s.ordered_segments ]

abbrev pub max_segments : Dict SegmentFrontierTaskState → List Text → ℕ
max_segments states [] = 0
max_segments states (id ∷ ids) = max (segment_count states id) (max_segments states ids)

abbrev pub segment_round : Dict SegmentFrontierTaskState → List Text → ℕ → List Text
segment_round states wave index = filter (λ id. ltb index (segment_count states id)) wave

-- `expanded` and `roundToTaskWave`, together.
abbrev pub push_round : List Text → ℕ → List (List Text × ℕ) → List (List Text × ℕ)
push_round [] wave_index rounds = rounds
push_round (id ∷ ids) wave_index rounds = (id ∷ ids, wave_index) ∷ rounds

-- The rounds of a wave from an index on.
abbrev pub wave_rounds :
    Dict SegmentFrontierTaskState → List Text → ℕ → ℕ → ℕ → List (List Text × ℕ)
wave_rounds states wave wave_index zero index = []
wave_rounds states wave wave_index (suc left) index =
    push_round (segment_round states wave index) wave_index
      (wave_rounds states wave wave_index left (index + 1))

abbrev pub expand_waves :
    Dict SegmentFrontierTaskState → List (List Text) → ℕ → List (List Text × ℕ)
expand_waves states [] wave_index = []
expand_waves states (wave ∷ waves) wave_index =
    wave_rounds states wave wave_index (max_segments states wave) 0
    ++ expand_waves states waves (wave_index + 1)

pub record SegmentFrontierResult : Type 0 where
  pub waves : List (List Text)
  pub task_state_by_id : Dict SegmentFrontierTaskState
  pub task_level_wave_count : ℕ
  pub round_to_task_wave : List ℕ

abbrev pub frontier_result :
    List (List Text) → Dict SegmentFrontierTaskState → SegmentFrontierResult
frontier_result waves states =
    let rounds = expand_waves states waves 0 in
    record {
      waves = map (λ (r : List Text × ℕ). r.0) rounds;
      task_state_by_id = states;
      task_level_wave_count = length waves;
      round_to_task_wave = map (λ (r : List Text × ℕ). r.1) rounds;
    }

unfoldable pub build_segment_frontier_waves :
    (Text → Text → Bool)
    → List (List Text)
    → Dict ParsedTask
    → Dict TaskSegmentPlan
    → Option SegmentFrontierResult
unfolding task_states segment_count
build_segment_frontier_waves locale_le waves pending_tasks plans =
    elim (task_states locale_le plans pending_tasks []) [
      | none ↦ none
      | some states ↦ some (frontier_result waves states)
    ]
