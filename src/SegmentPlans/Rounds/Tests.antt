-- ===== src/SegmentPlans/Rounds/Tests.antt =====
-- Two tasks of one wave, with one segment and with two.
use taskplane.Base.{
  ◌≡◌, refl, List, [], ◌∷◌, flatten, length, none, some, Option, Text, text, text_eq, text_eq_iff,
  text_le, has, add, count, Distinct, Dict, get, set, push_to, sort, sort_by, total, keys, arith,
}
use taskplane.Base.Chars.{trim, to_lower, to_upper, split_once}
use taskplane.Types.{ParsedTask}
use taskplane.Waves.References.{parse_dependency_reference}
use taskplane.SegmentPlans.Build.{TaskSegmentPlan, build_task_segment_plans}
use taskplane.SegmentPlans.Linear.{linearize_task_segment_plan}
use taskplane.SegmentPlans.Rounds.{SegmentFrontierResult, build_segment_frontier_waves}
use taskplane.SegmentPlans.Rounds.Complete.{planned_segments, frontier_rounds}

abbrev task : Text → Text → List Text → List Text → ParsedTask
task id repo scope dependencies = record {
  task_id = id;
  size = text "M";
  dependencies = dependencies;
  file_scope = scope;
  prompt_path = [];
  resolved_repo_id = some repo;
  explicit_segment_dag = none;
}

abbrev one_repo : Text
one_repo = text "TP-001"

abbrev two_repos : Text
two_repos = text "TP-002"

abbrev pending : Dict ParsedTask
pending =
    (one_repo, task one_repo (text "docs") [] [])
    ∷ (two_repos, task two_repos (text "api") (text "web/app.ts" ∷ []) (one_repo ∷ []))
    ∷ []

abbrev waves : List (List Text)
waves = (one_repo ∷ two_repos ∷ []) ∷ []

abbrev plans : Dict TaskSegmentPlan
plans = build_task_segment_plans text_le pending none

run : Unit {0}
unfolding build_segment_frontier_waves build_task_segment_plans linearize_task_segment_plan
    parse_dependency_reference has add get set push_to sort sort_by text_eq text_le trim to_lower
    to_upper split_once
run = tt

abbrev waves_of : Option SegmentFrontierResult → List (List Text)
waves_of none = []
waves_of (some r) = r.waves

rounds_run :
    waves_of (build_segment_frontier_waves text_le waves pending plans)
    ≡ (one_repo ∷ two_repos ∷ []) ∷ (two_repos ∷ []) ∷ []
unfolding run
rounds_run = refl

pending-Distinct : Distinct (keys pending)
unfolding count text_eq
pending-Distinct x = ground (arith, text_eq_iff x one_repo, text_eq_iff x two_repos)

frontier_rounds_example :
    (r : SegmentFrontierResult) × (build_segment_frontier_waves text_le waves pending plans
      ≡ some r)
    × ((x : Text)
        → count x (flatten r.waves)
          ≡ total (λ wave. total (λ _. count x wave) (planned_segments plans pending x)) waves)
    × (length r.round_to_task_wave ≡ length r.waves)
frontier_rounds_example = frontier_rounds text_le waves pending plans pending-Distinct
