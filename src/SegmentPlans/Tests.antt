-- ===== src/SegmentPlans/Tests.antt =====
-- A task whose files lie in two known repositories, and that depends on a task of a third one.
use taskplane.Base.{
  ◌≡◌, refl, List, [], ◌∷◌, map, none, some, Option, Text, text, text_eq, text_le, has, add, Dict,
  get, set, sort, sort_by,
}
use taskplane.Base.Chars.{trim, to_lower, to_upper, split_once}
use taskplane.Types.{ParsedTask}
use taskplane.Waves.References.{parse_dependency_reference}
use taskplane.SegmentPlans.{collect_known_repo_ids}
use taskplane.SegmentPlans.Build.{
  TaskSegmentNode, TaskSegmentEdge, TaskSegmentPlan, inferred_sequential,
  build_segment_plan_for_task,
}
use taskplane.SegmentPlans.Chain.{IsChain, inferred_plan-IsChain}

abbrev task : Text → Option Text → List Text → List Text → ParsedTask
task id repo scope dependencies = record {
  task_id = id;
  size = text "M";
  dependencies = dependencies;
  file_scope = scope;
  prompt_path = [];
  resolved_repo_id = repo;
  explicit_segment_dag = none;
}

abbrev first : ParsedTask
first = task (text "TP-001") (some (text "docs")) [] []

abbrev second : ParsedTask
second =
    task (text "TP-002") (some (text "api"))
      (text "web/app.ts" ∷ text "README.md" ∷ text "API\\main.ts" ∷ []) (text "tp-001" ∷ [])

abbrev pending : Dict ParsedTask
pending = (text "TP-001", first) ∷ (text "TP-002", second) ∷ []

run : Unit {0}
unfolding collect_known_repo_ids build_segment_plan_for_task parse_dependency_reference has add get
    set sort sort_by text_eq text_le trim to_lower to_upper split_once
run = tt

abbrev known : List Text
known = text "web" ∷ text "docs" ∷ text "api" ∷ []

known_run : collect_known_repo_ids pending (some (text "Web" ∷ text "?" ∷ [])) ≡ known
unfolding run
known_run = refl

abbrev repos_of : TaskSegmentPlan → List Text
repos_of p = map (λ (s : TaskSegmentNode). s.repo_id) p.segments

order_run :
    repos_of (build_segment_plan_for_task text_le second pending known)
    ≡ text "web" ∷ text "api" ∷ text "docs" ∷ []
unfolding run
order_run = refl

edges_run :
    map
      (λ (e : TaskSegmentEdge). e.from_segment_id)
      (build_segment_plan_for_task text_le second pending known).edges
    ≡ text "TP-002::api" ∷ text "TP-002::web" ∷ []
unfolding run
edges_run = refl

mode_run : (build_segment_plan_for_task text_le second pending known).mode ≡ inferred_sequential
unfolding run
mode_run = refl

inferred_plan-IsChain_example :
    IsChain known second (build_segment_plan_for_task text_le second pending known)
inferred_plan-IsChain_example = inferred_plan-IsChain text_le second pending known refl
