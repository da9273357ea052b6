-- ===== src/SegmentPlans/Build.antt =====
-- `buildSegmentPlanForTask` of waves.ts and what it calls; the edges' reasons are left out.
use taskplane.Base.{
  ℕ, ◌+◌, ltb, ◌==◌, if◌then◌else◌, Bool, ◌&&◌, ◌||◌, List, [], ◌∷◌, ◌++◌, map, Option, none, some,
  Text, text, text_eq, Dict, get, sort_by, sort, keys, set,
}
use taskplane.Types.{ParsedTask, PromptSegmentDagMetadata, PromptSegmentDagEdge}
use taskplane.SegmentPlans.{infer_task_repo_order, collect_known_repo_ids}

pub record TaskSegmentNode : Type 0 where
  pub segment_id : Text
  pub task_id : Text
  pub repo_id : Text
  pub order : ℕ

pub data SegmentEdgeProvenance : Type 0 where
  explicit inferred : SegmentEdgeProvenance

pub record TaskSegmentEdge : Type 0 where
  pub from_segment_id : Text
  pub to_segment_id : Text
  pub provenance : SegmentEdgeProvenance

pub data PlanMode : Type 0 where
  explicit_dag inferred_sequential repo_singleton : PlanMode

pub record TaskSegmentPlan : Type 0 where
  pub task_id : Text
  pub segments : List TaskSegmentNode
  pub edges : List TaskSegmentEdge
  pub mode : PlanMode

-- Without a sequence number.
abbrev pub build_segment_id : Text → Text → Text
build_segment_id task_id repo = task_id ++ text "::" ++ repo

abbrev pub by_ends : (Text → Text → Bool) → TaskSegmentEdge → TaskSegmentEdge → Bool
by_ends locale_le a b =
    if text_eq a.from_segment_id b.from_segment_id
    then locale_le a.to_segment_id b.to_segment_id
    else locale_le a.from_segment_id b.from_segment_id

unfoldable pub sort_segment_edges :
    (Text → Text → Bool) → List TaskSegmentEdge → List TaskSegmentEdge
unfolding sort_by text_eq
sort_segment_edges locale_le edges = sort_by (by_ends locale_le) edges

abbrev pub nodes_from : ℕ → Text → List Text → List TaskSegmentNode
nodes_from n task_id [] = []
nodes_from n task_id (repo ∷ repos) =
    record {
      segment_id = build_segment_id task_id repo;
      task_id = task_id;
      repo_id = repo;
      order = n;
    }
    ∷ nodes_from (n + 1) task_id repos

abbrev pub by_order : (Text → Text → Bool) → TaskSegmentNode → TaskSegmentNode → Bool
by_order locale_le a b =
    ltb a.order b.order || (a.order == b.order && locale_le a.repo_id b.repo_id)

unfoldable pub build_segment_nodes : (Text → Text → Bool) → Text → List Text → List TaskSegmentNode
unfolding sort_by
build_segment_nodes locale_le task_id repos =
    sort_by (by_order locale_le) (nodes_from 0 task_id repos)

abbrev pub explicit_edge : Text → PromptSegmentDagEdge → TaskSegmentEdge
explicit_edge task_id e = record {
  from_segment_id = build_segment_id task_id e.from_repo_id;
  to_segment_id = build_segment_id task_id e.to_repo_id;
  provenance = explicit;
}

abbrev pub chain : List TaskSegmentNode → List TaskSegmentEdge
chain [] = []
chain (a ∷ []) = []
chain (a ∷ b ∷ segments) =
    record { from_segment_id = a.segment_id; to_segment_id = b.segment_id; provenance = inferred }
    ∷ chain (b ∷ segments)

abbrev explicit_plan :
    (Text → Text → Bool) → ParsedTask → PromptSegmentDagMetadata → TaskSegmentPlan
explicit_plan locale_le task dag = record {
  task_id = task.task_id;
  segments = build_segment_nodes locale_le task.task_id dag.repo_ids;
  edges = sort_segment_edges locale_le (map (explicit_edge task.task_id) dag.edges);
  mode = explicit_dag;
}

unfoldable pub inferred_plan :
    (Text → Text → Bool) → ParsedTask → Dict ParsedTask → List Text → TaskSegmentPlan
unfolding infer_task_repo_order build_segment_nodes sort_segment_edges
inferred_plan locale_le task pending known =
    let order = infer_task_repo_order locale_le task pending known in
    let segments = build_segment_nodes locale_le task.task_id order.repo_ids in
    record {
      task_id = task.task_id;
      segments = segments;
      edges = sort_segment_edges locale_le (chain segments);
      mode = if order.used_fallback then repo_singleton else inferred_sequential;
    }

abbrev pub plan_by :
    (Text → Text → Bool)
    → ParsedTask
    → Dict ParsedTask
    → List Text
    → Option PromptSegmentDagMetadata
    → TaskSegmentPlan
plan_by locale_le task pending known none = inferred_plan locale_le task pending known
plan_by locale_le task pending known (some dag) = explicit_plan locale_le task dag

unfoldable pub build_segment_plan_for_task :
    (Text → Text → Bool) → ParsedTask → Dict ParsedTask → List Text → TaskSegmentPlan
unfolding inferred_plan build_segment_nodes sort_segment_edges
build_segment_plan_for_task locale_le task pending known =
    plan_by locale_le task pending known task.explicit_segment_dag

abbrev plans_for :
    (Text → Text → Bool)
    → Dict ParsedTask
    → List Text
    → List Text
    → Dict TaskSegmentPlan
    → Dict TaskSegmentPlan
plans_for locale_le pending known [] plans = plans
plans_for locale_le pending known (id ∷ ids) plans =
    plans_for locale_le pending known ids (elim (get id pending) [
      | none ↦ plans
      | some t ↦ set id (build_segment_plan_for_task locale_le t pending known) plans
    ])

unfoldable pub build_task_segment_plans :
    (Text → Text → Bool) → Dict ParsedTask → Option (List Text) → Dict TaskSegmentPlan
unfolding build_segment_plan_for_task collect_known_repo_ids sort get set
build_task_segment_plans locale_le pending workspace_repo_ids =
    plans_for locale_le pending (collect_known_repo_ids pending workspace_repo_ids)
      (sort (keys pending)) []
