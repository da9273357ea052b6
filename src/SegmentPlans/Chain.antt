-- ===== src/SegmentPlans/Chain.antt =====
-- About `buildSegmentPlanForTask` of waves.ts, for a task without a segment graph of its own.
use taskplane.Base.{
  ℕ, suc, ◌+◌, ◌≤◌, ◌≡◌, refl, sym, ap, subst, ◌∙◌, if◌then◌else◌, Bool, true, false, List, [], ◌∷◌,
  ◌++◌, length, length-sort_by, is_empty, none, Text, has, All, All-sort_by, Ascending,
  sort_by-Ascending, Distinct, Dict, arith,
}
use taskplane.Types.{ParsedTask}
use taskplane.SegmentPlans.{infer_task_repo_order}
use taskplane.SegmentPlans.Build.{
  TaskSegmentNode, TaskSegmentEdge, repo_singleton, inferred_sequential, TaskSegmentPlan,
  nodes_from, by_order, build_segment_nodes, by_ends, sort_segment_edges, chain, plan_by,
  inferred_plan, build_segment_plan_for_task,
}
use taskplane.SegmentPlans.Order.{infer_task_repo_order-Ordered}

-- The edge leads from a segment of the list to the next one.
abbrev pub Consecutive : List TaskSegmentNode → TaskSegmentEdge → Type 0
Consecutive segments e =
    (before : List TaskSegmentNode) × (a : TaskSegmentNode) × (b : TaskSegmentNode) × (after : List
      TaskSegmentNode)
    × (segments ≡ before ++ a ∷ b ∷ after)
    × (e.from_segment_id ≡ a.segment_id)
    × (e.to_segment_id ≡ b.segment_id)

nodes-Ascending :
    (locale_le : Text → Text → Bool) (n : ℕ) (task_id : Text) (repos : List Text)
    → Ascending (by_order locale_le) (nodes_from n task_id repos)
nodes-Ascending locale_le n task_id [] = tt
nodes-Ascending locale_le n task_id (r ∷ []) = tt
nodes-Ascending locale_le n task_id (r ∷ q ∷ repos) =
    (ground arith, nodes-Ascending locale_le (n + 1) task_id (q ∷ repos))

build_segment_nodes-same :
    (locale_le : Text → Text → Bool) (task_id : Text) (repos : List Text)
    → build_segment_nodes locale_le task_id repos ≡ nodes_from 0 task_id repos
unfolding build_segment_nodes
build_segment_nodes-same locale_le task_id repos =
    sort_by-Ascending (by_order locale_le) (nodes_from 0 task_id repos)
      (nodes-Ascending locale_le 0 task_id repos)

length-nodes_from :
    (n : ℕ) (task_id : Text) (repos : List Text)
    → length (nodes_from n task_id repos) ≡ length repos
length-nodes_from n task_id [] = refl
length-nodes_from n task_id (r ∷ repos) = ap suc (length-nodes_from (n + 1) task_id repos)

length-chain :
    (s : TaskSegmentNode) (segments : List TaskSegmentNode)
    → length (chain (s ∷ segments)) ≡ length segments
length-chain s [] = refl
length-chain s (q ∷ segments) = ap suc (length-chain q segments)

module _ (whole : List TaskSegmentNode) where
  chain-Consecutive :
      (before segments : List TaskSegmentNode)
      → whole ≡ before ++ segments
      → All (Consecutive whole) (chain segments)
  chain-Consecutive before [] e = tt
  chain-Consecutive before (a ∷ []) e = tt
  chain-Consecutive before (a ∷ b ∷ segments) e = (
    (before, a, b, segments, e, refl, refl),
    chain-Consecutive (before ++ a ∷ []) (b ∷ segments)
        (e ∙ sym (append_one before a (b ∷ segments))),
  )
    where
      append_one :
          (before : List TaskSegmentNode) (a : TaskSegmentNode) (after : List TaskSegmentNode)
          → (before ++ a ∷ []) ++ after ≡ before ++ a ∷ after
      append_one [] a after = refl
      append_one (x ∷ before) a after = ap (λ xs. x ∷ xs) (append_one before a after)

  -- The edges of the segments in a row, sorted.
  pub sort-Consecutive :
      (locale_le : Text → Text → Bool)
      → All (Consecutive whole) (sort_segment_edges locale_le (chain whole))
  unfolding sort_segment_edges
  sort-Consecutive locale_le =
      All-sort_by (by_ends locale_le) (Consecutive whole) (chain whole)
        (chain-Consecutive [] whole refl)

length-edges :
    (locale_le : Text → Text → Bool) (segments : List TaskSegmentNode)
    → 1 ≤ length segments
    → length (sort_segment_edges locale_le (chain segments)) + 1 ≡ length segments
unfolding sort_segment_edges
length-edges locale_le [] h = absurd (omega arith)
length-edges locale_le (s ∷ segments) h =
    omega
      (arith, length-sort_by (by_ends locale_le) (chain (s ∷ segments)), length-chain s segments)

-- A plan of one segment for each of some distinct repositories, in a row.
abbrev pub IsChain : List Text → ParsedTask → TaskSegmentPlan → Type 0
IsChain known task p =
    (repos : List Text) × Distinct repos
    × (1 ≤ length repos)
    × (p.segments ≡ nodes_from 0 task.task_id repos)
    × (length p.edges + 1 ≡ length p.segments)
    × All (Consecutive p.segments) p.edges
    × (p.mode ≡ repo_singleton → length repos ≡ 1)
    × (p.mode ≡ inferred_sequential
        → is_empty known ≡ false
        → (x : Text) → has x repos ≡ true
        → has x known ≡ true)

is_fallback :
    (b : Bool) → (if b then repo_singleton else inferred_sequential) ≡ repo_singleton → b ≡ true
is_fallback true h = refl
is_fallback false h = absurd (cc)

is_signalled :
    (b : Bool)
    → (if b then repo_singleton else inferred_sequential) ≡ inferred_sequential
    → b ≡ false
is_signalled true h = absurd (cc)
is_signalled false h = refl

IsChain-inferred_plan :
    (locale_le : Text → Text → Bool) (task : ParsedTask) (pending : Dict ParsedTask)
    (known : List Text)
    → IsChain known task (inferred_plan locale_le task pending known)
unfolding inferred_plan
IsChain-inferred_plan locale_le task pending known =
    let order = infer_task_repo_order locale_le task pending known in
    let o = infer_task_repo_order-Ordered locale_le task pending known in
    let segments = build_segment_nodes locale_le task.task_id order.repo_ids in
    let same = build_segment_nodes-same locale_le task.task_id order.repo_ids in
    let size : length segments ≡ length order.repo_ids =
      ap length same ∙ length-nodes_from 0 task.task_id order.repo_ids in
    (
      order.repo_ids,
      o.distinct,
      o.some_repo,
      same,
      length-edges locale_le segments (omega (arith, size, o.some_repo)),
      sort-Consecutive segments locale_le,
      λ mode. o.single (is_fallback order.used_fallback mode),
      λ mode. o.known_only (is_signalled order.used_fallback mode),
    )

-- A task without a segment graph gets a plan of one segment for each of some distinct repositories,
-- at least one, numbered from 0 in their order. Its edges are as many as there are steps between the
-- segments, and each leads from a segment to the next. A plan in the fallback mode has one segment;
-- in the other mode every repository is a known one, where any is known.
pub inferred_plan-IsChain :
    (locale_le : Text → Text → Bool) (task : ParsedTask) (pending : Dict ParsedTask)
    (known : List Text)
    → task.explicit_segment_dag ≡ none
    → IsChain known task (build_segment_plan_for_task locale_le task pending known)
unfolding build_segment_plan_for_task
inferred_plan-IsChain locale_le task pending known e =
    subst (IsChain known task) (sym (ap (plan_by locale_le task pending known) e))
      (IsChain-inferred_plan locale_le task pending known)
