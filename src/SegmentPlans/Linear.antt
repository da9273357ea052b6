-- ===== src/SegmentPlans/Linear.antt =====
-- `linearizeTaskSegmentPlan` of engine.ts: Kahn's algorithm on the segments of a task.
pub mod Ends
use taskplane.Base.{
  ℕ, zero, suc, ◌+◌, ◌==◌, ltb, if◌then◌else◌, Bool, true, false, not, ◌&&◌, ◌||◌, List, [], ◌∷◌,
  ◌++◌, map, filter, length, Option, none, some, Text, text_eq, has, Dict, get, get_or, set,
  push_to, sort_by,
}
use taskplane.Base.Int.{ℤ, pos, decrement, increment, is_zero}
use taskplane.SegmentPlans.Build.{TaskSegmentNode, TaskSegmentEdge, TaskSegmentPlan}

abbrev pub node_by_id : List TaskSegmentNode → Dict TaskSegmentNode → Dict TaskSegmentNode
node_by_id [] nodes = nodes
node_by_id (s ∷ segments) nodes = node_by_id segments (set s.segment_id s nodes)

pub record SegmentGraph : Type 0 where
  pub indegree : Dict ℤ
  pub outgoing : Dict (List Text)

abbrev lone_nodes : List TaskSegmentNode → SegmentGraph → SegmentGraph
lone_nodes [] g = g
lone_nodes (s ∷ segments) g = lone_nodes segments (record {
  indegree = set s.segment_id (pos 0) g.indegree;
  outgoing = set s.segment_id [] g.outgoing;
})

abbrev is_node : Dict TaskSegmentNode → Text → Bool
is_node nodes id = elim (get id nodes) [ none ↦ false | some _ ↦ true ]

abbrev add_segment_edge : Dict TaskSegmentNode → TaskSegmentEdge → SegmentGraph → SegmentGraph
add_segment_edge nodes e g =
    if is_node nodes e.from_segment_id && is_node nodes e.to_segment_id
    then record {
      indegree =
          set e.to_segment_id (increment (get_or g.indegree e.to_segment_id (pos 0))) g.indegree;
      outgoing = push_to e.from_segment_id e.to_segment_id g.outgoing;
    }
    else g

abbrev add_segment_edges : Dict TaskSegmentNode → List TaskSegmentEdge → SegmentGraph → SegmentGraph
add_segment_edges nodes [] g = g
add_segment_edges nodes (e ∷ edges) g = add_segment_edges nodes edges (add_segment_edge nodes e g)

abbrev pub sort_values : (Text → Text → Bool) → Dict (List Text) → Dict (List Text)
sort_values locale_le [] = []
sort_values locale_le ((k, v) ∷ d) = (k, sort_by locale_le v) ∷ sort_values locale_le d

abbrev pub by_order_and_id : (Text → Text → Bool) → TaskSegmentNode → TaskSegmentNode → Bool
by_order_and_id locale_le a b =
    ltb a.order b.order || (a.order == b.order && locale_le a.segment_id b.segment_id)

-- `ready` and `indegree`.
pub record Queue : Type 0 where
  pub ready : List TaskSegmentNode
  pub indegree : Dict ℤ

unfoldable pub enter :
    (Text → Text → Bool)
    → Bool
    → Option TaskSegmentNode
    → List TaskSegmentNode
    → List TaskSegmentNode
unfolding sort_by
enter locale_le true (some s) ready = sort_by (by_order_and_id locale_le) (ready ++ s ∷ [])
enter locale_le true none ready = ready
enter locale_le false s ready = ready

-- The body of the inner loop.
unfoldable pub release : (Text → Text → Bool) → Dict TaskSegmentNode → Text → Queue → Queue
unfolding enter get set
release locale_le nodes dep q =
    let count = decrement (get_or q.indegree dep (pos 0)) in
    record {
      ready = enter locale_le (is_zero count) (get dep nodes) q.ready;
      indegree = set dep count q.indegree;
    }

unfoldable pub release_all : (Text → Text → Bool) → Dict TaskSegmentNode → List Text → Queue → Queue
unfolding release
release_all locale_le nodes [] q = q
release_all locale_le nodes (dep ∷ deps) q =
    release_all locale_le nodes deps (release locale_le nodes dep q)

-- The `while` loop with fuel; `none` means that the fuel ran out.
unfoldable pub linearize :
    (Text → Text → Bool)
    → Dict TaskSegmentNode
    → Dict (List Text)
    → ℕ
    → List TaskSegmentNode
    → Dict ℤ
    → List TaskSegmentNode
    → Option (List TaskSegmentNode)
unfolding release_all get
linearize locale_le nodes outgoing fuel [] indegree ordered = some ordered
linearize locale_le nodes outgoing zero (s ∷ ready) indegree ordered = none
linearize locale_le nodes outgoing (suc fuel) (s ∷ ready) indegree ordered =
    let q =
      release_all locale_le nodes (get_or outgoing s.segment_id [])
        (record { ready = ready; indegree = indegree }) in
    linearize locale_le nodes outgoing fuel q.ready q.indegree (ordered ++ s ∷ [])

abbrev pub first_ready : (Text → Text → Bool) → Dict ℤ → List TaskSegmentNode → List TaskSegmentNode
first_ready locale_le indegree segments =
    sort_by (by_order_and_id locale_le)
      (filter (λ (s : TaskSegmentNode). is_zero (get_or indegree s.segment_id (pos 0))) segments)

abbrev pub graph_of : TaskSegmentPlan → SegmentGraph
graph_of plan =
    add_segment_edges (node_by_id plan.segments []) plan.edges
      (lone_nodes plan.segments (record { indegree = []; outgoing = [] }))

-- A plan that is not ordered whole keeps the order of its segments.
abbrev pub whole_or_sorted :
    (Text → Text → Bool)
    → List TaskSegmentNode
    → Option (List TaskSegmentNode)
    → Option (List TaskSegmentNode)
whole_or_sorted locale_le segments none = none
whole_or_sorted locale_le segments (some ordered) = some (
    if length ordered == length segments
    then ordered
    else sort_by (by_order_and_id locale_le) segments)

-- Each round takes a ready segment, and a segment gets ready again only by a degree that falls to 0.
unfoldable pub linearize_task_segment_plan :
    (Text → Text → Bool) → TaskSegmentPlan → Option (List TaskSegmentNode)
unfolding linearize push_to sort_by get set
linearize_task_segment_plan locale_le plan =
    let g = graph_of plan in
    whole_or_sorted locale_le plan.segments (
      linearize locale_le (node_by_id plan.segments []) (sort_values locale_le g.outgoing)
        (length plan.segments + length g.indegree) (first_ready locale_le g.indegree plan.segments)
        g.indegree [])
