-- ===== src/SegmentPlans/Linear/Ends.antt =====
-- About `linearizeTaskSegmentPlan` of engine.ts: it returns, with every segment of the plan.
use taskplane.Base.{
  ℕ, zero, suc, ◌+◌, ◌==◌, ◌≤◌, ◌≡◌, refl, ap, ◌∙◌, if◌then◌else◌, Bool, true, false, inl, inr,
  List, [], ◌∷◌, ◌++◌, length, length-append, length-sort_by, filter, Option, none, some, Text,
  Dict, get, get_or, set, sort_by, arith, Bool-cases,
}
use taskplane.Base.Int.{ℤ, pos, negsuc, decrement, is_zero, is_positive}
use taskplane.SegmentPlans.Build.{TaskSegmentNode, TaskSegmentPlan}
use taskplane.SegmentPlans.Linear.{
  Queue, enter, release, release_all, linearize, by_order_and_id, node_by_id, sort_values,
  first_ready, graph_of, whole_or_sorted, linearize_task_segment_plan,
}

abbrev sign : ℤ → ℕ
sign z = if is_positive z then 1 else 0

-- How many degrees are positive: each can fall to 0 once.
abbrev positives : Dict ℤ → ℕ
positives [] = 0
positives ((_, z) ∷ d) = sign z + positives d

positives-set :
    (k : Text) (z : ℤ) (d : Dict ℤ)
    → positives (set k z d) + sign (get_or d k (pos 0)) ≡ positives d + sign z
unfolding set get
positives-set k z [] = omega arith
positives-set k z ((j, y) ∷ d) = ground (arith, positives-set k z d)

sign-decrement : (z : ℤ) → sign (decrement z) + (if is_zero (decrement z) then 1 else 0) ≤ sign z
sign-decrement (pos zero) = omega arith
sign-decrement (pos (suc zero)) = omega arith
sign-decrement (pos (suc (suc n))) = ground arith
sign-decrement (negsuc n) = omega arith

length-enter :
    (locale_le : Text → Text → Bool) (b : Bool) (s : Option TaskSegmentNode)
    (ready : List TaskSegmentNode)
    → length (enter locale_le b s ready) ≤ length ready + (if b then 1 else 0)
unfolding enter
length-enter locale_le true (some s) ready = omega (
  arith,
  length-sort_by (by_order_and_id locale_le) (ready ++ s ∷ []),
  length-append ready (s ∷ []),
)
length-enter locale_le true none ready = omega arith
length-enter locale_le false s ready = omega arith

abbrev measure : Queue → ℕ
measure q = length q.ready + positives q.indegree

module _ (locale_le : Text → Text → Bool) (nodes : Dict TaskSegmentNode) where
  measure-release : (dep : Text) (q : Queue) → measure (release locale_le nodes dep q) ≤ measure q
  unfolding release
  measure-release dep q =
      let old = get_or q.indegree dep (pos 0) in
      omega (
        arith,
        length-enter locale_le (is_zero (decrement old)) (get dep nodes) q.ready,
        positives-set dep (decrement old) q.indegree,
        sign-decrement old,
      )

  measure-release_all :
      (deps : List Text) (q : Queue) → measure (release_all locale_le nodes deps q) ≤ measure q
  unfolding release_all
  measure-release_all [] q = omega arith
  measure-release_all (dep ∷ deps) q =
      omega (arith, measure-release dep q, measure-release_all deps (release locale_le nodes dep q))

  linearize_returns :
      (outgoing : Dict (List Text)) (fuel : ℕ) (ready : List TaskSegmentNode) (indegree : Dict ℤ)
      (ordered : List TaskSegmentNode)
      → length ready + positives indegree ≤ fuel
      → (r : List TaskSegmentNode) × (linearize locale_le nodes outgoing fuel ready indegree ordered
          ≡ some r)
  unfolding linearize
  linearize_returns outgoing fuel [] indegree ordered h = (ordered, refl)
  linearize_returns outgoing zero (s ∷ ready) indegree ordered h = absurd (omega arith)
  linearize_returns outgoing (suc fuel) (s ∷ ready) indegree ordered h =
      let deps = get_or outgoing s.segment_id [] in
      let q = release_all locale_le nodes deps (record { ready = ready; indegree = indegree }) in
      linearize_returns outgoing fuel q.ready q.indegree (ordered ++ s ∷ [])
        (omega (arith, measure-release_all deps (record { ready = ready; indegree = indegree })))

positives-le : (d : Dict ℤ) → positives d ≤ length d
positives-le [] = omega arith
positives-le ((_, z) ∷ d) = ground (arith, positives-le d)

length-filter-le : {A : Type 0} (p : A → Bool) (xs : List A) → length (filter p xs) ≤ length xs
length-filter-le p [] = omega arith
length-filter-le p (x ∷ xs) = ground (arith, length-filter-le p xs)

length-whole :
    (locale_le : Text → Text → Bool) (segments r : List TaskSegmentNode)
    → (ordered : List TaskSegmentNode) × (whole_or_sorted locale_le segments (some r)
        ≡ some ordered)
      × (length ordered ≡ length segments)
length-whole locale_le segments r = elim (Bool-cases (length r == length segments)) [
  | inl e ↦ (r, rw e refl, ground arith)
  | inr e ↦ (
    sort_by (by_order_and_id locale_le) segments,
    rw e refl,
    length-sort_by (by_order_and_id locale_le) segments,
  )
]

pub linearize_task_segment_plan_returns :
    (locale_le : Text → Text → Bool) (plan : TaskSegmentPlan)
    → (ordered : List TaskSegmentNode) × (linearize_task_segment_plan locale_le plan ≡ some ordered)
      × (length ordered ≡ length plan.segments)
unfolding linearize_task_segment_plan
linearize_task_segment_plan_returns locale_le plan =
    let g = graph_of plan in
    let ready = first_ready locale_le g.indegree plan.segments in
    let p : TaskSegmentNode → Bool = λ s. is_zero (get_or g.indegree s.segment_id (pos 0)) in
    let (r, runs) =
      linearize_returns locale_le (node_by_id plan.segments []) (sort_values locale_le g.outgoing)
        (length plan.segments + length g.indegree) ready g.indegree []
        (omega (
          arith,
          positives-le g.indegree,
          length-filter-le p plan.segments,
          length-sort_by (by_order_and_id locale_le) (filter p plan.segments),
        )) in
    let (ordered, whole, size) = length-whole locale_le plan.segments r in
    (ordered, ap (whole_or_sorted locale_le plan.segments) runs ∙ whole, size)
