-- ===== src/Waves/Plan.antt =====
-- The plan of a batch: `computeWaves` on the graph that `buildDependencyGraph` makes.
mod Tests
use taskplane.Base.{
  ℕ, zero, suc, ◌∙◌, ◌||◌, ◌+◌, ◌<◌, ◌≤◌, ◌≡◌, ◌≢◌, refl, sym, subst, if◌then◌else◌, true, false,
  List, [], ◌∷◌, ◌++◌, map, flatten, Option, some, Text, has, count, has-append, count_of_has,
  has_of_count, Dict, get, keys, Distinct, arith, List-cases, inl, inr, length, has-cons_self,
}
use mathlib.Core.List.{append-nil, append_assoc}
use taskplane.Types.{ParsedTask, DependencyGraph}
use taskplane.Waves.References.{dependency_id}
use taskplane.Waves.Graph.{build_dependency_graph}
use taskplane.Waves.Graph.Edges.{build-Built}
use taskplane.Waves.Graph.Covers.{build-covers}
use taskplane.Waves.Compute.{Waves, rounds, in_degrees, compute_waves, dependencies_of}
use taskplane.Waves.Compute.Degrees.{Exact-in_degrees}
use taskplane.Waves.Compute.Order.{Inv, Outcome, Ordered, Blocked, rounds_ok}

same_waves : {a b : Waves} → some a ≡ some b → a ≡ b
same_waves h = cc

module _ (pending : Dict ParsedTask) (completed : List Text) where
  abbrev graph : DependencyGraph
  graph = build_dependency_graph pending completed

  plan_ok : (r : Waves) × (compute_waves graph ≡ some r) × Outcome graph [] graph.nodes r
  unfolding compute_waves
  plan_ok =
      let built = build-Built pending completed in
      rounds_ok graph built.mirrored
        (λ n m h. ground (arith, built.closed n m h, built.same_nodes m)) (length graph.nodes) []
        graph.nodes (in_degrees graph) (omega arith)
        (record {
          exact = Exact-in_degrees graph;
          distinct = built.distinct;
          cover = λ x h. ground arith;
        })

  plan-Outcome : (r : Waves) → compute_waves graph ≡ some r → Outcome graph [] graph.nodes r
  plan-Outcome r e =
      let (s, runs, o) = plan_ok in
      subst (Outcome graph [] graph.nodes) (same_waves (sym runs ∙ e)) o

-- The planner returns for every set of pending tasks: as many rounds as tasks are enough.
pub plan_returns :
    (pending : Dict ParsedTask) (completed : List Text)
    → (r : Waves) × (compute_waves (build_dependency_graph pending completed) ≡ some r)
plan_returns pending completed = let (r, runs, o) = plan_ok pending completed in (r, runs)

-- In a plan without errors every pending task stands in exactly one wave and once in it, and no
-- other task stands in a wave.
pub plan_complete :
    (pending : Dict ParsedTask) (completed : List Text) (r : Waves) (x : Text)
    → compute_waves (build_dependency_graph pending completed) ≡ some r
    → r.errors ≡ []
    → count x (flatten r.waves) ≡ (if has x (keys pending) then 1 else 0)
unfolding count
plan_complete pending completed r x e ok =
    let o = plan-Outcome pending completed r e in
    let built = build-Built pending completed in
    let g = build_dependency_graph pending completed in
    ground (
      arith,
      o.conserved x,
      o.finished ok,
      built.distinct x,
      built.same_nodes x,
      count_of_has x g.nodes,
      has_of_count x g.nodes,
    )

Ordered-split :
    (g : DependencyGraph) (placed : List Text) (before after : List (List Text)) (wave : List Text)
    (n m : Text)
    → Ordered g placed (before ++ wave ∷ after)
    → has n wave ≡ true
    → has m (dependencies_of g n) ≡ true
    → has m (placed ++ flatten before) ≡ true
Ordered-split g placed [] after wave n m o hn hm = rw append-nil (o.0 n m hn hm)
Ordered-split g placed (w ∷ before) after wave n m o hn hm =
    rw (append_assoc placed w (flatten before)) at
      (Ordered-split g (placed ++ w) before after wave n m o.1 hn hm)

-- In every plan, with errors or not, a pending task that a planned task refers to stands in an
-- earlier wave than that task.
pub plan-ordered :
    (pending : Dict ParsedTask) (completed : List Text) (r : Waves)
    (before after : List (List Text)) (wave : List Text) (n m : Text) (task : ParsedTask)
    → compute_waves (build_dependency_graph pending completed) ≡ some r
    → r.waves ≡ before ++ wave ∷ after
    → has n wave ≡ true
    → get n pending ≡ some task
    → has m (map dependency_id task.dependencies) ≡ true
    → has m (keys pending) ≡ true
    → has m (flatten before) ≡ true
plan-ordered pending completed r before after wave n m task e split hn et hm known =
    let o = plan-Outcome pending completed r e in
    let g = build_dependency_graph pending completed in
    Ordered-split g [] before after wave n m (subst (Ordered g []) split o.ordered) hn
      (build-covers pending completed n m task et hm known)

-- Where the planner reports an error, it leaves out a nonempty set of pending tasks, each of which
-- depends on a task of the set, another one or itself; all other pending tasks are planned once.
pub plan-stuck :
    (pending : Dict ParsedTask) (completed : List Text) (r : Waves)
    → compute_waves (build_dependency_graph pending completed) ≡ some r
    → r.errors ≢ []
    → (rest : List Text) × (rest ≢ [])
      × Blocked (build_dependency_graph pending completed) rest
      × ((x : Text)
          → count x (flatten r.waves) + count x rest ≡ (if has x (keys pending) then 1 else 0))
unfolding count
plan-stuck pending completed r e failed =
    let o = plan-Outcome pending completed r e in
    let built = build-Built pending completed in
    let g = build_dependency_graph pending completed in
    (
      o.rest,
      (λ none_left. failed (o.failing none_left)),
      o.blocked,
      λ x. ground (
        arith,
        o.conserved x,
        built.distinct x,
        built.same_nodes x,
        count_of_has x g.nodes,
        has_of_count x g.nodes,
      ),
    )

-- A blocked set whose tasks are ranked behind their dependencies is empty.
Blocked-ranked :
    (g : DependencyGraph) (rank : Text → ℕ) (rest : List Text)
    → Blocked g rest
    → ((n m : Text) → has m (dependencies_of g n) ≡ true → rank m < rank n)
    → (k : ℕ) (n : Text) → rank n < k
    → has n rest ≡ true
    → ⊥
Blocked-ranked g rank rest b ranked zero n h hn = absurd (omega arith)
Blocked-ranked g rank rest b ranked (suc k) n h hn =
    let (m, hm, hr) = b n hn in
    Blocked-ranked g rank rest b ranked k m (omega (arith, ranked n m hm)) hr

-- Where the dependencies can be ranked, that is, they have no cycle, the planner reports no error.
pub plan-acyclic :
    (pending : Dict ParsedTask) (completed : List Text) (rank : Text → ℕ) (r : Waves)
    → ((n m : Text)
        → has m (dependencies_of (build_dependency_graph pending completed) n) ≡ true
        → rank m < rank n)
    → compute_waves (build_dependency_graph pending completed) ≡ some r
    → r.errors ≡ []
plan-acyclic pending completed rank r ranked e =
    let o = plan-Outcome pending completed r e in
    let g = build_dependency_graph pending completed in
    o.failing (elim (List-cases o.rest) [
      | inl e ↦ e
      | inr (x, xs, e) ↦ absurd (
          Blocked-ranked g rank o.rest o.blocked ranked (suc (rank x)) x (omega arith)
            (rw e (has-cons_self x xs)))
    ])
