-- ===== src/Failures/Unblocked.antt =====
-- About the tasks that a failure does not block, in a planned batch.
use taskplane.Base.{
  ◌≡◌, sym, ◌↔◌, true, false, ◌||◌, List, Option, some, Text, has, get, Dict, map, keys,
  count_of_has, has_of_count, ◌∙◌, arith, inl, inr, Bool-cases,
}
use taskplane.Types.{ParsedTask, DependencyGraph}
use taskplane.Waves.References.{dependency_id}
use taskplane.Waves.Graph.{build_dependency_graph}
use taskplane.Waves.Graph.Edges.{build-Built}
use taskplane.Waves.Graph.Covers.{build-covers}
use taskplane.Waves.Compute.{dependencies_of, dependents_of}
use taskplane.Failures.{in_scope, compute_transitive_dependents}
use taskplane.Failures.Reach.{Downstream, first, next, transitive_dependents_iff}

same_report : {a b : List Text} → some a ≡ some b → a ≡ b
same_report h = cc

report-exact :
    (g : DependencyGraph) (failed : List Text) (scope : Option (List Text)) (blocked : List Text)
    → compute_transitive_dependents failed g scope ≡ some blocked
    → (x : Text)
    → (has x blocked ≡ true)
      ↔ (Downstream g failed x × (has x failed ≡ false) × (in_scope scope x ≡ true))
report-exact g failed scope blocked e =
    let (found, runs, iff) = transitive_dependents_iff g failed scope in
    rw (same_report (sym runs ∙ e)) at iff

-- A task of the scope that has neither failed nor been reported refers to no pending task that has
-- failed or been reported: what is left of the batch does not wait for a failure.
pub unblocked_dependencies :
    (pending : Dict ParsedTask) (completed failed blocked : List Text) (scope : Option (List Text))
    (t d : Text) (task : ParsedTask)
    → compute_transitive_dependents failed (build_dependency_graph pending completed) scope
      ≡ some blocked
    → get t pending ≡ some task
    → in_scope scope t ≡ true
    → (has t failed || has t blocked) ≡ false
    → has d (map dependency_id task.dependencies) ≡ true
    → has d (keys pending) ≡ true
    → (has d failed || has d blocked) ≡ false
unblocked_dependencies pending completed failed blocked scope t d task e et ti free hd known =
    elim (Bool-cases (has d failed)) [
      | inl f ↦ absurd (contra (first d f edge))
      | inr f ↦ elim (Bool-cases (has d blocked)) [
        | inl b ↦ absurd (contra (next d ((exact d).0 b).0 edge))
        | inr b ↦ ground arith
      ]
    ]
  where
    g : DependencyGraph
    g = build_dependency_graph pending completed

    edge : has t (dependents_of g d) ≡ true
    edge = has_of_count t (dependents_of g d) (
        omega (
          arith,
          (build-Built pending completed).mirrored t d,
          count_of_has d (dependencies_of g t)
              (build-covers pending completed t d task et hd known),
        ))

    exact :
        (x : Text)
        → (has x blocked ≡ true)
          ↔ (Downstream g failed x × (has x failed ≡ false) × (in_scope scope x ≡ true))
    exact = report-exact g failed scope blocked e

    contra : Downstream g failed t → ⊥
    contra down = ground (arith, (exact t).1 (down, ground arith, ti))
