-- ===== src/Failures/Tests.antt =====
-- A failure in a chain of three tasks, beside a task that waits for none.
use taskplane.Base.{
  ◌≡◌, refl, ◌↔◌, true, false, ◌||◌, List, [], ◌∷◌, Option, some, none, Text, text, has, text_eq,
  Dict, add, sort, get, set,
}
use taskplane.Types.{ParsedTask, DependencyGraph}
use taskplane.Waves.References.{dependency_id, parse_dependency_reference}
use taskplane.Waves.Graph.{build_dependency_graph}
use taskplane.Failures.{in_scope, compute_transitive_dependents, batch_task_scope}
use taskplane.Failures.Reach.{Downstream, transitive_dependents_iff}
use taskplane.Failures.Unblocked.{unblocked_dependencies}

abbrev task : Text → List Text → ParsedTask
task id deps = record {
  task_id = id;
  size = text "M";
  dependencies = deps;
  file_scope = [];
  prompt_path = [];
  resolved_repo_id = none;
  explicit_segment_dag = none;
}

abbrev a : Text
a = text "A-1"

abbrev b : Text
b = text "B-1"

abbrev c : Text
c = text "C-1"

abbrev d : Text
d = text "D-1"

abbrev e : Text
e = text "E-1"

abbrev pending : Dict ParsedTask
pending =
    (a, task a [])
    ∷ (b, task b (a ∷ []))
    ∷ (c, task c (b ∷ []))
    ∷ (d, task d [])
    ∷ (e, task e (d ∷ []))
    ∷ []

abbrev graph : DependencyGraph
graph = build_dependency_graph pending []

abbrev scope : Option (List Text)
scope = some (a ∷ c ∷ d ∷ e ∷ [])

run : Unit {0}
unfolding compute_transitive_dependents build_dependency_graph dependency_id has get add text_eq
    parse_dependency_reference sort set batch_task_scope
run = tt

-- The search walks through `B-1`, which is not in the batch.
compute_transitive_dependents-scope :
    compute_transitive_dependents (a ∷ []) graph scope ≡ some (c ∷ [])
unfolding run
compute_transitive_dependents-scope = refl

compute_transitive_dependents-all :
    compute_transitive_dependents (a ∷ []) graph none ≡ some (b ∷ c ∷ [])
unfolding run
compute_transitive_dependents-all = refl

batch_task_scope-waves : batch_task_scope (some ((a ∷ d ∷ []) ∷ (c ∷ a ∷ []) ∷ [])) ≡ a ∷ d ∷ c ∷ []
unfolding run
batch_task_scope-waves = refl

transitive_dependents_iff_example :
    (blocked : List Text) × (compute_transitive_dependents (a ∷ []) graph scope ≡ some blocked)
    × ((x : Text)
        → (has x blocked ≡ true)
          ↔ (Downstream graph (a ∷ []) x × (has x (a ∷ []) ≡ false) × (in_scope scope x ≡ true)))
transitive_dependents_iff_example = transitive_dependents_iff graph (a ∷ []) scope

unblocked_dependencies_example : (has d (a ∷ []) || has d (c ∷ [])) ≡ false
unfolding run
unblocked_dependencies_example =
    unblocked_dependencies pending [] (a ∷ []) (c ∷ []) scope e d (task e (d ∷ []))
      compute_transitive_dependents-scope refl refl refl refl refl
