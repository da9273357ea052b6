-- ===== src/Failures.antt =====
-- `computeTransitiveDependents` and `batchTaskScope` of extensions/taskplane/execution.ts: the tasks
-- that a failure blocks.
mod Visit
mod Reach
mod Unblocked
mod Tests
use taskplane.Base.{
  ℕ, zero, suc, ◌+◌, if◌then◌else◌, Bool, true, ◌||◌, List, [], ◌∷◌, ◌++◌, Option, none, some, Text,
  has, add, values, sort, length, flatten,
}
use taskplane.Types.{DependencyGraph}
use taskplane.Waves.Compute.{dependents_of}

-- `blocked`, `visited` and `queue`.
pub record Search : Type 0 where
  pub blocked : List Text
  pub visited : List Text
  pub queue : List Text

abbrev pub in_scope : Option (List Text) → Text → Bool
in_scope none id = true
in_scope (some scope) id = has id scope

-- The end of the inner loop's body.
abbrev enqueue : Option (List Text) → Text → Search → Search
enqueue scope dep s = record {
  blocked = if in_scope scope dep then add dep s.blocked else s.blocked;
  visited = add dep s.visited;
  queue = s.queue ++ dep ∷ [];
}

-- The inner loop's body.
unfoldable pub discover : List Text → Option (List Text) → Text → Search → Search
unfolding has add
discover failed scope dep s = if has dep s.visited || has dep failed then s else enqueue scope dep s

-- The inner loop, over the sorted dependents of one task.
unfoldable pub visit : List Text → Option (List Text) → List Text → Search → Search
unfolding discover
visit failed scope [] s = s
visit failed scope (dep ∷ deps) s = visit failed scope deps (discover failed scope dep s)

-- The outer loop.
unfoldable pub search :
    DependencyGraph → List Text → Option (List Text) → ℕ → Search → Option (List Text)
unfolding visit sort
search g failed scope zero s = elim s.queue [ [] ↦ some s.blocked | _ ∷ _ ↦ none ]
search g failed scope (suc fuel) s = elim s.queue [
  | [] ↦ some s.blocked
  | current ∷ rest ↦
      search g failed scope fuel
        (visit failed scope (sort (dependents_of g current)) (record s { queue = rest }))
]

-- Each failed task and each dependent leaves the queue at most once.
unfoldable pub compute_transitive_dependents :
    List Text → DependencyGraph → Option (List Text) → Option (List Text)
unfolding search
compute_transitive_dependents failed g scope =
    search g failed scope (length failed + length (flatten (values g.dependents)))
      (record { blocked = []; visited = []; queue = failed })

abbrev add_all : List Text → List Text → List Text
add_all [] scope = scope
add_all (id ∷ ids) scope = add_all ids (add id scope)

abbrev add_waves : List (List Text) → List Text → List Text
add_waves [] scope = scope
add_waves (wave ∷ waves) scope = add_waves waves (add_all wave scope)

-- No plan is an empty one.
unfoldable pub batch_task_scope : Option (List (List Text)) → List Text
unfolding add
batch_task_scope none = []
batch_task_scope (some plan) = add_waves plan []
