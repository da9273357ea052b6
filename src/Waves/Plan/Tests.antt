-- ===== src/Waves/Plan/Tests.antt =====
-- The planner at small inputs: a chain of two tasks, and two tasks that wait for one another.
use taskplane.Base.{
  ℕ, ◌+◌, ◌<◌, ◌≡◌, ◌≢◌, refl, if◌then◌else◌, true, false, List, [], ◌∷◌, flatten, some, none, Text,
  text, has, text_eq, text_eq_iff, text_eq_refl, count, Dict, get, keys, arith, add, sort, set,
  delete, Bool-cases, inl, inr,
}
use taskplane.Types.{ParsedTask}
use taskplane.Waves.References.{dependency_id, parse_dependency_reference}
use taskplane.Waves.Graph.{build_dependency_graph}
use taskplane.Waves.Compute.{Waves, compute_waves, stuck_error, dependencies_of}
use taskplane.Waves.Compute.Order.{Blocked}
use taskplane.Waves.Plan.{plan_returns, plan_complete, plan-ordered, plan-stuck, plan-acyclic}

abbrev task : Text → List Text → ParsedTask
task id deps = record {
  task_id = id;
  size = text "M";
  dependencies = deps;
  file_scope = [];
  prompt_path = [];
  resolved_repo_id = none;
  explicit_segment_dag = none;
}

abbrev a : Text
a = text "A-1"

abbrev b : Text
b = text "B-2"

abbrev chain : Dict ParsedTask
chain = (b, task b (text "a-1" ∷ text "Z-9" ∷ [])) ∷ (a, task a []) ∷ []

abbrev chain_plan : Waves
chain_plan = record { waves = (a ∷ []) ∷ (b ∷ []) ∷ []; errors = [] }

run : Unit {0}
unfolding compute_waves build_dependency_graph dependency_id has get add text_eq
    parse_dependency_reference sort set delete
run = tt

compute_waves-chain : compute_waves (build_dependency_graph chain []) ≡ some chain_plan
unfolding run
compute_waves-chain = refl

plan_returns_example : (r : Waves) × (compute_waves (build_dependency_graph chain []) ≡ some r)
plan_returns_example = plan_returns chain []

plan_complete_example : count b (flatten chain_plan.waves) ≡ (if has b (keys chain) then 1 else 0)
plan_complete_example = plan_complete chain [] chain_plan b compute_waves-chain refl

plan-ordered_example : has a (flatten ((a ∷ []) ∷ [])) ≡ true
unfolding run
plan-ordered_example =
    plan-ordered chain [] chain_plan ((a ∷ []) ∷ []) [] (b ∷ []) b a
      (task b (text "a-1" ∷ text "Z-9" ∷ [])) compute_waves-chain refl refl refl refl refl

abbrev knot : Dict ParsedTask
knot = (a, task a (b ∷ [])) ∷ (b, task b (a ∷ [])) ∷ []

abbrev knot_plan : Waves
knot_plan = record { waves = []; errors = stuck_error (a ∷ b ∷ []) ∷ [] }

compute_waves-knot : compute_waves (build_dependency_graph knot []) ≡ some knot_plan
unfolding run
compute_waves-knot = refl

plan-stuck_example :
    (rest : List Text) × (rest ≢ [])
    × Blocked (build_dependency_graph knot []) rest
    × ((x : Text)
        → count x (flatten knot_plan.waves) + count x rest ≡ (if has x (keys knot) then 1 else 0))
plan-stuck_example = plan-stuck knot [] knot_plan compute_waves-knot (λ e. cc e)

abbrev rank : Text → ℕ
rank x = if text_eq x b then 1 else 0

edges :
    (n : Text)
    → dependencies_of (build_dependency_graph chain []) n ≡ (if text_eq b n then a ∷ [] else [])
unfolding run
edges n = ground arith

a_ne_b : text_eq a b ≡ false
unfolding text_eq
a_ne_b = refl

at_b :
    (n m : Text) → text_eq b n ≡ true → has m (if true then a ∷ [] else []) ≡ true → rank m < rank n
unfolding has
at_b n m e h =
    ground (arith, text_eq_iff b n, text_eq_refl b, text_eq_iff m a, text_eq_iff n b, a_ne_b)

no_edge : (n m : Text) → text_eq b n ≡ false → has m (if false then a ∷ [] else []) ≡ true → ⊥
unfolding has
no_edge n m e h = cc

chain-ranked :
    (n m : Text)
    → has m (dependencies_of (build_dependency_graph chain []) n) ≡ true
    → rank m < rank n
chain-ranked n m h = elim (Bool-cases (text_eq b n)) [
  | inl e ↦ at_b n m e (rw (edges n, e) at h)
  | inr e ↦ absurd (no_edge n m e (rw (edges n, e) at h))
]

plan-acyclic_example : chain_plan.errors ≡ []
plan-acyclic_example = plan-acyclic chain [] rank chain_plan chain-ranked compute_waves-chain
