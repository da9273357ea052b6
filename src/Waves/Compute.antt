-- ===== src/Waves/Compute.antt =====
-- `computeWaves` of waves.ts: Kahn's algorithm, a wave of ready tasks at a time.
pub mod Degrees
pub mod Order
use taskplane.Base.{
  ℕ, zero, suc, if◌then◌else◌, Bool, true, false, List, [], ◌∷◌, ◌++◌, Option, none, some, Text,
  text, has, delete, Dict, get, set, get_or, sort, filter, is_empty, length, foldl,
}
use taskplane.Base.Chars.{join}
use taskplane.Base.Int.{ℤ, pos, decrement, is_zero}
use taskplane.Types.{DependencyGraph, DiscoveryError, dep_unresolved}

abbrev pub dependencies_of : DependencyGraph → Text → List Text
dependencies_of g node = get_or g.dependencies node []

abbrev pub dependents_of : DependencyGraph → Text → List Text
dependents_of g node = get_or g.dependents node []

abbrev pub degree : Dict ℤ → Text → ℤ
degree in_degree node = get_or in_degree node (pos 0)

in_degrees_from : DependencyGraph → List Text → Dict ℤ → Dict ℤ
in_degrees_from g [] d = d
in_degrees_from g (node ∷ rest) d =
    in_degrees_from g rest
      (set node (pos (length (filter (λ x. has x g.nodes) (dependencies_of g node)))) d)

-- `inDegree` counts the dependencies that are nodes.
pub in_degrees : DependencyGraph → Dict ℤ
unfolding in_degrees_from
in_degrees g = in_degrees_from g g.nodes []

-- The inner loop, over the dependents of one placed node.
pub lower : List Text → Dict ℤ → Dict ℤ
lower [] d = d
lower (dependent ∷ rest) d = lower rest (set dependent (decrement (degree d dependent)) d)

-- The loop over the nodes of a wave: `remaining` and `inDegree` afterwards.
pub place : DependencyGraph → List Text → List Text → Dict ℤ → List Text × Dict ℤ
place g [] remaining d = (remaining, d)
place g (node ∷ rest) remaining d =
    place g rest (delete node remaining) (lower (dependents_of g node) d)

pub ready : List Text → Dict ℤ → List Text
ready remaining d = sort (filter (λ node. is_zero (degree d node)) remaining)

pub record Waves : Type 0 where
  pub waves : List (List Text)
  pub errors : List DiscoveryError

pub stuck_error : List Text → DiscoveryError
stuck_error remaining = record {
  code = dep_unresolved;
  message =
      text "Cannot schedule remaining tasks (possible cycle): "
      ++ join (text ", ") (sort remaining);
  task_path = none;
  task_id = none;
}

abbrev pub push_wave : List Text → Option Waves → Option Waves
push_wave wave none = none
push_wave wave (some r) = some (record r { waves = wave ∷ r.waves })

-- The `while` loop with fuel; `none` means that the fuel ran out.
pub rounds : DependencyGraph → ℕ → List Text → Dict ℤ → Option Waves
rounds g fuel [] d = some (record { waves = []; errors = [] })
rounds g zero (n ∷ ns) d = none
rounds g (suc fuel) (n ∷ ns) d =
    let wave = ready (n ∷ ns) d in
    let next = place g wave (n ∷ ns) d in
    elim wave [
      | [] ↦ some (record { waves = []; errors = stuck_error (n ∷ ns) ∷ [] })
      | x ∷ xs ↦ push_wave (x ∷ xs) (rounds g fuel next.0 next.1)
    ]

-- Each round places a node, so as many rounds as nodes are enough. The parameters `completed` and
-- `pending` are not read.
unfoldable pub compute_waves : DependencyGraph → Option Waves
unfolding rounds ready place lower in_degrees stuck_error
compute_waves g = rounds g (length g.nodes) g.nodes (in_degrees g)
