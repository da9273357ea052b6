-- ===== src/Lanes/Affinity.antt =====
-- `applyFileScopeAffinity` of waves.ts. `locale_le a b` stands for `a.localeCompare(b) <= 0`.
pub mod Groups
pub mod Components
pub mod Refinement
use taskplane.Base.{
  if◌then◌else◌, Bool, true, List, [], ◌∷◌, ◌++◌, map, Option, none, some, Text, Dict, get, values,
  push_to, sort, sort_by,
}
use taskplane.Types.{ParsedTask}
use taskplane.Lanes.Scopes.{task_scopes_overlap}
use taskplane.Lanes.Forest.{Forest, find_root, singletons, union_all}

-- The inner loop: the unions that one task calls for, with the tasks after it.
unfoldable pub overlaps_with : Dict ParsedTask → Option ParsedTask → List Text → List (Text × Text)
unfolding get task_scopes_overlap
overlaps_with pending none ids = []
overlaps_with pending (some a) [] = []
overlaps_with pending (some a) (id ∷ ids) =
    let rest = overlaps_with pending (some a) ids in
    elim (get id pending) [
      | none ↦ rest
      | some b ↦ if task_scopes_overlap a b then (a.task_id, b.task_id) ∷ rest else rest
    ]

-- The outer loop: all unions, in order. They do not depend on the forest.
unfoldable pub overlapping_pairs : Dict ParsedTask → List Text → List (Text × Text)
unfolding overlaps_with get
overlapping_pairs pending [] = []
overlapping_pairs pending (id ∷ ids) =
    overlaps_with pending (get id pending) ids ++ overlapping_pairs pending ids

-- The groups by their roots. Each `find` changes the forest.
unfoldable pub group_by_root : Forest → List Text → Dict (List Text) → Option (Dict (List Text))
unfolding find_root push_to
group_by_root f [] groups = some groups
group_by_root f (id ∷ ids) groups = elim (find_root f id) [
  | none ↦ none
  | some (g, root) ↦ group_by_root g ids (push_to root id groups)
]

abbrev pub first_or_empty : List Text → Text
first_or_empty [] = []
first_or_empty (x ∷ _) = x

abbrev grouped_from : Dict ParsedTask → List Text → Option Forest → Option (Dict (List Text))
grouped_from pending wave none = none
grouped_from pending wave (some f) = group_by_root f wave []

-- The groups before their order.
unfoldable pub affinity_groups : Dict ParsedTask → List Text → Option (Dict (List Text))
unfolding overlapping_pairs union_all singletons group_by_root
affinity_groups pending wave = grouped_from pending wave (
    union_all (overlapping_pairs pending wave)
      (singletons wave (record { parent = []; rank = [] })))

-- No group is empty, so each has a first task.
unfoldable pub apply_file_scope_affinity :
    (Text → Text → Bool) → List Text → Dict ParsedTask → Option (List (List Text))
unfolding affinity_groups sort sort_by
apply_file_scope_affinity locale_le [] pending = some []
apply_file_scope_affinity locale_le (id ∷ ids) pending = elim (affinity_groups pending (id ∷ ids)) [
  | none ↦ none
  | some groups ↦
      some (
        sort_by (λ a b. locale_le (first_or_empty a) (first_or_empty b)) (map sort (values groups)))
]
