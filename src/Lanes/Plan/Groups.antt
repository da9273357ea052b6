-- ===== src/Lanes/Plan/Groups.antt =====
-- About `groupTasksByRepo` of waves.ts: the groups share the wave out.
use taskplane.Base.{
  ℕ, ◌+◌, ◌≡◌, refl, List, [], ◌∷◌, ◌++◌, map, flatten, Text, count, count-append, count-sort,
  Distinct, Dict, get_or, keys, values, push_to, total, total-append, total-push_to, sort, arith,
}
use taskplane.Types.{ParsedTask}
use taskplane.Lanes.Repos.{RepoTaskGroup, repo_of, task_key, tasks_by_key, group_tasks_by_repo}
use taskplane.Lanes.Repos.Keys.{total-sorted_groups, Distinct-push_to}

abbrev one_of : Text → Text → ℕ
one_of x y = count x (y ∷ [])

count-total : (x : Text) (ys : List Text) → count x ys ≡ total (one_of x) ys
unfolding count
count-total x [] = refl
count-total x (y ∷ ys) = ground (arith, count-total x ys)

Distinct-tasks_by_key :
    (pending : Dict ParsedTask) (wave : List Text) (groups : Dict (List Text))
    → Distinct (keys groups)
    → Distinct (keys (tasks_by_key pending wave groups))
unfolding tasks_by_key
Distinct-tasks_by_key pending [] groups h = h
Distinct-tasks_by_key pending (id ∷ wave) groups h =
    Distinct-tasks_by_key pending wave (push_to (task_key pending id) id groups)
      (Distinct-push_to (task_key pending id) id groups h)

total-tasks_by_key :
    (f : Text → ℕ) (pending : Dict ParsedTask) (wave : List Text) (groups : Dict (List Text))
    → total f (flatten (values (tasks_by_key pending wave groups)))
      ≡ total f wave + total f (flatten (values groups))
unfolding tasks_by_key
total-tasks_by_key f pending [] groups = omega arith
total-tasks_by_key f pending (id ∷ wave) groups = omega (
  arith,
  total-tasks_by_key f pending wave (push_to (task_key pending id) id groups),
  total-push_to f (task_key pending id) id groups,
)

-- The tasks of the groups, one group after the other.
abbrev pub grouped : List RepoTaskGroup → List Text
grouped [] = []
grouped (g ∷ groups) = g.task_ids ++ grouped groups

abbrev group_of : Dict (List Text) → Text → RepoTaskGroup
group_of groups key = record { repo_id = repo_of key; task_ids = sort (get_or groups key []) }

count-grouped :
    (x : Text) (groups : Dict (List Text)) (ks : List Text)
    → count x (grouped (map (group_of groups) ks))
      ≡ total (one_of x) (flatten (map (λ key. get_or groups key []) ks))
unfolding count
count-grouped x groups [] = refl
count-grouped x groups (k ∷ ks) = omega (
  arith,
  count-append x (sort (get_or groups k [])) (grouped (map (group_of groups) ks)),
  count-sort x (get_or groups k []),
  count-total x (get_or groups k []),
  total-append (one_of x) (get_or groups k []) (flatten (map (λ key. get_or groups key []) ks)),
  count-grouped x groups ks,
)

no_keys : Distinct []
unfolding count
no_keys x = omega arith

-- Every task of the wave stands in one group, as often as in the wave.
pub count-group_tasks_by_repo :
    (x : Text) (wave : List Text) (pending : Dict ParsedTask)
    → count x (grouped (group_tasks_by_repo wave pending)) ≡ count x wave
unfolding group_tasks_by_repo
count-group_tasks_by_repo x wave pending =
    let groups = tasks_by_key pending wave [] in
    omega (
      arith,
      count-grouped x groups (sort (keys groups)),
      total-sorted_groups (one_of x) groups (Distinct-tasks_by_key pending wave [] no_keys),
      total-tasks_by_key (one_of x) pending wave [],
      count-total x wave,
    )
