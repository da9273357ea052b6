-- ===== src/Lanes/Repos.antt =====
-- The lanes of several repositories, in waves.ts: `groupTasksByRepo` and `enforceGlobalLaneCap`.
pub mod Keys
pub mod Cap
pub mod Reduce
pub mod Enforce
mod Tests
use taskplane.Base.{
  ℕ, zero, suc, ◌+◌, ◌-◌, ◌==◌, ltb, leb, if◌then◌else◌, Bool, true, false, not, ◌&&◌, ◌||◌, List,
  [], ◌∷◌, ◌++◌, map, filter, any, length, flatten, is_empty, Option, none, some, Text, text,
  text_eq, text_le, has, Dict, get, get_or, set, keys, values, push_to, sort, sort_by,
}
use taskplane.Types.{ParsedTask, LaneAssignment}

pub record RepoTaskGroup : Type 0 where
  pub repo_id : Option Text
  pub task_ids : List Text

-- An absent repository is keyed by the empty text, and an empty key is none.
abbrev pub key_of : Option Text → Text
key_of none = []
key_of (some repo) = repo

abbrev pub repo_of : Text → Option Text
repo_of [] = none
repo_of (c ∷ key) = some (c ∷ key)

abbrev pub task_key : Dict ParsedTask → Text → Text
task_key pending id = elim (get id pending) [ none ↦ [] | some t ↦ key_of t.resolved_repo_id ]

-- The loop over the wave.
unfoldable pub tasks_by_key : Dict ParsedTask → List Text → Dict (List Text) → Dict (List Text)
unfolding push_to get
tasks_by_key pending [] groups = groups
tasks_by_key pending (id ∷ ids) groups =
    tasks_by_key pending ids (push_to (task_key pending id) id groups)

unfoldable pub group_tasks_by_repo : List Text → Dict ParsedTask → List RepoTaskGroup
unfolding tasks_by_key sort get
group_tasks_by_repo wave pending =
    let groups = tasks_by_key pending wave [] in
    map (λ key. record { repo_id = repo_of key; task_ids = sort (get_or groups key []) })
      (sort (keys groups))

pub record LaneEntry : Type 0 where
  pub global_lane : ℕ
  pub local_lane : ℕ
  pub repo_id : Option Text
  pub assignments : List LaneAssignment

abbrev pub entry_key : LaneEntry → Text
entry_key e = key_of e.repo_id

unfoldable pub entries_by_repo : List LaneEntry → Dict (List LaneEntry) → Dict (List LaneEntry)
unfolding push_to
entries_by_repo [] groups = groups
entries_by_repo (e ∷ entries) groups = entries_by_repo entries (push_to (entry_key e) e groups)

abbrev pub text_lt : Text → Text → Bool
text_lt a b = text_le a b && not (text_eq a b)

unfoldable pub is_better : Text → List LaneEntry → Text → ℕ → Bool
unfolding text_le text_eq
is_better key group best_key best_count =
    ltb best_count (length group) || (length group == best_count && text_lt key best_key)

-- The repository with the most lanes, and of several the first by its key.
unfoldable pub best_repo : Dict (List LaneEntry) → Text → ℕ → Text × ℕ
unfolding is_better
best_repo [] best_key best_count = (best_key, best_count)
best_repo ((key, group) ∷ groups) best_key best_count =
    let better = is_better key group best_key best_count in
    best_repo groups (if better then key else best_key)
      (if better then length group else best_count)

abbrev pub absorb : LaneEntry → LaneEntry → LaneEntry
absorb e removed = record e { assignments = e.assignments ++ removed.assignments }

abbrev pub last_of : LaneEntry → List LaneEntry → LaneEntry
last_of e [] = e
last_of e (f ∷ group) = last_of f group

abbrev pub drop_last : List LaneEntry → List LaneEntry
drop_last [] = []
drop_last (e ∷ []) = []
drop_last (e ∷ f ∷ group) = e ∷ drop_last (f ∷ group)

-- `group.pop()`, and the removed lane's tasks pushed to the group's first lane. A group of at most
-- one lane is never popped.
unfoldable pub merge_last : List LaneEntry → List LaneEntry
merge_last [] = []
merge_last (e ∷ []) = e ∷ []
merge_last (e ∷ f ∷ group) = absorb e (last_of f group) ∷ drop_last (f ∷ group)

-- The `while` loop, which lowers `excess` in each round.
unfoldable pub reduce_lanes : ℕ → Dict (List LaneEntry) → Dict (List LaneEntry)
unfolding best_repo merge_last get set
reduce_lanes zero groups = groups
reduce_lanes (suc excess) groups =
    let best = best_repo groups [] 0 in
    let rest = reduce_lanes excess (set best.0 (merge_last (get_or groups best.0 [])) groups) in
    if leb best.1 1 then groups else rest

abbrev pub renumber : ℕ → List LaneEntry → List LaneEntry
renumber n [] = []
renumber n (e ∷ entries) = record e { global_lane = n } ∷ renumber (n + 1) entries

-- The warning that the cap could not be met is left out.
unfoldable pub enforce_global_lane_cap : List LaneEntry → ℕ → List LaneEntry
unfolding entries_by_repo reduce_lanes sort get
enforce_global_lane_cap entries max_lanes =
    if leb (length entries) max_lanes
    then entries
    else (let groups = reduce_lanes (length entries - max_lanes) (entries_by_repo entries []) in
        renumber 1 (flatten (map (λ key. get_or groups key []) (sort (keys groups)))))
