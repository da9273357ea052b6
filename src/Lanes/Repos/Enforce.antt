-- ===== src/Lanes/Repos/Enforce.antt =====
-- About `enforceGlobalLaneCap` of waves.ts as a whole.
use taskplane.Base.{
  ℕ, suc, ◌+◌, ◌-◌, ◌≤◌, leb, ◌≡◌, refl, sym, ◌∙◌, ap, ◌⊎◌, inl, inr, List, [], ◌∷◌, map, flatten,
  length, Text, add, count, Distinct, Dict, get_or, keys, total, total-push_to, push_to, sort,
  arith, Bool-cases,
}
use taskplane.Lanes.Repos.{
  LaneEntry, entry_key, entries_by_repo, reduce_lanes, renumber, enforce_global_lane_cap,
}
use taskplane.Lanes.Repos.Keys.{total-sorted_groups, keys-push_to, Distinct-push_to, length-total}
use taskplane.Lanes.Repos.Cap.{places}
use taskplane.Lanes.Repos.Reduce.{lanes_of, reduce_lanes-Reduced}

-- The repositories of the entries, each once.
abbrev pub repos_from : List LaneEntry → List Text → List Text
repos_from [] repos = repos
repos_from (e ∷ entries) repos = repos_from entries (add (entry_key e) repos)

-- The entries are numbered one after the other, from `n` on.
abbrev pub Sequential : ℕ → List LaneEntry → Type 0
Sequential n [] = Unit
Sequential n (e ∷ entries) = (e.global_lane ≡ n) × Sequential (n + 1) entries

keys-entries_by_repo :
    (entries : List LaneEntry) (groups : Dict (List LaneEntry))
    → keys (entries_by_repo entries groups) ≡ repos_from entries (keys groups)
unfolding entries_by_repo
keys-entries_by_repo [] groups = refl
keys-entries_by_repo (e ∷ entries) groups =
    keys-entries_by_repo entries (push_to (entry_key e) e groups)
    ∙ ap (repos_from entries) (keys-push_to (entry_key e) e groups)

Distinct-entries_by_repo :
    (entries : List LaneEntry) (groups : Dict (List LaneEntry))
    → Distinct (keys groups)
    → Distinct (keys (entries_by_repo entries groups))
unfolding entries_by_repo
Distinct-entries_by_repo [] groups h = h
Distinct-entries_by_repo (e ∷ entries) groups h =
    Distinct-entries_by_repo entries (push_to (entry_key e) e groups)
      (Distinct-push_to (entry_key e) e groups h)

total-entries_by_repo :
    (f : LaneEntry → ℕ) (entries : List LaneEntry) (groups : Dict (List LaneEntry))
    → total f (lanes_of (entries_by_repo entries groups))
      ≡ total f entries + total f (lanes_of groups)
unfolding entries_by_repo
total-entries_by_repo f [] groups = omega arith
total-entries_by_repo f (e ∷ entries) groups = omega (
  arith,
  total-entries_by_repo f entries (push_to (entry_key e) e groups),
  total-push_to f (entry_key e) e groups,
)

places-renumber :
    (x : Text) (n : ℕ) (entries : List LaneEntry)
    → total (places x) (renumber n entries) ≡ total (places x) entries
places-renumber x n [] = refl
places-renumber x n (e ∷ entries) = omega (arith, places-renumber x (n + 1) entries)

length-renumber : (n : ℕ) (entries : List LaneEntry) → length (renumber n entries) ≡ length entries
length-renumber n [] = refl
length-renumber n (e ∷ entries) = ap suc (length-renumber (n + 1) entries)

Sequential-renumber : (n : ℕ) (entries : List LaneEntry) → Sequential n (renumber n entries)
Sequential-renumber n [] = tt
Sequential-renumber n (e ∷ entries) = (refl, Sequential-renumber (n + 1) entries)

no_repeats : Distinct []
unfolding count
no_repeats x = omega arith

-- Of entries numbered from 1 on, the cap loses and doubles no task, leaves at most as many lanes as allowed or, where the
-- repositories are more, at most one for each, and keeps the lanes numbered from 1 on.
pub cap_enforced :
    (entries : List LaneEntry) (max_lanes : ℕ)
    → Sequential 1 entries
    → let capped = enforce_global_lane_cap entries max_lanes in
      ((x : Text) → total (places x) capped ≡ total (places x) entries)
      × ((length capped ≤ max_lanes) ⊎ (length capped ≤ length (repos_from entries [])))
      × Sequential 1 capped
unfolding enforce_global_lane_cap
cap_enforced entries max_lanes numbered = elim (Bool-cases (leb (length entries) max_lanes)) [
  | inl e ↦ rw e (λ x. refl, inl (ground arith), numbered)
  | inr e ↦
      let groups = entries_by_repo entries [] in
      let distinct = Distinct-entries_by_repo entries [] no_repeats in
      let next = reduce_lanes (length entries - max_lanes) groups in
      let r = reduce_lanes-Reduced (length entries - max_lanes) groups distinct in
      let listed : List LaneEntry = flatten (map (λ key. get_or next key []) (sort (keys next))) in
      let still : Distinct (keys next) = rw r.same_keys distinct in
      let size : length (renumber 1 listed) ≡ length (lanes_of next) =
        length-renumber 1 listed
        ∙ length-total listed
        ∙ total-sorted_groups (λ (e : LaneEntry). 1) next still
        ∙ sym (length-total (lanes_of next)) in
      let all : length (lanes_of groups) ≡ length entries = omega (
        arith,
        length-total (lanes_of groups),
        length-total entries,
        total-entries_by_repo (λ (e : LaneEntry). 1) entries [],
      ) in
      rw e (
        λ x. omega (
          arith,
          places-renumber x 1 listed,
          total-sorted_groups (places x) next still,
          r.conserved x,
          total-entries_by_repo (places x) entries [],
        ),
        elim r.bounded [
          | inl l ↦ inl (ground (arith, l, size, all))
          | inr l ↦ inr (omega (arith, l, size, ap length (keys-entries_by_repo entries [])))
        ],
        Sequential-renumber 1 listed,
      )
]
