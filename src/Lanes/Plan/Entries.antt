-- ===== src/Lanes/Plan/Entries.antt =====
-- About the loop of `allocateLanes` over the groups, in waves.ts.
use taskplane.Base.{
  ℕ, suc, ◌+◌, ◌≤◌, ◌≡◌, refl, ◌∙◌, ap, Bool, true, List, [], ◌∷◌, ◌++◌, length, length-append,
  subst, Option, some, Text, text_eq_refl, has, has-add, has-append, has_of_count, add, count,
  count-append, Distinct, Dict, total, total-append, arith,
}
use taskplane.Types.{ParsedTask, LaneAssignment}
use taskplane.Lanes.Affinity.Components.{Keyed}
use taskplane.Lanes.Assign.{assign_tasks_to_lanes, is_pending_task}
use taskplane.Lanes.Assign.Shares.{ids_of}
use taskplane.Lanes.Assign.Total.{assign_complete}
use taskplane.Lanes.Repos.{RepoTaskGroup, LaneEntry, key_of}
use taskplane.Lanes.Repos.Cap.{places}
use taskplane.Lanes.Repos.Enforce.{repos_from, Sequential}
use taskplane.Lanes.Plan.{
  AllocationConfig, sorted_local_lanes, on_lane, entries_of, global_lane_entries,
}
use taskplane.Lanes.Plan.Groups.{grouped}
use taskplane.Lanes.Plan.Numbers.{shares, shares-sorted_local_lanes}

-- Whether an assignment is of this task, as a number.
abbrev is_of : Text → LaneAssignment → ℕ
is_of x a = count x (a.task_id ∷ [])

count-ids_of :
    (x : Text) (assignments : List LaneAssignment)
    → count x (ids_of assignments) ≡ total (is_of x) assignments
unfolding count
count-ids_of x [] = refl
count-ids_of x (a ∷ assignments) = ground (arith, count-ids_of x assignments)

module _ (repo : Option Text) (assignments : List LaneAssignment) where
  places-shares :
      (x : Text) (offset : ℕ) (ns : List ℕ)
      → total (places x) (entries_of offset repo assignments ns) ≡ shares (is_of x) ns assignments
  places-shares x offset [] = refl
  places-shares x offset (n ∷ ns) =
      omega (arith, count-ids_of x (on_lane n assignments), places-shares x (offset + 1) ns)

  places-entries_of :
      (x : Text) (offset : ℕ)
      → total (places x) (entries_of offset repo assignments (sorted_local_lanes assignments))
        ≡ count x (ids_of assignments)
  places-entries_of x offset = omega (
    arith,
    places-shares x offset (sorted_local_lanes assignments),
    shares-sorted_local_lanes (is_of x) assignments,
    count-ids_of x assignments,
  )

  Sequential-entries_of :
      (offset : ℕ) (ns : List ℕ) (rest : List LaneEntry)
      → Sequential (offset + length ns + 1) rest
      → Sequential (offset + 1) (entries_of offset repo assignments ns ++ rest)
  Sequential-entries_of offset [] rest h =
      let same : offset + 0 + 1 ≡ offset + 1 = omega arith in subst (λ n. Sequential n rest) same h
  Sequential-entries_of offset (n ∷ ns) rest h =
      let same : offset + suc (length ns) + 1 ≡ offset + 1 + length ns + 1 = omega arith in
      (refl, Sequential-entries_of (offset + 1) ns rest (subst (λ m. Sequential m rest) same h))

  repos_from-known :
      (offset : ℕ) (ns : List ℕ) (rest : List LaneEntry) (repos : List Text)
      → has (key_of repo) repos ≡ true
      → repos_from (entries_of offset repo assignments ns ++ rest) repos ≡ repos_from rest repos
  unfolding add
  repos_from-known offset [] rest repos h = refl
  repos_from-known offset (n ∷ ns) rest repos h =
      let same : add (key_of repo) repos ≡ repos = rw h refl in
      ap (repos_from (entries_of (offset + 1) repo assignments ns ++ rest)) same
      ∙ repos_from-known (offset + 1) ns rest repos h

length-add : (k : Text) (repos : List Text) → length (add k repos) ≤ suc (length repos)
unfolding add
length-add k repos = ground (arith, length-append repos (k ∷ []))

-- A group's entries bring at most one repository.
bring_one :
    (repo : Option Text) (assignments : List LaneAssignment) (offset : ℕ) (ns : List ℕ)
    (rest : List LaneEntry) (repos : List Text) (bound : ℕ)
    → ((known : List Text) → length (repos_from rest known) ≤ length known + bound)
    → length (repos_from (entries_of offset repo assignments ns ++ rest) repos)
      ≤ length repos + suc bound
bring_one repo assignments offset [] rest repos bound h = omega (arith, h repos)
bring_one repo assignments offset (n ∷ ns) rest repos bound h =
    let k = key_of repo in
    rw
      (repos_from-known repo assignments (offset + 1) ns rest (add k repos)
        (ground (arith, has-add k k repos, text_eq_refl k)))
      (omega (arith, h (add k repos), length-add k repos))

-- The entries of these groups, numbered after `offset`.
pub record Entries (groups : List RepoTaskGroup) (offset : ℕ) (result : Option (List LaneEntry))
    : Type 0 where
  pub entries : List LaneEntry
  pub runs : result ≡ some entries
  pub conserved : (x : Text) → total (places x) entries ≡ count x (grouped groups)
  pub numbered : Sequential (offset + 1) entries
  pub repos : (known : List Text) → length (repos_from entries known) ≤ length known + length groups

module _ (locale_le : Text → Text → Bool) (pending : Dict ParsedTask) (config : AllocationConfig)
    (keyed : Keyed pending) (lane : 1 ≤ config.max_lanes) where
  entries-cons :
      (g : RepoTaskGroup) (groups : List RepoTaskGroup) (offset : ℕ) (r : List LaneAssignment)
      (rest : List LaneEntry)
      → assign_tasks_to_lanes locale_le g.task_ids pending config.max_lanes config.strategy
          config.size_weights
        ≡ some r
      → global_lane_entries locale_le pending config groups (offset + length (sorted_local_lanes r))
        ≡ some rest
      → global_lane_entries locale_le pending config (g ∷ groups) offset
        ≡ some (entries_of offset g.repo_id r (sorted_local_lanes r) ++ rest)
  unfolding global_lane_entries
  entries-cons g groups offset r rest e f =
      rw (e, global_lane_entries) (rw (f, global_lane_entries) refl)

  -- With a lane to give and every task of the groups pending and in one group only, the loop returns.
  pub global_lane_entries-Entries :
      (groups : List RepoTaskGroup) (offset : ℕ)
      → Distinct (grouped groups)
      → ((x : Text) → has x (grouped groups) ≡ true → is_pending_task pending x ≡ true)
      → Entries groups offset (global_lane_entries locale_le pending config groups offset)
  unfolding global_lane_entries count
  global_lane_entries-Entries [] offset distinct known = record {
    entries = [];
    runs = refl;
    conserved = λ x. refl;
    numbered = tt;
    repos = λ k. omega arith;
  }
  global_lane_entries-Entries (g ∷ groups) offset distinct known =
      let both : (x : Text)
          → count x (grouped (g ∷ groups)) ≡ count x g.task_ids + count x (grouped groups) =
        λ x. count-append x g.task_ids (grouped groups) in
      let (r, runs, counts, _) =
        assign_complete locale_le g.task_ids pending config.max_lanes config.strategy
          config.size_weights keyed (λ x. omega (arith, both x, distinct x)) lane in
      let ns = sorted_local_lanes r in
      let later =
        global_lane_entries-Entries groups (offset + length ns)
          (λ x. omega (arith, both x, distinct x))
          (λ x h. known x (ground (arith, has-append x g.task_ids (grouped groups)))) in
      record {
        entries = entries_of offset g.repo_id r ns ++ later.entries;
        runs = entries-cons g groups offset r later.entries runs later.runs;
        conserved = λ x. ground (
          arith,
          total-append (places x) (entries_of offset g.repo_id r ns) later.entries,
          places-entries_of g.repo_id r x offset,
          later.conserved x,
          both x,
          counts x,
          known x,
          has_of_count x (grouped (g ∷ groups)),
        );
        numbered = Sequential-entries_of g.repo_id r offset ns later.entries later.numbered;
        repos = λ k. bring_one g.repo_id r offset ns later.entries k (length groups) later.repos;
      }
