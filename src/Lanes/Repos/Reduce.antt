-- ===== src/Lanes/Repos/Reduce.antt =====
-- About the loop of `enforceGlobalLaneCap` of waves.ts.
use taskplane.Base.{
  ℕ, zero, suc, ◌+◌, ◌≤◌, leb, ◌≡◌, refl, ◌∙◌, ◌⊎◌, inl, inr, true, false, List, [], ◌∷◌, flatten,
  length, length-append, All, Text, has, add, Distinct, Dict, get_or, set, keys, values, total,
  total-set, arith, Bool-cases,
}
use taskplane.Lanes.Repos.{LaneEntry, best_repo, merge_last, reduce_lanes}
use taskplane.Lanes.Repos.Keys.{keys-set, length-total}
use taskplane.Lanes.Repos.Cap.{places, places-merge_last, length-merge_last, Best, best_repo-Best}

abbrev pub lanes_of : Dict (List LaneEntry) → List LaneEntry
lanes_of groups = flatten (values groups)

-- Where no repository has two lanes, there are at most as many lanes as repositories.
length-single_lanes :
    (groups : Dict (List LaneEntry)) (n : ℕ)
    → n ≤ 1
    → All (λ (group : List LaneEntry). length group ≤ n) (values groups)
    → length (lanes_of groups) ≤ length (keys groups)
length-single_lanes [] n h all = omega arith
length-single_lanes ((key, group) ∷ groups) n h all =
    omega
      (arith, all.0, length-append group (lanes_of groups), length-single_lanes groups n h all.1)

pub record Reduced (excess : ℕ) (groups next : Dict (List LaneEntry)) : Type 0 where
  pub conserved : (x : Text) → total (places x) (lanes_of next) ≡ total (places x) (lanes_of groups)
  pub same_keys : keys next ≡ keys groups
  pub bounded :
      (length (lanes_of next) + excess ≡ length (lanes_of groups))
      ⊎ (length (lanes_of next) ≤ length (keys groups))

module _ (groups : Dict (List LaneEntry)) (key : Text) (known : has key (keys groups) ≡ true) where
  merged : Dict (List LaneEntry)
  merged = set key (merge_last (get_or groups key [])) groups

  keys-merged : keys merged ≡ keys groups
  unfolding merged add
  keys-merged = keys-set key (merge_last (get_or groups key [])) groups ∙ (rw known refl)

  places-merged :
      (x : Text) → total (places x) (lanes_of merged) ≡ total (places x) (lanes_of groups)
  unfolding merged
  places-merged x = omega (
    arith,
    total-set (places x) key (merge_last (get_or groups key [])) 0 0 groups
        (omega (arith, places-merge_last x (get_or groups key []))),
  )

  length-merged :
      2 ≤ length (get_or groups key []) → length (lanes_of merged) + 1 ≡ length (lanes_of groups)
  unfolding merged
  length-merged h =
      let old = get_or groups key [] in
      omega (
        arith,
        total-set (λ (e : LaneEntry). 1) key (merge_last old) 1 0 groups
            (omega
              (arith, length-merge_last old h, length-total old, length-total (merge_last old))),
        length-total (lanes_of groups),
        length-total (lanes_of merged),
      )

two_lanes :
    (groups : Dict (List LaneEntry)) (best : Text × ℕ)
    → Best groups [] 0 best
    → leb best.1 1 ≡ false
    → (has best.0 (keys groups) ≡ true) × (2 ≤ length (get_or groups best.0 []))
two_lanes groups best b e = elim b.found [
  | inl (same, none) ↦ absurd (ground arith)
  | inr (known, size) ↦ (known, ground arith)
]

pub reduce_lanes-Reduced :
    (excess : ℕ) (groups : Dict (List LaneEntry))
    → Distinct (keys groups)
    → Reduced excess groups (reduce_lanes excess groups)
unfolding reduce_lanes merged
reduce_lanes-Reduced zero groups h = record {
  conserved = λ x. refl;
  same_keys = refl;
  bounded = inl (omega arith);
}
reduce_lanes-Reduced (suc excess) groups h =
    let best = best_repo groups [] 0 in
    let b = best_repo-Best groups [] 0 h in
    elim (Bool-cases (leb best.1 1)) [
      | inl e ↦ rw e (record {
        conserved = λ x. refl;
        same_keys = refl;
        bounded = inr (length-single_lanes groups best.1 (ground arith) b.most);
      })
      | inr e ↦
          let (known, two) = two_lanes groups best b e in
          let same = keys-merged groups best.0 known in
          let rest = reduce_lanes-Reduced excess (merged groups best.0 known) (rw same h) in
          rw e (record {
            conserved = λ x. rest.conserved x ∙ places-merged groups best.0 known x;
            same_keys = rest.same_keys ∙ same;
            bounded = elim rest.bounded [
              | inl l ↦ inl (omega (arith, l, length-merged groups best.0 known two))
              | inr l ↦ inr (rw same at l)
            ];
          })
    ]
