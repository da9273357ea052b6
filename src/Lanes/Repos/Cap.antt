-- ===== src/Lanes/Repos/Cap.antt =====
-- About one round of `enforceGlobalLaneCap` of waves.ts.
use taskplane.Base.{
  ℕ, suc, ◌+◌, ◌≤◌, ◌≡◌, refl, sym, ◌∙◌, ap, ◌⊎◌, inl, inr, true, false, List, [], ◌∷◌, length, All,
  Text, text_eq, text_eq_iff, has, count, count-append, Distinct, Distinct-tail, Distinct-head,
  Dict, get_or, keys, values, total, arith, Bool-cases,
}
use taskplane.Lanes.Assign.Shares.{ids_of, ids_of-append}
use taskplane.Lanes.Repos.{LaneEntry, best_repo, is_better, absorb, last_of, drop_last, merge_last}
use taskplane.Lanes.Repos.Keys.{get_or-other, get_or-first}

-- How often a task stands in an entry.
abbrev pub places : Text → LaneEntry → ℕ
places x e = count x (ids_of e.assignments)

places-absorb : (x : Text) (e f : LaneEntry) → places x (absorb e f) ≡ places x e + places x f
places-absorb x e f =
    ap (count x) (ids_of-append e.assignments f.assignments)
    ∙ count-append x (ids_of e.assignments) (ids_of f.assignments)

total-drop_last :
    (f : LaneEntry → ℕ) (e : LaneEntry) (group : List LaneEntry)
    → total f (drop_last (e ∷ group)) + f (last_of e group) ≡ f e + total f group
total-drop_last f e [] = omega arith
total-drop_last f e (g ∷ group) = omega (arith, total-drop_last f g group)

pub places-merge_last :
    (x : Text) (group : List LaneEntry)
    → total (places x) (merge_last group) ≡ total (places x) group
unfolding merge_last
places-merge_last x [] = refl
places-merge_last x (e ∷ []) = refl
places-merge_last x (e ∷ f ∷ group) =
    omega (arith, places-absorb x e (last_of f group), total-drop_last (places x) f group)

length-drop_last :
    (e : LaneEntry) (group : List LaneEntry) → length (drop_last (e ∷ group)) ≡ length group
length-drop_last e [] = refl
length-drop_last e (f ∷ group) = ap suc (length-drop_last f group)

pub length-merge_last :
    (group : List LaneEntry) → 2 ≤ length group → length (merge_last group) + 1 ≡ length group
unfolding merge_last
length-merge_last [] h = absurd (omega arith)
length-merge_last (e ∷ []) h = absurd (omega arith)
length-merge_last (e ∷ f ∷ group) h = omega (arith, length-drop_last f group)

-- The repository found is the one from before or one of these, and none of these has more lanes.
pub record Best (groups : Dict (List LaneEntry)) (best_key : Text) (best_count : ℕ) (r : Text × ℕ)
    : Type 0 where
  pub found :
      ((r.0 ≡ best_key) × (r.1 ≡ best_count))
      ⊎ ((has r.0 (keys groups) ≡ true) × (length (get_or groups r.0 []) ≡ r.1))
  pub above : best_count ≤ r.1
  pub most : All (λ (group : List LaneEntry). length group ≤ r.1) (values groups)

module _ (key : Text) (group : List LaneEntry) (groups : Dict (List LaneEntry)) (r : Text × ℕ)
    (distinct : Distinct (keys ((key, group) ∷ groups))) where
  found_later :
      (has r.0 (keys groups) ≡ true) × (length (get_or groups r.0 []) ≡ r.1)
      → (has r.0 (keys ((key, group) ∷ groups)) ≡ true)
        × (length (get_or ((key, group) ∷ groups) r.0 []) ≡ r.1)
  unfolding has
  found_later (known, size) =
      let apart : text_eq key r.0 ≡ false =
        ground (arith, Distinct-head key (keys groups) distinct, text_eq_iff key r.0) in
      (ground arith, ap length (get_or-other key r.0 group [] groups apart) ∙ size)

  Best-skip :
      (bk : Text) (bc : ℕ)
      → length group ≤ bc
      → Best groups bk bc r
      → Best ((key, group) ∷ groups) bk bc r
  Best-skip bk bc le b = record {
    found = elim b.found [ inl same ↦ inl same | inr later ↦ inr (found_later later) ];
    above = b.above;
    most = (omega (arith, b.above), b.most);
  }

  Best-take :
      (bk : Text) (bc : ℕ)
      → bc ≤ length group
      → Best groups key (length group) r
      → Best ((key, group) ∷ groups) bk bc r
  unfolding has
  Best-take bk bc le b = record {
    found = elim b.found [
      | inl (same, size) ↦ inr (
        ground (arith, text_eq_iff r.0 key),
        rw same (ap length (get_or-first key group [] groups)) ∙ sym size,
      )
      | inr later ↦ inr (found_later later)
    ];
    above = omega (arith, b.above);
    most = (b.above, b.most);
  }

better_le :
    (key : Text) (group : List LaneEntry) (bk : Text) (bc : ℕ)
    → is_better key group bk bc ≡ true
    → bc ≤ length group
unfolding is_better
better_le key group bk bc e = ground arith

worse_le :
    (key : Text) (group : List LaneEntry) (bk : Text) (bc : ℕ)
    → is_better key group bk bc ≡ false
    → length group ≤ bc
unfolding is_better
worse_le key group bk bc e = ground arith

pub best_repo-Best :
    (groups : Dict (List LaneEntry)) (bk : Text) (bc : ℕ)
    → Distinct (keys groups)
    → Best groups bk bc (best_repo groups bk bc)
unfolding best_repo
best_repo-Best [] bk bc h = record { found = inl (refl, refl); above = omega arith; most = tt }
best_repo-Best ((key, group) ∷ groups) bk bc h =
    let rest = Distinct-tail key (keys groups) h in
    elim (Bool-cases (is_better key group bk bc)) [
      | inl e ↦ rw e (
          Best-take key group groups _ h bk bc (better_le key group bk bc e)
            (best_repo-Best groups key (length group) rest))
      | inr e ↦ rw e (
          Best-skip key group groups _ h bk bc (worse_le key group bk bc e)
            (best_repo-Best groups bk bc rest))
    ]
