-- ===== src/SegmentPlans/Order.antt =====
-- About `inferTaskRepoOrder` of waves.ts.
use taskplane.Base.{
  ℕ, suc, ◌≤◌, ◌≡◌, refl, sym, ap, ◌∙◌, Bool, true, false, inl, inr, List, [], ◌∷◌, map, is_empty,
  length, Text, has, count, count_of_has, has_of_count, Distinct, Dict, keys, total, total-sort_by,
  sort_by, arith, Bool-cases,
}
use taskplane.Types.{ParsedTask}
use taskplane.Lanes.Repos.Keys.{length-total}
use taskplane.SegmentPlans.{
  record_resolved, signals, by_appearance, InferredRepoOrder, infer_task_repo_order,
}
use taskplane.SegmentPlans.Signals.{Inv-record_resolved, more-record_resolved, Inv-signals}

-- What the order of a task's repositories promises.
pub record Ordered (known : List Text) (r : InferredRepoOrder) : Type 0 where
  pub distinct : Distinct r.repo_ids
  pub some_repo : 1 ≤ length r.repo_ids
  pub single : r.used_fallback ≡ true → length r.repo_ids ≡ 1
  pub known_only :
      r.used_fallback ≡ false
      → is_empty known ≡ false
      → (x : Text) → has x r.repo_ids ≡ true
      → has x known ≡ true

module _ (le : Text × ℕ → Text × ℕ → Bool) where
  abbrev names : Dict ℕ → List Text
  names d = map (λ (e : Text × ℕ). e.0) (sort_by le d)

  abbrev is_named : Text → Text × ℕ → ℕ
  is_named x e = count x (e.0 ∷ [])

  count-total :
      (x : Text) (d : Dict ℕ) → count x (map (λ (e : Text × ℕ). e.0) d) ≡ total (is_named x) d
  unfolding count
  count-total x [] = refl
  count-total x ((k, v) ∷ d) = ground (arith, count-total x d)

  keys-map : (d : Dict ℕ) → map (λ (e : Text × ℕ). e.0) d ≡ keys d
  keys-map [] = refl
  keys-map ((k, v) ∷ d) = ap (λ ks. k ∷ ks) (keys-map d)

  count-names : (x : Text) (d : Dict ℕ) → count x (names d) ≡ count x (keys d)
  count-names x d =
      count-total x (sort_by le d)
      ∙ total-sort_by le (is_named x) d
      ∙ sym (count-total x d)
      ∙ ap (count x) (keys-map d)

  length-map : (d : Dict ℕ) → length (map (λ (e : Text × ℕ). e.0) d) ≡ length d
  length-map [] = refl
  length-map (e ∷ d) = ap suc (length-map d)

  length-names : (d : Dict ℕ) → length (names d) ≡ length (keys d)
  length-names d =
      length-map (sort_by le d)
      ∙ length-total (sort_by le d)
      ∙ total-sort_by le (λ (e : Text × ℕ). 1) d
      ∙ sym (length-total d)
      ∙ sym (length-map d)
      ∙ ap length (keys-map d)

one_name : (x : Text) → Distinct (x ∷ [])
unfolding count
one_name x y = ground arith

pub infer_task_repo_order-Ordered :
    (locale_le : Text → Text → Bool) (task : ParsedTask) (pending : Dict ParsedTask)
    (known : List Text)
    → Ordered known (infer_task_repo_order locale_le task pending known)
unfolding infer_task_repo_order
infer_task_repo_order-Ordered locale_le task pending known =
    let s = signals task pending known in
    let inv = Inv-signals known task pending in
    let final = record_resolved known task.resolved_repo_id s in
    let end = Inv-record_resolved known task.resolved_repo_id s inv in
    let le = by_appearance locale_le in
    elim (Bool-cases s.has_primary_signal) [
      | inr e ↦ rw e (record {
        distinct = one_name _;
        some_repo = omega arith;
        single = λ h. refl;
        known_only = λ h. absurd (cc);
      })
      | inl e ↦ rw e (record {
        distinct = λ x. omega (arith, count-names le x final.first_appearance, end.distinct x);
        some_repo = omega (
          arith,
          inv.some_repo e,
          more-record_resolved known task.resolved_repo_id s,
          length-names le final.first_appearance,
        );
        single = λ h. absurd (cc);
        known_only = λ h some_known x hx. end.known_only some_known x (
            has_of_count x (keys final.first_appearance) (
              omega (
                arith,
                count-names le x final.first_appearance,
                count_of_has x (names le final.first_appearance) hx,
              )));
      })
    ]
