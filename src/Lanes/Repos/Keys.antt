-- ===== src/Lanes/Repos/Keys.antt =====
-- About grouping by a key: the keys of the groups, and what the groups hold in all.
use taskplane.Base.{
  ℕ, ◌≡◌, refl, ◌∙◌, true, false, List, [], ◌∷◌, ◌++◌, map, flatten, length, Text, text_eq,
  text_eq_iff, has, has-cons, has-cons_self, add, Distinct, Distinct-add, Distinct-head,
  Distinct-tail, Dict, get, set, get_or, keys, values, push_to, total, total-append, total-sort,
  sort, arith, ap,
}

module _ {ℓ} {A : Type ℓ} where
  pub keys-set : (k : Text) (v : A) (d : Dict A) → keys (set k v d) ≡ add k (keys d)
  unfolding set add has
  keys-set k v [] = refl
  keys-set k v ((j, w) ∷ d) = ground (arith, keys-set k v d, text_eq_iff j k, text_eq_iff k j)

  pub get_or-other :
      (j k : Text) (w v : A) (d : Dict A)
      → text_eq j k ≡ false
      → get_or ((j, w) ∷ d) k v ≡ get_or d k v
  unfolding get
  get_or-other j k w v d e = ground arith

  pub get_or-first : (j : Text) (w v : A) (d : Dict A) → get_or ((j, w) ∷ d) j v ≡ w
  unfolding get
  get_or-first j w v d = ground (arith, text_eq_iff j j)

total_congruent :
    (f g : Text → ℕ) (ks : List Text)
    → ((k : Text) → has k ks ≡ true → f k ≡ g k)
    → total f ks ≡ total g ks
total_congruent f g [] h = refl
total_congruent f g (k ∷ ks) h =
    omega
      (arith, h k (has-cons_self k ks), total_congruent f g ks (λ j hj. h j (has-cons j k ks hj)))

module _ {ℓ} {A : Type ℓ} (f : A → ℕ) where
  total-listed :
      (d : Dict (List A)) (ks : List Text)
      → total f (flatten (map (λ k. get_or d k []) ks)) ≡ total (λ k. total f (get_or d k [])) ks
  total-listed d [] = refl
  total-listed d (k ∷ ks) = omega (
    arith,
    total-append f (get_or d k []) (flatten (map (λ j. get_or d j []) ks)),
    total-listed d ks,
  )

  total-keys :
      (d : Dict (List A))
      → Distinct (keys d)
      → total (λ k. total f (get_or d k [])) (keys d) ≡ total f (flatten (values d))
  total-keys [] h = refl
  total-keys ((j, w) ∷ d) h =
      let rest =
        total_congruent (λ k. total f (get_or ((j, w) ∷ d) k [])) (λ k. total f (get_or d k []))
          (keys d) (λ k hk. ap (total f) (get_or-other j k w [] d (apart k hk))) in
      omega (
        arith,
        ap (total f) (get_or-first j w [] d),
        rest,
        total-keys d (Distinct-tail j (keys d) h),
        total-append f w (flatten (values d)),
      )
    where
      apart : (k : Text) → has k (keys d) ≡ true → text_eq j k ≡ false
      apart k hk = ground (arith, Distinct-head j (keys d) h, text_eq_iff j k)

  -- The groups by their sorted keys hold what the map holds.
  pub total-sorted_groups :
      (d : Dict (List A))
      → Distinct (keys d)
      → total f (flatten (map (λ k. get_or d k []) (sort (keys d)))) ≡ total f (flatten (values d))
  total-sorted_groups d h =
      total-listed d (sort (keys d))
      ∙ total-sort (λ k. total f (get_or d k [])) (keys d)
      ∙ total-keys d h

module _ {ℓ} {A : Type ℓ} where
  pub keys-push_to : (k : Text) (x : A) (d : Dict (List A)) → keys (push_to k x d) ≡ add k (keys d)
  unfolding push_to
  keys-push_to k x d = keys-set k (get_or d k [] ++ x ∷ []) d

  pub Distinct-push_to :
      (k : Text) (x : A) (d : Dict (List A)) → Distinct (keys d) → Distinct (keys (push_to k x d))
  Distinct-push_to k x d h = rw (keys-push_to k x d) (Distinct-add k (keys d) h)

  pub length-total : (xs : List A) → length xs ≡ total (λ _. 1) xs
  length-total [] = refl
  length-total (x ∷ xs) = omega (arith, length-total xs)
