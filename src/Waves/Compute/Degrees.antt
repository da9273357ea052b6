-- ===== src/Waves/Compute/Degrees.antt =====
-- About the in-degrees of `computeWaves`, against the dependencies that remain.
use taskplane.Base.{
  ℕ, ◌+◌, ◌≤◌, ◌≡◌, refl, ◌∙◌, ap, if◌then◌else◌, true, false, List, [], ◌∷◌, Text, text_eq,
  text_eq_iff, text_eq_refl, has, count, delete, has-delete, Dict, set, get_or-set, Distinct,
  Distinct-tail, Distinct-head, has-cons, has-cons_self, count-delete, length-filter-le,
  length-delete-lt, ◌<◌, ◌&&◌, not, filter, length, arith, ◌⊎◌, inl, inr, Bool-cases,
}
use taskplane.Base.Int.{ℤ, pos, decrement, decrement_by, decrement_by-pos}
use taskplane.Types.{DependencyGraph}
use taskplane.Waves.Compute.{
  dependencies_of, dependents_of, degree, in_degrees_from, in_degrees, lower, place,
}

-- Dependencies that are still to be placed.
abbrev pub unmet : List Text → List Text → ℕ
unmet remaining deps = length (filter (λ x. has x remaining) deps)

unmet-delete :
    (w : Text) (remaining deps : List Text)
    → has w remaining ≡ true
    → unmet remaining deps ≡ count w deps + unmet (delete w remaining) deps
unfolding count
unmet-delete w remaining [] h = omega arith
unmet-delete w remaining (d ∷ deps) h = ground (
  arith,
  has-delete d w remaining,
  text_eq_iff w d,
  text_eq_iff d w,
  unmet-delete w remaining deps h,
)

degree-lower :
    (n : Text) (ds : List Text) (d : Dict ℤ)
    → degree (lower ds d) n ≡ decrement_by (count n ds) (degree d n)
unfolding lower count decrement_by
degree-lower n [] d = refl
degree-lower n (x ∷ ds) d =
    degree-lower n ds (set x (decrement (degree d x)) d) ∙ step (Bool-cases (text_eq n x))
  where
    put :
        degree (set x (decrement (degree d x)) d) n
        ≡ (if text_eq x n then decrement (degree d x) else degree d n)
    put = get_or-set n x (decrement (degree d x)) (pos 0) d

    step :
        ((text_eq n x ≡ true) ⊎ (text_eq n x ≡ false))
        → decrement_by (count n ds) (degree (set x (decrement (degree d x)) d) n)
          ≡ decrement_by (count n (x ∷ ds)) (degree d n)
    step (inl e) = let same = (text_eq_iff n x).0 e in rw (e, put) (rw (← same) (rw text_eq_refl))
    step (inr e) = rw (e, put) (rw (other e))
      where
        other : text_eq n x ≡ false → text_eq x n ≡ false
        other h = ground (arith, text_eq_iff n x, text_eq_iff x n)

abbrev pub Exact : DependencyGraph → List Text → Dict ℤ → Type 0
Exact g remaining d =
    (n : Text) → has n remaining ≡ true → degree d n ≡ pos (unmet remaining (dependencies_of g n))

-- Each edge stands in both maps, as often.
abbrev pub Mirrored : DependencyGraph → Type 0
Mirrored g = (a b : Text) → count a (dependents_of g b) ≡ count b (dependencies_of g a)

Exact-lower :
    (g : DependencyGraph) (w : Text) (remaining : List Text) (d : Dict ℤ)
    → Mirrored g
    → has w remaining ≡ true
    → Exact g remaining d
    → Exact g (delete w remaining) (lower (dependents_of g w) d)
Exact-lower g w remaining d mirrored h exact n hn =
    let deps = dependencies_of g n in
    degree-lower n (dependents_of g w) d
    ∙ ap (λ k. decrement_by k (degree d n)) (mirrored n w)
    ∙ ap (decrement_by (count w deps)) (
        exact n (ground (arith, has-delete n w remaining))
        ∙ ap pos (unmet-delete w remaining deps h))
    ∙ decrement_by-pos (count w deps) (unmet (delete w remaining) deps)

degree-in_degrees_from :
    (g : DependencyGraph) (n : Text) (ns : List Text) (d : Dict ℤ)
    → has n ns ≡ true ⊎ (degree d n ≡ pos (unmet g.nodes (dependencies_of g n)))
    → degree (in_degrees_from g ns d) n ≡ pos (unmet g.nodes (dependencies_of g n))
unfolding in_degrees_from has
degree-in_degrees_from g n [] d (inl h) = cc
degree-in_degrees_from g n [] d (inr h) = h
degree-in_degrees_from g n (m ∷ ns) d h =
    degree-in_degrees_from g n ns (set m start d) (go h (Bool-cases (text_eq n m)))
  where
    start : ℤ
    start = pos (unmet g.nodes (dependencies_of g m))

    put : degree (set m start d) n ≡ (if text_eq m n then start else degree d n)
    put = get_or-set n m start (pos 0) d

    go :
        (has n (m ∷ ns) ≡ true) ⊎ (degree d n ≡ pos (unmet g.nodes (dependencies_of g n)))
        → ((text_eq n m ≡ true) ⊎ (text_eq n m ≡ false))
        → has n ns ≡ true ⊎ (degree (set m start d) n ≡ pos (unmet g.nodes (dependencies_of g n)))
    go h (inl e) = inr (put ∙ (let same = (text_eq_iff n m).0 e in rw (← same) (rw text_eq_refl)))
    go (inl h) (inr e) = inl (rw e at h)
    go (inr h) (inr e) = inr (put ∙ (rw (other e) h))
      where
        other : text_eq n m ≡ false → text_eq m n ≡ false
        other h = ground (arith, text_eq_iff n m, text_eq_iff m n)

pub Exact-in_degrees : (g : DependencyGraph) → Exact g g.nodes (in_degrees g)
unfolding in_degrees
Exact-in_degrees g n h = degree-in_degrees_from g n g.nodes [] (inl h)

abbrev pub Within : List Text → List Text → Type 0
Within xs ys = (x : Text) → has x xs ≡ true → has x ys ≡ true

-- Placing a wave of distinct remaining nodes keeps the in-degrees exact.
pub Exact-place :
    (g : DependencyGraph) (wave remaining : List Text) (d : Dict ℤ)
    → Mirrored g
    → Distinct wave
    → Within wave remaining
    → Exact g remaining d
    → Exact g (place g wave remaining d).0 (place g wave remaining d).1
unfolding place
Exact-place g [] remaining d mirrored distinct within exact = exact
Exact-place g (w ∷ wave) remaining d mirrored distinct within exact =
    Exact-place g wave (delete w remaining) (lower (dependents_of g w) d) mirrored
      (Distinct-tail w wave distinct) still
      (Exact-lower g w remaining d mirrored (within w (has-cons_self w wave)) exact)
  where
    still : Within wave (delete w remaining)
    still x h = ground (
      arith,
      has-delete x w remaining,
      within x (has-cons x w wave h),
      text_eq_iff x w,
      Distinct-head w wave distinct,
    )

module _ (g : DependencyGraph) (x : Text) where
  pub has-place :
      (wave remaining : List Text) (d : Dict ℤ)
      → has x (place g wave remaining d).0 ≡ (has x remaining && not (has x wave))
  unfolding place has
  has-place [] remaining d = ground arith
  has-place (w ∷ wave) remaining d = ground (
    arith,
    has-place wave (delete w remaining) (lower (dependents_of g w) d),
    has-delete x w remaining,
  )

  pub count-place :
      (wave remaining : List Text) (d : Dict ℤ)
      → count x (place g wave remaining d).0 ≡ (if has x wave then 0 else count x remaining)
  unfolding place has
  count-place [] remaining d = refl
  count-place (w ∷ wave) remaining d = ground (
    arith,
    count-place wave (delete w remaining) (lower (dependents_of g w) d),
    count-delete x w remaining,
  )

pub length-place-le :
    (g : DependencyGraph) (wave remaining : List Text) (d : Dict ℤ)
    → length (place g wave remaining d).0 ≤ length remaining
unfolding place delete
length-place-le g [] remaining d = omega arith
length-place-le g (w ∷ wave) remaining d = omega (
  arith,
  length-filter-le (λ y. not (text_eq y w)) remaining,
  length-place-le g wave (delete w remaining) (lower (dependents_of g w) d),
)

pub length-place-lt :
    (g : DependencyGraph) (w : Text) (wave remaining : List Text) (d : Dict ℤ)
    → has w remaining ≡ true
    → length (place g (w ∷ wave) remaining d).0 < length remaining
unfolding place
length-place-lt g w wave remaining d h = omega (
  arith,
  length-delete-lt w remaining h,
  length-place-le g wave (delete w remaining) (lower (dependents_of g w) d),
)
