-- ===== src/Base/Sorting.antt =====
-- `Array.prototype.sort`, which is stable: insertion sort by the test `le`, the comparator's `≤ 0`.
use Prim.Native.Nat.{ℕ, suc, ◌+◌}
use mathlib.Core.Path.{◌≡◌, refl, ap, ◌∙◌}
use mathlib.Core.Bool.{Bool, true, ◌||◌}
use mathlib.Core.List.{List, [], ◌∷◌, ◌++◌, Perm}
use mathlib.Core.List.Perm
use mathlib.Core.Logic.{inl, inr}
use native.Mathlib.Omega.{arith}
use taskplane.Base.Tests.{Bool-cases, if◌then◌else◌}
use taskplane.Base.Lists.{length, All, any, flatten, total}
use taskplane.Base.Strings.{Text, text_eq, text_le, has, count, count-append}

module _ {ℓ} {A : Type ℓ} (le : A → A → Bool) where
  insert : A → List A → List A
  insert x [] = x ∷ []
  insert x (y ∷ ys) = let rest = insert x ys in if le x y then x ∷ y ∷ ys else y ∷ rest

  unfoldable pub sort_by : List A → List A
  unfolding insert
  sort_by [] = []
  sort_by (x ∷ xs) = insert x (sort_by xs)

  insert-perm : (x : A) (ys : List A) → Perm (insert x ys) (x ∷ ys)
  unfolding insert
  insert-perm x [] = Perm.rfl
  insert-perm x (y ∷ ys) =
      let tail = Perm.trans (Perm.cons y (insert-perm x ys)) (Perm.swap x y ys) in
      ground (arith, tail, Perm.refl (x ∷ y ∷ ys))

  pub sort_by-perm : (xs : List A) → Perm (sort_by xs) xs
  unfolding sort_by
  sort_by-perm [] = Perm.rfl
  sort_by-perm (x ∷ xs) = Perm.trans (insert-perm x (sort_by xs)) (Perm.cons x (sort_by-perm xs))

  length-insert : (x : A) (ys : List A) → length (insert x ys) ≡ suc (length ys)
  unfolding insert
  length-insert x [] = refl
  length-insert x (y ∷ ys) = ground (arith, length-insert x ys)

  pub length-sort_by : (xs : List A) → length (sort_by xs) ≡ length xs
  unfolding sort_by
  length-sort_by [] = refl
  length-sort_by (x ∷ xs) = omega (arith, length-insert x (sort_by xs), length-sort_by xs)

module _ {ℓ} {A : Type ℓ} (le : A → A → Bool) where
  -- Each element is at most the next one.
  abbrev pub Ascending : List A → Type 0
  Ascending [] = Unit
  Ascending (x ∷ []) = Unit
  Ascending (x ∷ y ∷ xs) = (le x y ≡ true) × Ascending (y ∷ xs)

  pub sort_by-Ascending : (xs : List A) → Ascending xs → sort_by le xs ≡ xs
  unfolding sort_by insert
  sort_by-Ascending [] h = refl
  sort_by-Ascending (x ∷ []) h = refl
  sort_by-Ascending (x ∷ y ∷ xs) h = ap (insert le x) (sort_by-Ascending (y ∷ xs) h.1) ∙ rw h.0 refl

  module _ {κ} (P : A → Type κ) where
    All-insert : (x : A) (ys : List A) → P x → All P ys → All P (insert le x ys)
    unfolding insert
    All-insert x [] px pys = (px, tt)
    All-insert x (y ∷ ys) px pys = elim (Bool-cases (le x y)) [
      | inl e ↦ rw e (px, pys)
      | inr e ↦ rw e (pys.0, All-insert x ys px pys.1)
    ]

    pub All-sort_by : (xs : List A) → All P xs → All P (sort_by le xs)
    unfolding sort_by
    All-sort_by [] h = tt
    All-sort_by (x ∷ xs) h = All-insert x (sort_by le xs) h.0 (All-sort_by xs h.1)

module _ {ℓ} {A : Type ℓ} (le : A → A → Bool) (p : A → Bool) where
  any-insert : (x : A) (ys : List A) → any p (insert le x ys) ≡ (p x || any p ys)
  unfolding insert
  any-insert x [] = refl
  any-insert x (y ∷ ys) = ground (arith, any-insert x ys)

  pub any-sort_by : (xs : List A) → any p (sort_by le xs) ≡ any p xs
  unfolding sort_by
  any-sort_by [] = refl
  any-sort_by (x ∷ xs) = ground (arith, any-insert x (sort_by le xs), any-sort_by xs)

module _ {ℓ} {A : Type ℓ} (le : A → A → Bool) (f : A → ℕ) where
  total-insert : (x : A) (ys : List A) → total f (insert le x ys) ≡ f x + total f ys
  unfolding insert
  total-insert x [] = refl
  total-insert x (y ∷ ys) = ground (arith, total-insert x ys)

  pub total-sort_by : (xs : List A) → total f (sort_by le xs) ≡ total f xs
  unfolding sort_by
  total-sort_by [] = refl
  total-sort_by (x ∷ xs) = omega (arith, total-insert x (sort_by le xs), total-sort_by xs)

module _ (le : List Text → List Text → Bool) (k : Text) where
  count-flatten-insert :
      (x : List Text) (ys : List (List Text))
      → count k (flatten (insert le x ys)) ≡ count k x + count k (flatten ys)
  unfolding insert
  count-flatten-insert x [] = count-append k x []
  count-flatten-insert x (y ∷ ys) = ground (
    arith,
    count-flatten-insert x ys,
    count-append k x (y ++ flatten ys),
    count-append k y (flatten ys),
    count-append k y (flatten (insert le x ys)),
  )

  pub count-flatten-sort_by :
      (xs : List (List Text)) → count k (flatten (sort_by le xs)) ≡ count k (flatten xs)
  unfolding sort_by
  count-flatten-sort_by [] = refl
  count-flatten-sort_by (x ∷ xs) = omega (
    arith,
    count-flatten-insert x (sort_by le xs),
    count-flatten-sort_by xs,
    count-append k x (flatten xs),
  )

module _ (le : Text → Text → Bool) (k : Text) where
  has-insert : (x : Text) (ys : List Text) → has k (insert le x ys) ≡ (text_eq k x || has k ys)
  unfolding has insert
  has-insert x [] = refl
  has-insert x (y ∷ ys) = ground (arith, has-insert x ys)

  pub has-sort_by : (xs : List Text) → has k (sort_by le xs) ≡ has k xs
  unfolding has sort_by
  has-sort_by [] = refl
  has-sort_by (x ∷ xs) = ground (arith, has-insert x (sort_by le xs), has-sort_by xs)

  count-insert : (x : Text) (ys : List Text) → count k (insert le x ys) ≡ count k (x ∷ ys)
  unfolding count insert
  count-insert x [] = refl
  count-insert x (y ∷ ys) = ground (arith, count-insert x ys)

  pub count-sort_by : (xs : List Text) → count k (sort_by le xs) ≡ count k xs
  unfolding count sort_by
  count-sort_by [] = refl
  count-sort_by (x ∷ xs) = ground (arith, count-insert x (sort_by le xs), count-sort_by xs)

-- `sort()` on strings.
unfoldable pub sort : List Text → List Text
unfolding sort_by text_le
sort = sort_by text_le

module _ (k : Text) (xs : List Text) where
  pub has-sort : has k (sort xs) ≡ has k xs
  unfolding sort
  has-sort = has-sort_by text_le k xs

  pub count-sort : count k (sort xs) ≡ count k xs
  unfolding sort
  count-sort = count-sort_by text_le k xs

pub length-sort : (xs : List Text) → length (sort xs) ≡ length xs
unfolding sort
length-sort = length-sort_by text_le

pub total-sort : (f : Text → ℕ) (xs : List Text) → total f (sort xs) ≡ total f xs
unfolding sort
total-sort f xs = total-sort_by text_le f xs
