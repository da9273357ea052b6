-- ===== src/Base/Strings.antt =====
-- A JavaScript string is its list of UTF-16 code units, and a set of strings is a list of them.
use Prim.Native.Nat.{ℕ, ◌+◌, ◌≤◌, ◌<◌, suc}
use Prim.Native.Char.{code}
use Prim.Native.String.{String}
use mathlib.Core.Path.{◌≡◌, refl}
use mathlib.Core.Logic.{◌↔◌, inl, inr}
use mathlib.Core.Bool.{Bool, true, false, not, ◌&&◌, ◌||◌}
use mathlib.Core.List.{List, [], ◌∷◌, ◌++◌}
use native.Mathlib.Omega.{arith}
use taskplane.Base.Tests.{◌==◌, ltb, if◌then◌else◌, Bool-cases}
use taskplane.Base.Lists.{filter, length, length-filter-le}

abbrev pub Text : Type 0
Text = List ℕ

-- An ASCII literal.
abbrev pub text : String → Text
text String.[] = []
text (String.◌∷◌ c s) = code c ∷ text s

-- `===` on strings.
unfoldable pub text_eq : Text → Text → Bool
text_eq [] [] = true
text_eq (a ∷ s) (b ∷ t) = (a == b) && text_eq s t
text_eq _ _ = false

pub text_eq_refl : (s : Text) → text_eq s s ≡ true
unfolding text_eq
text_eq_refl [] = refl
text_eq_refl (a ∷ s) = ground (arith, text_eq_refl s)

eq_of_text_eq : (s t : Text) → text_eq s t ≡ true → s ≡ t
unfolding text_eq
eq_of_text_eq [] [] h = refl
eq_of_text_eq [] (b ∷ t) h = cc
eq_of_text_eq (a ∷ s) [] h = cc
eq_of_text_eq (a ∷ s) (b ∷ t) h = ground (arith, eq_of_text_eq s t)

pub text_eq_iff : (s t : Text) → (text_eq s t ≡ true) ↔ (s ≡ t)
text_eq_iff s t = (eq_of_text_eq s t, λ e. ground (arith, text_eq_refl s))

-- The order of `<` and of `sort()`: by code units.
unfoldable pub text_le : Text → Text → Bool
text_le [] t = true
text_le (a ∷ s) [] = false
text_le (a ∷ s) (b ∷ t) = ltb a b || ((a == b) && text_le s t)

-- `Set.prototype.has`, and `Array.prototype.includes`.
unfoldable pub has : Text → List Text → Bool
has x [] = false
has x (y ∷ ys) = text_eq x y || has x ys

unfoldable pub count : Text → List Text → ℕ
count x [] = 0
count x (y ∷ ys) = let rest = count x ys in if text_eq x y then suc rest else rest

-- `Set.prototype.add` and `delete`, on a list without duplicates.
unfoldable pub add : Text → List Text → List Text
unfolding has
add x s = if has x s then s else s ++ x ∷ []

unfoldable pub delete : Text → List Text → List Text
delete x s = filter (λ y. not (text_eq y x)) s

module _ (x : Text) where
  pub count-append : (xs ys : List Text) → count x (xs ++ ys) ≡ count x xs + count x ys
  unfolding count
  count-append [] ys = omega arith
  count-append (y ∷ xs) ys = ground (arith, count-append xs ys)

  pub has-append : (xs ys : List Text) → has x (xs ++ ys) ≡ (has x xs || has x ys)
  unfolding has
  has-append [] ys = refl
  has-append (y ∷ xs) ys = ground (arith, has-append xs ys)

  pub has-cons : (y : Text) (xs : List Text) → has x xs ≡ true → has x (y ∷ xs) ≡ true
  unfolding has
  has-cons y xs h = ground arith

  pub has-cons_self : (xs : List Text) → has x (x ∷ xs) ≡ true
  unfolding has
  has-cons_self xs = rw text_eq_refl

  pub count_of_has : (xs : List Text) → has x xs ≡ true → 1 ≤ count x xs
  unfolding has count
  count_of_has [] h = cc
  count_of_has (y ∷ xs) h = ground (arith, count_of_has xs)

  pub has_of_count : (xs : List Text) → 1 ≤ count x xs → has x xs ≡ true
  unfolding has count
  has_of_count [] h = absurd (omega arith)
  has_of_count (y ∷ xs) h = ground (arith, has_of_count xs)

  pub has-delete : (w : Text) (s : List Text) → has x (delete w s) ≡ (has x s && not (text_eq x w))
  unfolding has delete
  has-delete w [] = refl
  has-delete w (y ∷ s) =
      ground
        (arith, has-delete w s, text_eq_iff x y, text_eq_iff y w, text_eq_iff x w, text_eq_refl x)

  has_snoc : (y : Text) (s : List Text) → has x (s ++ y ∷ []) ≡ (has x s || text_eq x y)
  unfolding has
  has_snoc y [] = ground arith
  has_snoc y (z ∷ s) = ground (arith, has_snoc y s)

  has_or_self : (y : Text) (s : List Text) → has y s ≡ true → has x s ≡ (has x s || text_eq x y)
  has_or_self y s old = ground (arith, text_eq_iff x y)

  pub has-add : (y : Text) (s : List Text) → has x (add y s) ≡ (has x s || text_eq x y)
  unfolding add
  has-add y s = elim (Bool-cases (has y s)) [
    | inl old ↦ rw old (has_or_self y s old)
    | inr new ↦ rw new (has_snoc y s)
  ]

  pub has-filter : (p : Text → Bool) (xs : List Text) → has x (filter p xs) ≡ (has x xs && p x)
  unfolding has
  has-filter p [] = refl
  has-filter p (y ∷ xs) = ground (arith, has-filter p xs, text_eq_iff x y)

  pub count-filter :
      (p : Text → Bool) (xs : List Text) → count x (filter p xs) ≡ (if p x then count x xs else 0)
  unfolding count
  count-filter p [] = ground arith
  count-filter p (y ∷ xs) = ground (arith, count-filter p xs, text_eq_iff x y)

  pub count-delete :
      (w : Text) (s : List Text) → count x (delete w s) ≡ (if text_eq x w then 0 else count x s)
  unfolding delete
  count-delete w s = ground (arith, count-filter (λ y. not (text_eq y w)) s)

pub length-delete-lt : (w : Text) (s : List Text) → has w s ≡ true → length (delete w s) < length s
unfolding has delete
length-delete-lt w [] h = cc
length-delete-lt w (y ∷ s) h = ground (
  arith,
  text_eq_iff w y,
  text_eq_iff y w,
  length-delete-lt w s,
  length-filter-le (λ z. not (text_eq z w)) s,
)

-- A list in which no text stands twice, as the elements of a `Set` and the keys of a `Map` are.
abbrev pub Distinct : List Text → Type 0
Distinct xs = (x : Text) → count x xs ≤ 1

pub Distinct-tail : (y : Text) (xs : List Text) → Distinct (y ∷ xs) → Distinct xs
unfolding count
Distinct-tail y xs h x = ground (arith, h x)

pub Distinct-head : (y : Text) (xs : List Text) → Distinct (y ∷ xs) → has y xs ≡ false
unfolding count
Distinct-head y xs h = ground (arith, h y, text_eq_refl y, count_of_has y xs)

pub count-add :
    (x y : Text) (s : List Text)
    → count x (add y s)
      ≡ (if has y s then count x s else (if text_eq x y then suc (count x s) else count x s))
unfolding add count
count-add x y s = ground (arith, count-append x s (y ∷ []))

pub Distinct-add : (y : Text) (s : List Text) → Distinct s → Distinct (add y s)
Distinct-add y s h x =
    ground (arith, count-add x y s, h x, text_eq_iff x y, has_of_count x s, count_of_has x s)
