-- ===== src/Lanes/Scopes/Overlap.antt =====
-- About the overlap of file scopes, taken from either side.
use taskplane.Base.{
  ◌≡◌, refl, sym, ◌∙◌, Bool, false, ◌||◌, List, [], ◌∷◌, any, Text, text_eq, text_eq_iff, arith,
}
use taskplane.Types.{ParsedTask}
use taskplane.Lanes.Scopes.{
  normalize_scope, normal_scopes_overlap, scopes_overlap, task_scopes_overlap,
}

text_eq_comm : (a b : Text) → text_eq a b ≡ text_eq b a
text_eq_comm a b = ground (arith, text_eq_iff a b, text_eq_iff b a)

pub scopes_overlap_comm : (a b : Text) → scopes_overlap a b ≡ scopes_overlap b a
unfolding scopes_overlap normal_scopes_overlap
scopes_overlap_comm a b = ground (arith, text_eq_comm (normalize_scope a) (normalize_scope b))

module _ {ℓ} {A : Type ℓ} where
  any-false : (xs : List A) → any (λ _. false) xs ≡ false
  any-false [] = refl
  any-false (x ∷ xs) = any-false xs

  any-or : (p q : A → Bool) (xs : List A) → any (λ x. p x || q x) xs ≡ (any p xs || any q xs)
  any-or p q [] = refl
  any-or p q (x ∷ xs) = ground (arith, any-or p q xs)

  any_congruent : (p q : A → Bool) (xs : List A) → ((x : A) → p x ≡ q x) → any p xs ≡ any q xs
  any_congruent p q [] e = refl
  any_congruent p q (x ∷ xs) e = ground (arith, e x, any_congruent p q xs e)

any-swap :
    (r : Text → Text → Bool) (xs ys : List Text)
    → any (λ x. any (λ y. r x y) ys) xs ≡ any (λ y. any (λ x. r x y) xs) ys
any-swap r [] ys = sym (any-false ys)
any-swap r (x ∷ xs) ys =
    ground (arith, any-swap r xs ys, any-or (r x) (λ y. any (λ z. r z y) xs) ys)

-- The overlap of two tasks does not depend on their order.
pub task_scopes_overlap_comm :
    (a b : ParsedTask) → task_scopes_overlap a b ≡ task_scopes_overlap b a
unfolding task_scopes_overlap
task_scopes_overlap_comm a b =
    any-swap scopes_overlap a.file_scope b.file_scope
    ∙ any_congruent _ _ b.file_scope
        (λ t. any_congruent _ _ a.file_scope (λ s. scopes_overlap_comm s t))
