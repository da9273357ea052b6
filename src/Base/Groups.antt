-- ===== src/Base/Groups.antt =====
-- Grouping by a key: `const group = map.get(key) || []; group.push(x); map.set(key, group)`.
use Prim.Native.Nat.{ℕ, ◌+◌}
use mathlib.Core.Path.{◌≡◌}
use mathlib.Core.List.{List, [], ◌∷◌, ◌++◌}
use native.Mathlib.Omega.{arith}
use taskplane.Base.Lists.{flatten, total, total-append}
use taskplane.Base.Strings.{Text}
use taskplane.Base.Maps.{Dict, get, set, get_or, values}

module _ {ℓ} {A : Type ℓ} where
  unfoldable pub push_to : Text → A → Dict (List A) → Dict (List A)
  unfolding get set
  push_to k x d = set k (get_or d k [] ++ x ∷ []) d

  module _ (f : A → ℕ) where
    -- A changed entry changes the total by as much.
    pub total-set :
        (k : Text) (v : List A) (m n : ℕ) (d : Dict (List A))
        → total f v + m ≡ total f (get_or d k []) + n
        → total f (flatten (values (set k v d))) + m ≡ total f (flatten (values d)) + n
    unfolding get set
    total-set k v m n [] e = omega (arith, total-append f v [])
    total-set k v m n ((j, w) ∷ d) e = ground (
      arith,
      total-set k v m n d,
      total-append f w (flatten (values d)),
      total-append f v (flatten (values d)),
      total-append f w (flatten (values (set k v d))),
    )

    pub total-push_to :
        (k : Text) (x : A) (d : Dict (List A))
        → total f (flatten (values (push_to k x d))) ≡ total f (flatten (values d)) + f x
    unfolding push_to
    total-push_to k x d = omega (
      arith,
      total-set k (get_or d k [] ++ x ∷ []) 0 (f x) d
          (omega (arith, total-append f (get_or d k []) (x ∷ []))),
    )
