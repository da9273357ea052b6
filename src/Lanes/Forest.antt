-- ===== src/Lanes/Forest.antt =====
-- The union-find inside `applyFileScopeAffinity` of waves.ts.
pub mod Rep
pub mod Classes
pub mod Unions
use taskplane.Base.{
  ℕ, zero, suc, ◌+◌, ltb, if◌then◌else◌, true, false, List, [], ◌∷◌, Option, none, some, Text,
  text_eq, Dict, get, set, get_or,
}
use Prim.Native.Nat.{max}

pub record Forest : Type 0 where
  pub parent : Dict Text
  pub rank : Dict ℕ

-- The loop of `find`, which halves the path. `none` stands for a text that is in no tree, from where
-- the source would walk on at `undefined`.
unfoldable pub walk : ℕ → Dict Text → Text → Option (Dict Text × Text)
unfolding get set text_eq
walk zero parent x = none
walk (suc fuel) parent x = elim (get x parent) [
  | none ↦ none
  | some p ↦ elim (text_eq p x) [
    | true ↦ some (parent, x)
    | false ↦ elim (get p parent) [
      | none ↦ none
      | some grand ↦ walk fuel (set x grand parent) grand
    ]
  ]
]

abbrev pub highest : Dict ℕ → ℕ
highest [] = 0
highest ((_, r) ∷ d) = max r (highest d)

-- A parent's rank is higher than its child's, so the highest rank bounds the walk.
unfoldable pub find_root : Forest → Text → Option (Forest × Text)
unfolding walk
find_root f x = elim (walk (suc (highest f.rank)) f.parent x) [
  | none ↦ none
  | some r ↦ some (record f { parent = r.0 }, r.1)
]

abbrev pub rank_of : Forest → Text → ℕ
rank_of f x = get_or f.rank x 0

unfoldable pub attach : Forest → Text → Text → Forest
unfolding get set
attach f ra rb =
    if ltb (rank_of f ra) (rank_of f rb)
    then record f { parent = set ra rb f.parent }
    else (if ltb (rank_of f rb) (rank_of f ra)
        then record f { parent = set rb ra f.parent }
        else record { parent = set rb ra f.parent; rank = set ra (rank_of f ra + 1) f.rank })

unfoldable pub union : Forest → Text → Text → Option Forest
unfolding find_root attach text_eq
union f a b = elim (find_root f a) [
  | none ↦ none
  | some (g, ra) ↦ elim (find_root g b) [
    | none ↦ none
    | some (h, rb) ↦ some (if text_eq ra rb then h else attach h ra rb)
  ]
]

-- The loop that makes each task its own root.
unfoldable pub singletons : List Text → Forest → Forest
unfolding set
singletons [] f = f
singletons (id ∷ ids) f =
    singletons ids (record { parent = set id id f.parent; rank = set id 0 f.rank })

unfoldable pub union_all : List (Text × Text) → Forest → Option Forest
unfolding union
union_all [] f = some f
union_all ((a, b) ∷ pairs) f = elim (union f a b) [ none ↦ none | some g ↦ union_all pairs g ]
