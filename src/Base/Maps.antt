-- ===== src/Base/Maps.antt =====
-- `Map` with string keys: an association list in insertion order, each key at most once.
use mathlib.Core.Path.{◌≡◌, refl}
use mathlib.Core.Logic.{inl, inr}
use mathlib.Core.Bool.{true, ◌||◌}
use mathlib.Core.List.{List, [], ◌∷◌}
use mathlib.Core.Option.{Option, none, some}
use native.Mathlib.Omega.{arith}
use taskplane.Base.Tests.{if◌then◌else◌, Bool-cases}
use taskplane.Base.Strings.{Text, text_eq, text_eq_iff, has}

abbrev pub Dict {ℓ} : Type ℓ → Type ℓ
Dict V = List (Text × V)

module _ {ℓ} {V : Type ℓ} where
  unfoldable pub get : Text → Dict V → Option V
  get k [] = none
  get k ((j, v) ∷ d) = let rest = get k d in if text_eq j k then some v else rest

  -- `map.get(k) || v` and `map.get(k) ?? v`, at values that are never falsy but by absence.
  abbrev pub get_or : Dict V → Text → V → V
  get_or d k v = elim (get k d) [ none ↦ v | some w ↦ w ]

  -- A key keeps its place when it is set again.
  unfoldable pub set : Text → V → Dict V → Dict V
  set k v [] = (k, v) ∷ []
  set k v ((j, w) ∷ d) = let rest = set k v d in if text_eq j k then (j, v) ∷ d else (j, w) ∷ rest

  abbrev pub keys : Dict V → List Text
  keys [] = []
  keys ((k, _) ∷ d) = k ∷ keys d

  abbrev pub values : Dict V → List V
  values [] = []
  values ((_, v) ∷ d) = v ∷ values d

  pub get-set :
      (j k : Text) (v : V) (d : Dict V)
      → get j (set k v d) ≡ (if text_eq k j then some v else get j d)
  unfolding get set
  get-set j k v [] = refl
  get-set j k v ((i, w) ∷ d) =
      ground (arith, text_eq_iff k j, text_eq_iff i k, text_eq_iff i j, get-set j k v d)

  pub get_or-set :
      (j k : Text) (v w : V) (d : Dict V)
      → get_or (set k v d) j w ≡ (if text_eq k j then v else get_or d j w)
  get_or-set j k v w d = ground (arith, get-set j k v d)

  -- `map.has(k)` is `k` among the keys.
  pub get_of_has : (k : Text) (d : Dict V) → has k (keys d) ≡ true → (v : V) × (get k d ≡ some v)
  unfolding has get
  get_of_has k [] h = cc
  get_of_has k ((j, w) ∷ d) h = elim (Bool-cases (text_eq j k)) [
    | inl e ↦ (w, rw e)
    | inr e ↦
        let (v, g) = get_of_has k d (ground (arith, text_eq_iff k j, text_eq_iff j k)) in
        (v, rw e g)
  ]

  pub has_of_get : (k : Text) (d : Dict V) {v : V} → get k d ≡ some v → has k (keys d) ≡ true
  unfolding has get
  has_of_get k [] h = cc
  has_of_get k ((j, w) ∷ d) {v} h =
      ground (arith, text_eq_iff k j, text_eq_iff j k, has_of_get k d {v = v})

  pub has-keys-set :
      (j k : Text) (v : V) (d : Dict V) → has j (keys (set k v d)) ≡ (has j (keys d) || text_eq j k)
  unfolding has set
  has-keys-set j k v [] = ground arith
  has-keys-set j k v ((i, w) ∷ d) =
      ground (arith, text_eq_iff j k, text_eq_iff i k, text_eq_iff j i, has-keys-set j k v d)
