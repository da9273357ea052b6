-- ===== src/Lanes/Affinity/Groups.antt =====
-- About the groups by root: what they hold and which tasks share one.
use taskplane.Base.{
  ℕ, ◌+◌, ◌≡◌, refl, ◌∙◌, ◌↔◌, if◌then◌else◌, Bool, true, ◌&&◌, ◌||◌, List, [], ◌∷◌, ◌++◌, map, any,
  some, Text, text_eq, text_eq_iff, has, has-append, has-cons, has-cons_self, count, count-append,
  total, total-push_to, All, Dict, get, set, get_or, get_or-set, values, push_to, flatten, sort,
  sort_by, any-sort_by, count-flatten-sort_by, has-sort, count-sort, arith, inl, inr, Bool-cases,
}
use taskplane.Lanes.Forest.{Forest, find_root}
use taskplane.Lanes.Forest.Rep.{Rep, find_root_ok}
use taskplane.Lanes.Affinity.{group_by_root}

-- The groups, where the roots are known.
unfoldable pub grouped : (Text → Text) → List Text → Dict (List Text) → Dict (List Text)
grouped rep [] groups = groups
grouped rep (id ∷ ids) groups = grouped rep ids (push_to (rep id) id groups)

group_by_root-next :
    (f g : Forest) (id root : Text) (ids : List Text) (groups : Dict (List Text))
    → find_root f id ≡ some (g, root)
    → group_by_root f (id ∷ ids) groups ≡ group_by_root g ids (push_to root id groups)
unfolding group_by_root
group_by_root-next f g id root ids groups e = rw (e, group_by_root) refl

pub group_by_root-grouped :
    (rep : Text → Text) (known : List Text) (f : Forest) (ids : List Text)
    (groups : Dict (List Text))
    → Rep rep known f
    → ((x : Text) → has x ids ≡ true → has x known ≡ true)
    → group_by_root f ids groups ≡ some (grouped rep ids groups)
unfolding group_by_root grouped
group_by_root-grouped rep known f [] groups kept h = refl
group_by_root-grouped rep known f (id ∷ ids) groups kept h =
    let (g, root, e, found) = find_root_ok rep known f id kept (h id (has-cons_self id ids)) in
    group_by_root-next f g id root ids groups e
    ∙ (rw found.is_rep (
        group_by_root-grouped rep known g ids (push_to (rep id) id groups) found.kept
          (λ x hx. h x (has-cons x id ids hx))))

abbrev one : Text → Text → ℕ
one x y = if text_eq x y then 1 else 0

count-total : (x : Text) (ys : List Text) → count x ys ≡ total (one x) ys
unfolding count
count-total x [] = refl
count-total x (y ∷ ys) = ground (arith, count-total x ys)

-- Each task is put into one group.
pub count-grouped :
    (rep : Text → Text) (x : Text) (ids : List Text) (groups : Dict (List Text))
    → total (one x) (flatten (values (grouped rep ids groups)))
      ≡ count x ids + total (one x) (flatten (values groups))
unfolding grouped count
count-grouped rep x [] groups = omega arith
count-grouped rep x (id ∷ ids) groups = ground (
  arith,
  count-grouped rep x ids (push_to (rep id) id groups),
  total-push_to (one x) (rep id) id groups,
)

-- All members of a group have its key as their root.
Keyed : (Text → Text) → Dict (List Text) → Type 0
Keyed rep d = All (λ (e : Text × List Text). (y : Text) → has y e.1 ≡ true → rep y ≡ e.0) d

Keyed-set :
    (rep : Text → Text) (k : Text) (v : List Text) (d : Dict (List Text))
    → ((y : Text) → has y v ≡ true → rep y ≡ k)
    → Keyed rep d
    → Keyed rep (set k v d)
unfolding set Keyed
Keyed-set rep k v [] h keyed = (h, tt)
Keyed-set rep k v ((j, w) ∷ d) h keyed = elim (Bool-cases (text_eq j k)) [
  | inl e ↦ rw e (λ y hy. ground (arith, h y hy, text_eq_iff j k), keyed.1)
  | inr e ↦ rw e (keyed.0, Keyed-set rep k v d h keyed.1)
]

get_or-head :
    (j k : Text) (w v : List Text) (d : Dict (List Text))
    → get_or ((j, w) ∷ d) k v ≡ (if text_eq j k then w else get_or d k v)
unfolding get
get_or-head j k w v d = ground arith

Keyed-get :
    (rep : Text → Text) (k y : Text) (d : Dict (List Text))
    → Keyed rep d
    → has y (get_or d k []) ≡ true
    → rep y ≡ k
unfolding get has Keyed
Keyed-get rep k y [] keyed h = cc
Keyed-get rep k y ((j, w) ∷ d) keyed h = elim (Bool-cases (text_eq j k)) [
  | inl e ↦ ground (arith, keyed.0 y (rw (get_or-head j k w [] d, e) at h), text_eq_iff j k)
  | inr e ↦ Keyed-get rep k y d keyed.1 (rw (get_or-head j k w [] d, e) at h)
]

has-push_to :
    (j k x id : Text) (d : Dict (List Text))
    → has x (get_or (push_to j id d) k [])
      ≡ (has x (get_or d k []) || (text_eq x id && text_eq j k))
unfolding push_to has
has-push_to j k x id d = ground (
  arith,
  get_or-set k j (get_or d j [] ++ id ∷ []) [] d,
  has-append x (get_or d j []) (id ∷ []),
  text_eq_iff j k,
)

Keyed-push_to :
    (rep : Text → Text) (id : Text) (d : Dict (List Text))
    → Keyed rep d
    → Keyed rep (push_to (rep id) id d)
unfolding push_to has
Keyed-push_to rep id d keyed =
    Keyed-set rep (rep id) (get_or d (rep id) [] ++ id ∷ []) d
      (λ y hy. ground (
        arith,
        has-append y (get_or d (rep id) []) (id ∷ []),
        Keyed-get rep (rep id) y d keyed,
        text_eq_iff y id,
      ))
      keyed

no_keys : (rep : Text → Text) → Keyed rep []
unfolding Keyed
no_keys rep = tt

Keyed-grouped :
    (rep : Text → Text) (ids : List Text) (d : Dict (List Text))
    → Keyed rep d
    → Keyed rep (grouped rep ids d)
unfolding grouped
Keyed-grouped rep [] d keyed = keyed
Keyed-grouped rep (id ∷ ids) d keyed =
    Keyed-grouped rep ids (push_to (rep id) id d) (Keyed-push_to rep id d keyed)

has-grouped :
    (rep : Text → Text) (k x : Text) (ids : List Text) (d : Dict (List Text))
    → has x (get_or (grouped rep ids d) k [])
      ≡ (has x (get_or d k []) || (has x ids && text_eq (rep x) k))
unfolding grouped has
has-grouped rep k x [] d = ground arith
has-grouped rep k x (id ∷ ids) d = ground (
  arith,
  has-grouped rep k x ids (push_to (rep id) id d),
  has-push_to (rep id) k x id d,
  text_eq_iff x id,
)

-- Some group has both tasks.
abbrev pub together : Text → Text → List (List Text) → Bool
together x y groups = any (λ g. has x g && has y g) groups

together-Keyed :
    (rep : Text → Text) (x y : Text) (d : Dict (List Text))
    → Keyed rep d
    → together x y (values d) ≡ true
    → rep x ≡ rep y
unfolding Keyed
together-Keyed rep x y [] keyed h = cc
together-Keyed rep x y ((k, w) ∷ d) keyed h =
    ground (arith, keyed.0 x, keyed.0 y, together-Keyed rep x y d keyed.1)

together_get :
    (k x y : Text) (d : Dict (List Text))
    → has x (get_or d k []) ≡ true
    → has y (get_or d k []) ≡ true
    → together x y (values d) ≡ true
unfolding get has
together_get k x y [] hx hy = cc
together_get k x y ((j, w) ∷ d) hx hy = ground (arith, get_or-head j k w [] d, together_get k x y d)

-- Two grouped tasks share a group exactly when they have one root.
pub together-grouped :
    (rep : Text → Text) (x y : Text) (ids : List Text)
    → has x ids ≡ true
    → has y ids ≡ true
    → (together x y (values (grouped rep ids [])) ≡ true) ↔ (rep x ≡ rep y)
together-grouped rep x y ids hx hy = (
  together-Keyed rep x y (grouped rep ids []) (Keyed-grouped rep ids [] (no_keys rep)),
  λ e.
      together_get (rep x) x y (grouped rep ids [])
        (ground (arith, has-grouped rep (rep x) x ids [], text_eq_iff (rep x) (rep x)))
        (ground (arith, has-grouped rep (rep x) y ids [], text_eq_iff (rep y) (rep x))),
)

module _ (x : Text) where
  together-sort :
      (y : Text) (groups : List (List Text)) → together x y (map sort groups) ≡ together x y groups
  together-sort y [] = refl
  together-sort y (g ∷ groups) = ground (arith, has-sort x g, has-sort y g, together-sort y groups)

  count-flatten-map-sort :
      (groups : List (List Text)) → count x (flatten (map sort groups)) ≡ count x (flatten groups)
  count-flatten-map-sort [] = refl
  count-flatten-map-sort (g ∷ groups) = omega (
    arith,
    count-append x (sort g) (flatten (map sort groups)),
    count-append x g (flatten groups),
    count-sort x g,
    count-flatten-map-sort groups,
  )

abbrev pub ordered_groups :
    (List Text → List Text → Bool) → (Text → Text) → List Text → List (List Text)
ordered_groups le rep ids = sort_by le (map sort (values (grouped rep ids [])))

module _ (le : List Text → List Text → Bool) (rep : Text → Text) (x : Text) (ids : List Text) where
  pub count-ordered_groups : count x (flatten (ordered_groups le rep ids)) ≡ count x ids
  count-ordered_groups = omega (
    arith,
    count-flatten-sort_by le x (map sort (values (grouped rep ids []))),
    count-flatten-map-sort x (values (grouped rep ids [])),
    count-total x (flatten (values (grouped rep ids []))),
    count-grouped rep x ids [],
  )

  pub together-ordered_groups :
      (y : Text)
      → has x ids ≡ true
      → has y ids ≡ true
      → (together x y (ordered_groups le rep ids) ≡ true) ↔ (rep x ≡ rep y)
  together-ordered_groups y hx hy =
      rw (any-sort_by le (λ g. has x g && has y g) (map sort (values (grouped rep ids []))))
        (rw (together-sort x y (values (grouped rep ids []))) (together-grouped rep x y ids hx hy))
