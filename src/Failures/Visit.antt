-- ===== src/Failures/Visit.antt =====
-- About the inner loop of `computeTransitiveDependents`: its marks and its budget.
use taskplane.Base.{
  ℕ, ◌+◌, ◌≤◌, ◌<◌, ◌≡◌, true, false, not, ◌&&◌, ◌||◌, List, [], ◌∷◌, Option, Text, text_eq,
  text_eq_iff, text_eq_refl, has, add, has-add, has-append, has-cons, has-cons_self, filter, length,
  length-append, arith,
}
use taskplane.Failures.{Search, in_scope, discover, visit}

has_one : (x y : Text) → has x (y ∷ []) ≡ text_eq x y
unfolding has
has_one x y = ground arith

module _ (failed : List Text) (scope : Option (List Text)) (x : Text) where
  module _ (d : Text) (s : Search) where
    has-discover-visited :
        has x (discover failed scope d s).visited
        ≡ (has x s.visited || (text_eq x d && not (has x failed)))
    unfolding discover
    has-discover-visited = ground (arith, has-add x d s.visited, text_eq_iff x d)

    has-discover-queue :
        has x (discover failed scope d s).queue
        ≡ (has x s.queue || (text_eq x d && not (has x failed) && not (has x s.visited)))
    unfolding discover
    has-discover-queue = ground (arith, has-append x s.queue (d ∷ []), has_one x d, text_eq_iff x d)

    has-discover-blocked :
        has x s.blocked ≡ (has x s.visited && in_scope scope x)
        → has x (discover failed scope d s).blocked
          ≡ (has x (discover failed scope d s).visited && in_scope scope x)
    unfolding discover
    has-discover-blocked h =
        ground (arith, has-add x d s.visited, has-add x d s.blocked, text_eq_iff x d)

  pub has-visited :
      (deps : List Text) (s : Search)
      → has x (visit failed scope deps s).visited
        ≡ (has x s.visited || (has x deps && not (has x failed)))
  unfolding visit has
  has-visited [] s = ground arith
  has-visited (d ∷ deps) s =
      ground (arith, has-visited deps (discover failed scope d s), has-discover-visited d s)

  pub has-queue :
      (deps : List Text) (s : Search)
      → has x (visit failed scope deps s).queue
        ≡ (has x s.queue || (has x deps && not (has x failed) && not (has x s.visited)))
  unfolding visit has
  has-queue [] s = ground arith
  has-queue (d ∷ deps) s = ground (
    arith,
    has-queue deps (discover failed scope d s),
    has-discover-queue d s,
    has-discover-visited d s,
  )

  -- What is reported is what is visited in the scope.
  pub has-blocked :
      (deps : List Text) (s : Search)
      → has x s.blocked ≡ (has x s.visited && in_scope scope x)
      → has x (visit failed scope deps s).blocked
        ≡ (has x (visit failed scope deps s).visited && in_scope scope x)
  unfolding visit
  has-blocked [] s h = h
  has-blocked (d ∷ deps) s h =
      has-blocked deps (discover failed scope d s) (has-discover-blocked d s h)

-- How many of the dependents are not visited.
abbrev pub unvisited : List Text → List Text → ℕ
unvisited all visited = length (filter (λ y. not (has y visited)) all)

unvisited-add-le :
    (d : Text) (all visited : List Text) → unvisited all (add d visited) ≤ unvisited all visited
unvisited-add-le d [] visited = omega arith
unvisited-add-le d (y ∷ all) visited =
    ground (arith, has-add y d visited, unvisited-add-le d all visited)

unvisited-add-lt :
    (d : Text) (all visited : List Text)
    → has d all ≡ true
    → has d visited ≡ false
    → unvisited all (add d visited) < unvisited all visited
unfolding has
unvisited-add-lt d [] visited h new = cc
unvisited-add-lt d (y ∷ all) visited h new = ground (
  arith,
  has-add y d visited,
  text_eq_iff d y,
  text_eq_refl d,
  unvisited-add-le d all visited,
  unvisited-add-lt d all visited,
)

discover-budget :
    (failed : List Text) (scope : Option (List Text)) (all : List Text) (d : Text) (s : Search)
    → has d all ≡ true
    → length (discover failed scope d s).queue + unvisited all (discover failed scope d s).visited
      ≤ length s.queue + unvisited all s.visited
unfolding discover
discover-budget failed scope all d s h =
    ground (arith, length-append s.queue (d ∷ []), unvisited-add-lt d all s.visited h)

-- A task enters the queue when it is visited.
pub visit-budget :
    (failed : List Text) (scope : Option (List Text)) (all deps : List Text) (s : Search)
    → ((x : Text) → has x deps ≡ true → has x all ≡ true)
    → length (visit failed scope deps s).queue + unvisited all (visit failed scope deps s).visited
      ≤ length s.queue + unvisited all s.visited
unfolding visit
visit-budget failed scope all [] s h = omega arith
visit-budget failed scope all (d ∷ deps) s h = omega (
  arith,
  visit-budget failed scope all deps (discover failed scope d s)
      (λ x hx. h x (has-cons x d deps hx)),
  discover-budget failed scope all d s (h d (has-cons_self d deps)),
)
