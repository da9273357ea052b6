-- ===== src/Failures/Reach.antt =====
-- About the search of `computeTransitiveDependents`, against chains of dependents.
use taskplane.Base.{
  ℕ, zero, suc, ◌+◌, ◌≤◌, ◌≡◌, refl, sym, subst, ◌↔◌, ◌⊎◌, true, false, ◌&&◌, ◌||◌, List, [], ◌∷◌,
  Option, some, Text, text_eq, text_eq_iff, has, has-append, has-sort, get, get_or, Dict, values,
  sort, length, flatten, length-filter-le, not, arith, inl, inr, Bool-cases, List-cases,
}
use taskplane.Types.{DependencyGraph}
use taskplane.Waves.Compute.{dependents_of}
use taskplane.Failures.{Search, in_scope, visit, search, compute_transitive_dependents}
use taskplane.Failures.Visit.{has-visited, has-queue, has-blocked, unvisited, visit-budget}

-- A chain of dependents from a failed task on.
pub data Downstream (g : DependencyGraph) (failed : List Text) : Text → Type 0 where
  first :
      (c : Text) {x : Text}
      → has c failed ≡ true
      → has x (dependents_of g c) ≡ true
      → Downstream g failed x
  next :
      (c : Text) {x : Text}
      → Downstream g failed c
      → has x (dependents_of g c) ≡ true
      → Downstream g failed x

abbrev all_dependents : DependencyGraph → List Text
all_dependents g = flatten (values g.dependents)

has-flatten-values :
    (k x : Text) (d : Dict (List Text))
    → has x (get_or d k []) ≡ true
    → has x (flatten (values d)) ≡ true
unfolding get has
has-flatten-values k x [] h = cc
has-flatten-values k x ((j, v) ∷ d) h =
    ground (arith, has-append x v (flatten (values d)), has-flatten-values k x d)

has_none : (c : Text) → has c [] ≡ true → ⊥
unfolding has
has_none c h = cc

module _ (g : DependencyGraph) (failed : List Text) (scope : Option (List Text)) where
  -- The dependents of a task are visited, or failed themselves.
  abbrev Closed : Search → Text → Type 0
  Closed s c =
      (x : Text) → has x (dependents_of g c) ≡ true → (has x failed || has x s.visited) ≡ true

  record Inv (s : Search) : Type 0 where
    reported : (x : Text) → has x s.blocked ≡ (has x s.visited && in_scope scope x)
    apart : (x : Text) → has x s.visited ≡ true → has x failed ≡ false
    origin : (x : Text) → has x s.visited ≡ true → Downstream g failed x
    waiting : (x : Text) → has x s.queue ≡ true → (has x failed || has x s.visited) ≡ true
    closed :
        (c : Text) → (has c failed || has c s.visited) ≡ true → (has c s.queue ≡ true) ⊎ Closed s c

  abbrev advance : Text → List Text → Search → Search
  advance c rest s = visit failed scope (sort (dependents_of g c)) (record s { queue = rest })

  module _ (c : Text) (rest : List Text) (s : Search) (q : s.queue ≡ c ∷ rest) (inv : Inv s) where
    visited-advance :
        (x : Text)
        → has x (advance c rest s).visited
          ≡ (has x s.visited || (has x (dependents_of g c) && not (has x failed)))
    visited-advance x = ground (
      arith,
      has-visited failed scope x (sort (dependents_of g c)) (record s { queue = rest }),
      has-sort x (dependents_of g c),
    )

    queue-advance :
        (x : Text)
        → has x (advance c rest s).queue ≡ (
            has x rest
            || (has x (dependents_of g c) && not (has x failed) && not (has x s.visited)))
    queue-advance x = ground (
      arith,
      has-queue failed scope x (sort (dependents_of g c)) (record s { queue = rest }),
      has-sort x (dependents_of g c),
    )

    has-queue_eq : (x : Text) → has x s.queue ≡ (text_eq x c || has x rest)
    unfolding has
    has-queue_eq x = rw q refl

    current : (has c failed || has c s.visited) ≡ true
    current = inv.waiting c (ground (arith, has-queue_eq c, text_eq_iff c c))

    origin-advance : (x : Text) → has x (advance c rest s).visited ≡ true → Downstream g failed x
    origin-advance x h = elim (Bool-cases (has x s.visited)) [
      | inl old ↦ inv.origin x old
      | inr new ↦ elim (Bool-cases (has c failed)) [
        | inl f ↦ first c f (ground (arith, visited-advance x))
        | inr f ↦
            next c (inv.origin c (ground (arith, current))) (ground (arith, visited-advance x))
      ]
    ]

    Closed-old : (d : Text) → Closed s d → Closed (advance c rest s) d
    Closed-old d k x h = ground (arith, k x h, visited-advance x)

    Closed-current : Closed (advance c rest s) c
    Closed-current x h = ground (arith, visited-advance x)

    Closed-advance :
        (d : Text)
        → (has d failed || has d (advance c rest s).visited) ≡ true
        → (has d (advance c rest s).queue ≡ true) ⊎ Closed (advance c rest s) d
    Closed-advance d h = elim (Bool-cases (has d failed || has d s.visited)) [
      | inl old ↦ elim (inv.closed d old) [
        | inl w ↦ elim (Bool-cases (text_eq d c)) [
          | inl e ↦
              inr (subst (Closed (advance c rest s)) (sym ((text_eq_iff d c).0 e)) Closed-current)
          | inr e ↦ inl (ground (arith, has-queue_eq d, queue-advance d))
        ]
        | inr k ↦ inr (Closed-old d k)
      ]
      | inr new ↦ inl (ground (arith, visited-advance d, queue-advance d))
    ]

    Inv-advance : Inv (advance c rest s)
    Inv-advance = record {
      reported = λ x. has-blocked failed scope x _ (record s { queue = rest }) (inv.reported x);
      apart = λ x h. ground (arith, visited-advance x, inv.apart x);
      origin = origin-advance;
      waiting =
          λ x h. ground (arith, visited-advance x, queue-advance x, has-queue_eq x, inv.waiting x);
      closed = Closed-advance;
    }

    advance-budget :
        length (advance c rest s).queue + unvisited (all_dependents g) (advance c rest s).visited
        ≤ length rest + unvisited (all_dependents g) s.visited
    advance-budget =
        visit-budget failed scope (all_dependents g) (sort (dependents_of g c))
          (record s { queue = rest })
          (λ x h.
            has-flatten-values c x g.dependents (ground (arith, has-sort x (dependents_of g c))))

  record Report (blocked : List Text) : Type 0 where
    sound :
        (x : Text)
        → has x blocked ≡ true
        → Downstream g failed x × (has x failed ≡ false) × (in_scope scope x ≡ true)
    complete :
        (x : Text)
        → Downstream g failed x
        → has x failed ≡ false
        → in_scope scope x ≡ true
        → has x blocked ≡ true

  Closed-end :
      (s : Search)
      → Inv s
      → s.queue ≡ []
      → (c : Text) → (has c failed || has c s.visited) ≡ true
      → Closed s c
  Closed-end s inv q c h = elim (inv.closed c h) [
    | inl w ↦ absurd (has_none c (rw q at w))
    | inr k ↦ k
  ]

  reached :
      (s : Search)
      → Inv s
      → s.queue ≡ []
      → (x : Text) → Downstream g failed x
      → (has x failed || has x s.visited) ≡ true
  reached s inv q x (first c f h) = Closed-end s inv q c (ground arith) x h
  reached s inv q x (next c d h) = Closed-end s inv q c (reached s inv q c d) x h

  Report-end : (s : Search) → Inv s → s.queue ≡ [] → Report s.blocked
  Report-end s inv q = record {
    sound = λ x h.
        let seen : has x s.visited ≡ true = ground (arith, inv.reported x) in
        (inv.origin x seen, inv.apart x seen, ground (arith, inv.reported x));
    complete = λ x d f i. ground (arith, reached s inv q x d, inv.reported x);
  }

  search-next :
      (fuel : ℕ) (c : Text) (rest : List Text) (s : Search) (blocked : List Text)
      → s.queue ≡ c ∷ rest
      → search g failed scope fuel (advance c rest s) ≡ some blocked
      → search g failed scope (suc fuel) s ≡ some blocked
  unfolding search
  search-next fuel c rest s blocked q runs = rw q runs

  search_ok :
      (fuel : ℕ) (s : Search)
      → length s.queue + unvisited (all_dependents g) s.visited ≤ fuel
      → Inv s
      → (blocked : List Text) × (search g failed scope fuel s ≡ some blocked) × Report blocked
  unfolding search
  search_ok zero s h inv = elim (List-cases s.queue) [
    | inl q ↦ (s.blocked, rw q refl, Report-end s inv q)
    | inr (c, rest, q) ↦ absurd (omega (arith, rw q at h))
  ]
  search_ok (suc fuel) s h inv = elim (List-cases s.queue) [
    | inl q ↦ (s.blocked, rw q refl, Report-end s inv q)
    | inr (c, rest, q) ↦
        let (blocked, runs, report) =
          search_ok fuel (advance c rest s)
            (omega (arith, rw q at h, advance-budget c rest s q inv))
            (Inv-advance c rest s q inv) in
        (blocked, search-next fuel c rest s blocked q runs, report)
  ]

  start : Search
  start = record { blocked = []; visited = []; queue = failed }

  Inv-start : Inv start
  unfolding has start
  Inv-start = record {
    reported = λ x. refl;
    apart = λ x h. cc;
    origin = λ x h. absurd (ground arith);
    waiting = λ x h. ground arith;
    closed = λ c h. inl (ground arith);
  }

  -- The search ends, and reports exactly the tasks of the scope that have not failed themselves and
  -- that a chain of dependents leads to from a failed task.
  pub transitive_dependents_iff :
      (blocked : List Text) × (compute_transitive_dependents failed g scope ≡ some blocked)
      × ((x : Text)
          → (has x blocked ≡ true)
            ↔ (Downstream g failed x × (has x failed ≡ false) × (in_scope scope x ≡ true)))
  unfolding compute_transitive_dependents start
  transitive_dependents_iff =
      let (blocked, runs, report) =
        search_ok _ start (omega (arith, length-filter-le (λ y. not (has y [])) (all_dependents g)))
          Inv-start in
      (blocked, runs, λ x. (report.sound x, λ (d, f, i). report.complete x d f i))
