-- ===== src/Waves/Compute/Order.antt =====
-- One run of the loop of `computeWaves`: what its result holds.
use taskplane.Base.{
  ℕ, zero, suc, ◌+◌, ◌≤◌, ◌≡◌, ◌≢◌, refl, ◌∙◌, ap, if◌then◌else◌, true, false, List, [], ◌∷◌, ◌++◌,
  some, Text, text_eq_iff, has, count, has-append, count-append, has-filter, count-filter, has-sort,
  count-sort, Dict, Distinct, filter, length, flatten, arith, inl, inr, Bool-cases, List-cases,
  has_of_count, count_of_has, has-cons_self, ◌&&◌, ◌||◌, has-cons,
}
use taskplane.Base.Int.{ℤ, pos, is_zero}
use taskplane.Types.{DependencyGraph}
use taskplane.Waves.Compute.{dependencies_of, degree, place, ready, Waves, rounds, stuck_error}
use taskplane.Waves.Compute.Degrees.{
  unmet, Exact, Mirrored, Exact-place, has-place, count-place, length-place-lt,
}

-- Every dependency of a node leads to a node.
abbrev pub Closed : DependencyGraph → Type 0
Closed g = (n m : Text) → has m (dependencies_of g n) ≡ true → has m g.nodes ≡ true

-- Each task of a wave has its dependencies in the waves before it.
abbrev pub Ordered : DependencyGraph → List Text → List (List Text) → Type 0
Ordered g placed [] = Unit
Ordered g placed (wave ∷ waves) =
    ((n m : Text) → has n wave ≡ true → has m (dependencies_of g n) ≡ true → has m placed ≡ true)
    × Ordered g (placed ++ wave) waves

-- Each of these tasks waits for another of them.
abbrev pub Blocked : DependencyGraph → List Text → Type 0
Blocked g rest =
    (n : Text)
    → has n rest ≡ true
    → (m : Text) × (has m (dependencies_of g n) ≡ true) × (has m rest ≡ true)

pub record Outcome (g : DependencyGraph) (placed remaining : List Text) (r : Waves) : Type 0 where
  pub rest : List Text
  pub ordered : Ordered g placed r.waves
  pub conserved : (x : Text) → count x (flatten r.waves) + count x rest ≡ count x remaining
  pub blocked : Blocked g rest
  pub finished : r.errors ≡ [] → rest ≡ []
  pub failing : rest ≡ [] → r.errors ≡ []

has-nil : (x : Text) → has x [] ≡ false
unfolding has
has-nil x = refl

count-flatten_nil : (x : Text) (k : ℕ) → count x (flatten []) + k ≡ k
unfolding count
count-flatten_nil x k = omega arith

module _ (remaining : List Text) (d : Dict ℤ) (x : Text) where
  pub has-ready : has x (ready remaining d) ≡ (has x remaining && is_zero (degree d x))
  unfolding ready
  has-ready =
      has-sort x (filter (λ n. is_zero (degree d n)) remaining)
      ∙ has-filter x (λ n. is_zero (degree d n)) remaining

  pub count-ready :
      count x (ready remaining d) ≡ (if is_zero (degree d x) then count x remaining else 0)
  unfolding ready
  count-ready =
      count-sort x (filter (λ n. is_zero (degree d n)) remaining)
      ∙ count-filter x (λ n. is_zero (degree d n)) remaining

pos_zero : (z : ℤ) (k : ℕ) → z ≡ pos k → is_zero z ≡ true → k ≡ 0
pos_zero z k e h = ground arith

unmet_zero :
    (remaining deps : List Text) (m : Text)
    → unmet remaining deps ≡ 0
    → has m deps ≡ true
    → has m remaining ≡ false
unfolding has
unmet_zero remaining [] m z h = cc
unmet_zero remaining (x ∷ deps) m z h = ground (arith, text_eq_iff m x, unmet_zero remaining deps m)

-- A dependency that remains, where the count of such is not 0.
unmet_pos :
    (remaining deps : List Text)
    → unmet remaining deps ≢ 0
    → (m : Text) × (has m deps ≡ true) × (has m remaining ≡ true)
unmet_pos remaining [] h = absurd (h refl)
unmet_pos remaining (x ∷ deps) h = elim (Bool-cases (has x remaining)) [
  | inl e ↦ (x, has-cons_self x deps, e)
  | inr e ↦ let (m, hm, hr) = unmet_pos remaining deps (rw e at h) in (m, has-cons m x deps hm, hr)
]

module _ (g : DependencyGraph) (mirrored : Mirrored g) (closed : Closed g) where
  pub record Inv (placed remaining : List Text) (d : Dict ℤ) : Type 0 where
    pub exact : Exact g remaining d
    pub distinct : Distinct remaining
    pub cover : (x : Text) → has x g.nodes ≡ true → (has x placed || has x remaining) ≡ true

  -- The nodes of a wave wait for nothing.
  ready-ordered :
      (placed remaining : List Text) (d : Dict ℤ) (n m : Text)
      → Inv placed remaining d
      → has n (ready remaining d) ≡ true
      → has m (dependencies_of g n) ≡ true
      → has m placed ≡ true
  ready-ordered placed remaining d n m inv hn hm =
      let none_left =
        unmet_zero remaining (dependencies_of g n) m
          (pos_zero (degree d n) _ (inv.exact n (ground (arith, has-ready remaining d n)))
            (ground (arith, has-ready remaining d n)))
          hm in
      ground (arith, inv.cover m (closed n m hm), none_left)

  Inv-place :
      (placed remaining : List Text) (d : Dict ℤ)
      → Inv placed remaining d
      → let wave = ready remaining d in
        let next = place g wave remaining d in Inv (placed ++ wave) next.0 next.1
  Inv-place placed remaining d inv =
      let wave = ready remaining d in
      record {
        exact =
            Exact-place g wave remaining d mirrored
              (λ x. ground (arith, count-ready remaining d x, inv.distinct x))
              (λ x h. ground (arith, has-ready remaining d x)) inv.exact;
        distinct = λ x. ground (arith, count-place g x wave remaining d, inv.distinct x);
        cover = λ x h.
            ground (arith, inv.cover x h, has-append x placed wave, has-place g x wave remaining d);
      }

  -- Where no node is ready, each waits for another.
  Blocked-stuck :
      (placed remaining : List Text) (d : Dict ℤ)
      → Inv placed remaining d
      → ready remaining d ≡ []
      → Blocked g remaining
  Blocked-stuck placed remaining d inv e n h =
      unmet_pos remaining (dependencies_of g n) (λ z. not_ready (inv.exact n h ∙ ap pos z))
    where
      absent : has n (ready remaining d) ≡ false
      absent = rw e (has-nil n)

      not_ready : degree d n ≡ pos 0 → ⊥
      not_ready z = ground (arith, absent, has-ready remaining d n)

  stuck-Outcome :
      (placed : List Text) (n : Text) (ns : List Text) (d : Dict ℤ)
      → Inv placed (n ∷ ns) d
      → ready (n ∷ ns) d ≡ []
      → Outcome g placed (n ∷ ns) (record { waves = []; errors = stuck_error (n ∷ ns) ∷ [] })
  stuck-Outcome placed n ns d inv e = record {
    rest = n ∷ ns;
    ordered = tt;
    conserved = λ x. count-flatten_nil x (count x (n ∷ ns));
    blocked = Blocked-stuck placed (n ∷ ns) d inv e;
    finished = λ h. cc;
    failing = λ h. cc;
  }

  push-Outcome :
      (placed remaining : List Text) (d : Dict ℤ) (r : Waves)
      → Inv placed remaining d
      → let wave = ready remaining d in
        Outcome g (placed ++ wave) (place g wave remaining d).0 r
        → Outcome g placed remaining (record r { waves = wave ∷ r.waves })
  push-Outcome placed remaining d r inv o =
      let wave = ready remaining d in
      record {
        rest = o.rest;
        ordered = (λ n m hn hm. ready-ordered placed remaining d n m inv hn hm, o.ordered);
        conserved = λ x. ground (
          arith,
          count-append x wave (flatten r.waves),
          o.conserved x,
          inv.distinct x,
          count-ready remaining d x,
          has-ready remaining d x,
          count_of_has x wave,
          has_of_count x wave,
          count_of_has x remaining,
          has_of_count x remaining,
          count-place g x wave remaining d,
        );
        blocked = o.blocked;
        finished = o.finished;
        failing = o.failing;
      }

  -- The loop ends within as many rounds as nodes remain.
  pub rounds_ok :
      (fuel : ℕ) (placed remaining : List Text) (d : Dict ℤ)
      → length remaining ≤ fuel
      → Inv placed remaining d
      → (r : Waves) × (rounds g fuel remaining d ≡ some r) × Outcome g placed remaining r
  unfolding rounds count
  rounds_ok fuel placed [] d h inv = (
    record { waves = []; errors = [] },
    refl,
    record {
      rest = [];
      ordered = tt;
      conserved = λ x. count-flatten_nil x 0;
      blocked = λ n hn. absurd (ground (arith, has-nil n));
      finished = λ _. refl;
      failing = λ _. refl;
    },
  )
  rounds_ok zero placed (n ∷ ns) d h inv = absurd (omega arith)
  rounds_ok (suc fuel) placed (n ∷ ns) d h inv = elim (List-cases (ready (n ∷ ns) d)) [
    | inl e ↦ (_, rw (e, rounds), stuck-Outcome placed n ns d inv e)
    | inr (x, xs, e) ↦
        let next = place g (ready (n ∷ ns) d) (n ∷ ns) d in
        let (r, runs, o) =
          rounds_ok fuel (placed ++ ready (n ∷ ns) d) next.0 next.1 (shorter x xs e)
            (Inv-place placed (n ∷ ns) d inv) in
        (
          record r { waves = ready (n ∷ ns) d ∷ r.waves },
          step x xs e r runs,
          push-Outcome placed (n ∷ ns) d r inv o,
        )
  ]
    where
      shorter :
          (x : Text) (xs : List Text)
          → ready (n ∷ ns) d ≡ x ∷ xs
          → length (place g (ready (n ∷ ns) d) (n ∷ ns) d).0 ≤ fuel
      shorter x xs e =
          let here : has x (ready (n ∷ ns) d) ≡ true = rw e (has-cons_self x xs) in
          rw e (
            omega (
              arith,
              length-place-lt g x xs (n ∷ ns) d (ground (arith, here, has-ready (n ∷ ns) d x)),
            ))

      step :
          (x : Text) (xs : List Text) (e : ready (n ∷ ns) d ≡ x ∷ xs) (r : Waves)
          → rounds g fuel
              (place g (ready (n ∷ ns) d) (n ∷ ns) d).0
              (place g (ready (n ∷ ns) d) (n ∷ ns) d).1
            ≡ some r
          → rounds g (suc fuel) (n ∷ ns) d ≡ some (record r { waves = ready (n ∷ ns) d ∷ r.waves })
      step x xs e r runs = ground arith
