-- ===== src/SegmentPlans/Rounds/Shares.antt =====
-- About `buildSegmentFrontierWaves` of engine.ts: a round for each segment.
use taskplane.Base.{
  ℕ, zero, suc, ◌+◌, ◌≤◌, ◌≡◌, refl, sym, ap, ◌∙◌, if◌then◌else◌, true, inl, inr, List, [], ◌∷◌,
  length, Text, text_eq, text_eq_iff, has, count, has_of_count, count-filter, Dict, total,
  total-append, ltb, arith, Bool-cases,
}
use taskplane.SegmentPlans.Rounds.{
  SegmentFrontierTaskState, segment_count, max_segments, segment_round, push_round, wave_rounds,
  expand_waves,
}

abbrev pub repeated : ℕ → ℕ → ℕ
repeated zero c = 0
repeated (suc n) c = c + repeated n c

pub total-repeated : {A : Type 0} (c : ℕ) (xs : List A) → total (λ _. c) xs ≡ repeated (length xs) c
total-repeated c [] = refl
total-repeated c (x ∷ xs) = omega (arith, total-repeated c xs)

repeated-zero : (n : ℕ) → repeated n 0 ≡ 0
repeated-zero zero = refl
repeated-zero (suc n) = omega (arith, repeated-zero n)

-- How often a task stands in a round.
abbrev pub in_round : Text → List Text × ℕ → ℕ
in_round x r = count x r.0

total-push_round :
    (x : Text) (round : List Text) (i : ℕ) (rounds : List (List Text × ℕ))
    → total (in_round x) (push_round round i rounds) ≡ count x round + total (in_round x) rounds
unfolding count
total-push_round x [] i rounds = omega arith
total-push_round x (id ∷ ids) i rounds = refl

module _ (states : Dict SegmentFrontierTaskState) (x : Text) (wave : List Text) (i : ℕ) where
  round-count :
      (index : ℕ)
      → count x (segment_round states wave index)
        ≡ (if ltb index (segment_count states x) then count x wave else 0)
  round-count index = count-filter x (λ id. ltb index (segment_count states id)) wave

  rounds-absent :
      (left index : ℕ)
      → count x wave ≡ 0
      → total (in_round x) (wave_rounds states wave i left index) ≡ 0
  rounds-absent zero index h = refl
  rounds-absent (suc left) index h = ground (
    arith,
    total-push_round x (segment_round states wave index) i
        (wave_rounds states wave i left (index + 1)),
    round-count index,
    rounds-absent left (index + 1) h,
  )

  rounds-over :
      (left index : ℕ)
      → segment_count states x ≤ index
      → total (in_round x) (wave_rounds states wave i left index) ≡ 0
  rounds-over zero index h = refl
  rounds-over (suc left) index h = ground (
    arith,
    total-push_round x (segment_round states wave index) i
        (wave_rounds states wave i left (index + 1)),
    round-count index,
    rounds-over left (index + 1) (omega arith),
  )

  rounds-count :
      (k left index : ℕ)
      → segment_count states x ≡ index + k
      → k ≤ left
      → total (in_round x) (wave_rounds states wave i left index) ≡ repeated k (count x wave)
  rounds-count zero left index h low = rounds-over left index (omega arith)
  rounds-count (suc k) zero index h low = absurd (omega arith)
  rounds-count (suc k) (suc left) index h low = ground (
    arith,
    total-push_round x (segment_round states wave index) i
        (wave_rounds states wave i left (index + 1)),
    round-count index,
    rounds-count k left (index + 1) (omega arith) (omega arith),
  )

max_segments-le :
    (states : Dict SegmentFrontierTaskState) (x : Text) (wave : List Text)
    → has x wave ≡ true
    → segment_count states x ≤ max_segments states wave
unfolding has
max_segments-le states x [] h = absurd (cc)
max_segments-le states x (id ∷ wave) h = elim (Bool-cases (text_eq x id)) [
  | inl e ↦ omega (arith, ap (segment_count states) ((text_eq_iff x id).0 e))
  | inr e ↦ omega (arith, max_segments-le states x wave (ground arith))
]

-- A task stands in as many rounds of a wave as it has segments.
wave_rounds-count :
    (states : Dict SegmentFrontierTaskState) (x : Text) (wave : List Text) (i : ℕ)
    → total (in_round x) (wave_rounds states wave i (max_segments states wave) 0)
      ≡ repeated (segment_count states x) (count x wave)
wave_rounds-count states x wave i = elim (Bool-cases (has x wave)) [
  | inl e ↦
      rounds-count states x wave i (segment_count states x) (max_segments states wave) 0
        (omega arith) (max_segments-le states x wave e)
  | inr e ↦
      let never : count x wave ≡ 0 = ground (arith, has_of_count x wave) in
      rounds-absent states x wave i (max_segments states wave) 0 never
      ∙ rw never (sym (repeated-zero (segment_count states x)))
]

pub expand_waves-count :
    (states : Dict SegmentFrontierTaskState) (x : Text) (waves : List (List Text)) (i : ℕ)
    → total (in_round x) (expand_waves states waves i)
      ≡ total (λ wave. repeated (segment_count states x) (count x wave)) waves
expand_waves-count states x [] i = refl
expand_waves-count states x (wave ∷ waves) i = omega (
  arith,
  total-append (in_round x) (wave_rounds states wave i (max_segments states wave) 0)
      (expand_waves states waves (i + 1)),
  wave_rounds-count states x wave i,
  expand_waves-count states x waves (i + 1),
)
