-- ===== src/SegmentPlans/Rounds/Complete.antt =====
-- About `buildSegmentFrontierWaves` of engine.ts as a whole.
use taskplane.Base.{
  ℕ, suc, ◌≡◌, refl, sym, ap, ◌∙◌, if◌then◌else◌, Bool, true, false, ◌⊎◌, inl, inr, List, [], ◌∷◌,
  map, flatten, length, Option, none, some, Text, text_eq, text_eq_iff, has, count, count-append,
  Distinct, Distinct-head, Distinct-tail, Dict, get, get-set, has_of_get, set, keys, total, arith,
  Bool-cases,
}
use taskplane.Types.{ParsedTask}
use taskplane.SegmentPlans.Build.{TaskSegmentNode, TaskSegmentPlan}
use taskplane.SegmentPlans.Linear.Ends.{linearize_task_segment_plan_returns}
use taskplane.SegmentPlans.Rounds.{
  SegmentFrontierTaskState, plan_of, task_state, task_states, segment_count, expand_waves,
  SegmentFrontierResult, frontier_result, build_segment_frontier_waves,
}
use taskplane.SegmentPlans.Rounds.Shares.{repeated, total-repeated, in_round, expand_waves-count}

-- The segments planned for a task; a task that is not pending has none.
abbrev pub planned_segments : Dict TaskSegmentPlan → Dict ParsedTask → Text → List TaskSegmentNode
planned_segments plans tasks x = elim (get x tasks) [
  | none ↦ []
  | some t ↦ (plan_of plans x t).segments
]

-- What the loop over the tasks makes of the states before it.
abbrev count_after :
    Dict TaskSegmentPlan → Dict ParsedTask → Dict SegmentFrontierTaskState → Text → ℕ
count_after plans tasks states x = elim (get x tasks) [
  | none ↦ segment_count states x
  | some t ↦ length (plan_of plans x t).segments
]

segment_count-set :
    (x id : Text) (s : SegmentFrontierTaskState) (states : Dict SegmentFrontierTaskState)
    → segment_count (set id s states) x
      ≡ (if text_eq id x then length s.ordered_segments else segment_count states x)
unfolding segment_count
segment_count-set x id s states = ground (arith, get-set x id s states)

module _ (locale_le : Text → Text → Bool) (plans : Dict TaskSegmentPlan) where
  count_after-cons :
      (id : Text) (task : ParsedTask) (tasks : Dict ParsedTask) (ordered : List TaskSegmentNode)
      (states : Dict SegmentFrontierTaskState) (x : Text)
      → Distinct (keys ((id, task) ∷ tasks))
      → length ordered ≡ length (plan_of plans id task).segments
      → count_after plans tasks
          (set id (task_state locale_le id (plan_of plans id task) ordered) states)
          x
        ≡ count_after plans ((id, task) ∷ tasks) states x
  unfolding get task_state
  count_after-cons id task tasks ordered states x distinct size =
      let s = task_state locale_le id (plan_of plans id task) ordered in
      let counted = segment_count-set x id s states in
      elim (Bool-cases (text_eq id x)) [
        | inl e ↦
            let same = (text_eq_iff id x).0 e in
            let gone : get x tasks ≡ none =
              absent tasks x (
                ap (λ k. has k (keys tasks)) (sym same) ∙ Distinct-head id (keys tasks) distinct) in
            let planned = size ∙ ap (λ k. length (plan_of plans k task).segments) same in
            ground (arith, gone, counted, planned)
        | inr e ↦ ground (arith, counted)
      ]
    where
      some_or_none : {A : Type 0} (o : Option A) → (o ≡ none) ⊎ ((a : A) × (o ≡ some a))
      some_or_none none = inl refl
      some_or_none (some a) = inr (a, refl)

      absent :
          (tasks : Dict ParsedTask) (x : Text) → has x (keys tasks) ≡ false → get x tasks ≡ none
      absent tasks x h = elim (some_or_none (get x tasks)) [
        | inl e ↦ e
        | inr (t, e) ↦ absurd (let b : true ≡ false = sym (has_of_get x tasks e) ∙ h in cc)
      ]

  task_states-count :
      (tasks : Dict ParsedTask) (states : Dict SegmentFrontierTaskState)
      → Distinct (keys tasks)
      → (final : Dict SegmentFrontierTaskState) × (task_states locale_le plans tasks states
          ≡ some final)
        × ((x : Text) → segment_count final x ≡ count_after plans tasks states x)
  unfolding task_states get
  task_states-count [] states distinct = (states, refl, λ x. refl)
  task_states-count ((id, task) ∷ tasks) states distinct =
      let plan = plan_of plans id task in
      let (ordered, runs, size) = linearize_task_segment_plan_returns locale_le plan in
      let next = set id (task_state locale_le id plan ordered) states in
      let (final, goes, counts) =
        task_states-count tasks next (Distinct-tail id (keys tasks) distinct) in
      (
        final,
        rw (runs, task_states) goes,
        λ x. counts x ∙ count_after-cons id task tasks ordered states x distinct size,
      )

count-rounds :
    (x : Text) (rounds : List (List Text × ℕ))
    → count x (flatten (map (λ (r : List Text × ℕ). r.0) rounds)) ≡ total (in_round x) rounds
unfolding count
count-rounds x [] = refl
count-rounds x (r ∷ rounds) = omega (
  arith,
  count-append x r.0 (flatten (map (λ (q : List Text × ℕ). q.0) rounds)),
  count-rounds x rounds,
)

length-map : {A B : Type 0} (f : A → B) (xs : List A) → length (map f xs) ≡ length xs
length-map f [] = refl
length-map f (x ∷ xs) = ap suc (length-map f xs)

total-same :
    (f g : List Text → ℕ) (waves : List (List Text))
    → ((wave : List Text) → f wave ≡ g wave)
    → total f waves ≡ total g waves
total-same f g [] h = refl
total-same f g (wave ∷ waves) h = omega (arith, h wave, total-same f g waves h)

count_after-empty :
    (plans : Dict TaskSegmentPlan) (tasks : Dict ParsedTask) (x : Text)
    → count_after plans tasks [] x ≡ length (planned_segments plans tasks x)
unfolding segment_count get
count_after-empty plans tasks x = ground arith

-- Where no task is pending twice, the rounds are always found. A task stands in as many rounds as its
-- plan has segments, for each time that it stands in a wave, and a task that is not pending in none;
-- and there are as many numbers of waves as rounds.
pub frontier_rounds :
    (locale_le : Text → Text → Bool) (waves : List (List Text)) (pending : Dict ParsedTask)
    (plans : Dict TaskSegmentPlan)
    → Distinct (keys pending)
    → (r : SegmentFrontierResult) × (build_segment_frontier_waves locale_le waves pending plans
        ≡ some r)
      × ((x : Text)
          → count x (flatten r.waves)
            ≡ total (λ wave. total (λ _. count x wave) (planned_segments plans pending x)) waves)
      × (length r.round_to_task_wave ≡ length r.waves)
unfolding build_segment_frontier_waves
frontier_rounds locale_le waves pending plans distinct =
    let (states, runs, counts) = task_states-count locale_le plans pending [] distinct in
    let rounds = expand_waves states waves 0 in
    (
      frontier_result waves states,
      rw (runs, build_segment_frontier_waves) refl,
      λ x.
          count-rounds x rounds
          ∙ expand_waves-count states x waves 0
          ∙ total-same _ _ waves (λ wave.
            ap (λ n. repeated n (count x wave)) (counts x ∙ count_after-empty plans pending x)
            ∙ sym (total-repeated (count x wave) (planned_segments plans pending x))),
      length-map (λ (r : List Text × ℕ). r.1) rounds
          ∙ sym (length-map (λ (r : List Text × ℕ). r.0) rounds),
    )
