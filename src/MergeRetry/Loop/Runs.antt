-- ===== src/MergeRetry/Loop/Runs.antt =====
-- About the rounds of `applyMergeRetryLoop` of messages.ts: what each keeps.
use taskplane.Base.{
  ℕ, ◌==◌, ◌+◌, ◌≤◌, ◌<◌, ◌≡◌, refl, sym, ◌∙◌, subst, Bool, true, false, ◌⊎◌, inl, inr, Option,
  none, some, Text, text_eq, text_eq_refl, get, get_or, get-set, get_or-set, arith, Bool-cases,
}
use taskplane.MergeRetry.{
  MergeFailureClassification, verification_new_failure, merge_conflict_unresolved,
  cleanup_post_merge_failed, git_worktree_dirty, git_lock_file, compute_merge_retry_decision,
}
use taskplane.MergeRetry.Loop.{
  MergeWaveResult, OutcomeKind, retry_succeeded, safe_stop, exhausted, no_retry,
  MergeRetryLoopOutcome, LoopState, is_merge_succeeded, classify, next_decision, retry_once,
}

-- The merge failed and its rollback, if any, did not.
abbrev pub Failing : MergeWaveResult → Type 0
Failing r = (is_merge_succeeded r.status ≡ false) × (r.rollback_failed ≡ false)

-- What a kind says of the last merge that the loop has invoked.
abbrev pub Says : OutcomeKind → MergeWaveResult → Type 0
Says retry_succeeded r = is_merge_succeeded r.status ≡ true
Says safe_stop r = (is_merge_succeeded r.status ≡ false) × (r.rollback_failed ≡ true)
Says exhausted r = Failing r
Says no_retry r = false ≡ true

abbrev pub is_refusal : OutcomeKind → Bool
is_refusal retry_succeeded = false
is_refusal safe_stop = false
is_refusal exhausted = true
is_refusal no_retry = true

abbrev pub count_in : Text → LoopState → ℕ
count_in key s = get_or s.retry_count_by_scope key 0

-- How the loop gets from a state `s`, with the failed result `current`, to its outcome `o` in `t`.
pub record Run (merge : ℕ → MergeWaveResult) (key : Text) (current : MergeWaveResult)
    (s : LoopState) (o : MergeRetryLoopOutcome) (t : LoopState) : Type 0 where
  -- The counter of the scope goes up by one for each merge, up to 2, and no other counter changes.
  pub more : s.merges ≤ t.merges
  pub counter : count_in key t + s.merges ≡ count_in key s + t.merges
  pub bounded : (t.merges ≡ s.merges) ⊎ (count_in key t ≤ 2)
  pub others :
      (j : Text)
      → text_eq key j ≡ false
      → get j t.retry_count_by_scope ≡ get j s.retry_count_by_scope
  -- A merge is invoked again only after a failure with a clean rollback.
  pub earlier : (i : ℕ) → s.merges ≤ i → i + 1 < t.merges → Failing (merge i)
  -- The result is that of the last merge, and the kind is true of it.
  pub stays :
      t.merges ≡ s.merges
      → (o.merge_result ≡ current) × ((o.kind ≡ exhausted) ⊎ ((o.kind ≡ no_retry) × (t.merges ≡ 0)))
  pub ended :
      (k : ℕ) → s.merges ≤ k → k + 1 ≡ t.merges → (o.merge_result ≡ merge k) × Says o.kind (merge k)
  -- The loop gives up only when the policy grants no retry.
  pub refused : is_refusal o.kind ≡ true → (next_decision key o.merge_result t).should_retry ≡ false

same_or_later : (m i : ℕ) → m ≤ i → (m ≡ i) ⊎ (m + 1 ≤ i)
same_or_later m i h = elim (Bool-cases (m == i)) [
  | inl e ↦ inl (ground arith)
  | inr e ↦ inr (ground arith)
]

granted-attempt :
    (c : Option MergeFailureClassification) (n : ℕ)
    → (compute_merge_retry_decision c n).should_retry ≡ true
    → ((compute_merge_retry_decision c n).current_attempt ≡ n + 1) × (n ≤ 1)
unfolding compute_merge_retry_decision
granted-attempt none n h = absurd (cc)
granted-attempt (some verification_new_failure) n h = ground arith
granted-attempt (some merge_conflict_unresolved) n h = absurd (cc)
granted-attempt (some cleanup_post_merge_failed) n h = ground arith
granted-attempt (some git_worktree_dirty) n h = ground arith
granted-attempt (some git_lock_file) n h = ground arith

-- The loop ends where it stands.
pub Run-here :
    (merge : ℕ → MergeWaveResult) (key : Text) (current : MergeWaveResult) (s : LoopState)
    (o : MergeRetryLoopOutcome)
    → o.merge_result ≡ current
    → (o.kind ≡ exhausted) ⊎ ((o.kind ≡ no_retry) × (s.merges ≡ 0))
    → (next_decision key current s).should_retry ≡ false
    → Run merge key current s o s
Run-here merge key current s o same kind h = record {
  more = omega arith;
  counter = refl;
  bounded = inl refl;
  others = λ j apart. refl;
  earlier = λ i low high. absurd (omega (arith, low, high));
  stays = λ e. (same, kind);
  ended = λ k low e. absurd (omega (arith, low, e));
  refused = λ r. rw same h;
}

module _ (merge : ℕ → MergeWaveResult) (key : Text) (current : MergeWaveResult) (s : LoopState)
    (granted : (next_decision key current s).should_retry ≡ true) where
  abbrev pub after : LoopState
  after = retry_once key (next_decision key current s) (merge s.merges) s

  merges-after : after.merges ≡ s.merges + 1
  unfolding retry_once
  merges-after = refl

  pub count-after : (count_in key after ≡ count_in key s + 1) × (count_in key s ≤ 1)
  unfolding retry_once
  count-after =
      let d = next_decision key current s in
      let (attempt, below) = granted-attempt (classify current) (count_in key s) granted in
      (
        ground (
          arith,
          get_or-set key key d.current_attempt 0 s.retry_count_by_scope,
          text_eq_refl key,
          attempt,
        ),
        below,
      )

  others-after :
      (j : Text)
      → text_eq key j ≡ false
      → get j after.retry_count_by_scope ≡ get j s.retry_count_by_scope
  unfolding retry_once
  others-after j apart =
      ground
        (arith, get-set j key (next_decision key current s).current_attempt s.retry_count_by_scope)

  -- The loop ends with the merge of this round.
  pub Run-last :
      (o : MergeRetryLoopOutcome)
      → o.merge_result ≡ merge s.merges
      → Says o.kind (merge s.merges)
      → is_refusal o.kind ≡ false
      → Run merge key current s o after
  Run-last o same says final =
      let (counted, below) = count-after in
      record {
        more = omega (arith, merges-after);
        counter = omega (arith, merges-after, counted);
        bounded = inr (omega (arith, counted, below));
        others = others-after;
        earlier = λ i low high. absurd (omega (arith, low, high, merges-after));
        stays = λ e. absurd (omega (arith, e, merges-after));
        ended = λ k low e.
            let at : s.merges ≡ k = omega (arith, low, e, merges-after) in
            subst (λ i. (o.merge_result ≡ merge i) × Says o.kind (merge i)) at (same, says);
        refused = λ r. absurd (let e : true ≡ false = sym r ∙ final in cc);
      }

  -- The merge of this round failed, and the loop goes on from its result.
  pub Run-next :
      (o : MergeRetryLoopOutcome) (t : LoopState)
      → Failing (merge s.merges)
      → Run merge key (merge s.merges) after o t
      → Run merge key current s o t
  Run-next o t failing r =
      let (counted, below) = count-after in
      record {
        more = omega (arith, merges-after, r.more);
        counter = omega (arith, merges-after, counted, r.counter);
        bounded = elim r.bounded [
          | inl e ↦ inr (omega (arith, e, merges-after, counted, below, r.counter))
          | inr l ↦ inr l
        ];
        others = λ j apart. r.others j apart ∙ others-after j apart;
        earlier = λ i low high. elim (same_or_later s.merges i low) [
          | inl e ↦ subst (λ k. Failing (merge k)) e failing
          | inr l ↦ r.earlier i (omega (arith, l, merges-after)) high
        ];
        stays = λ e. absurd (omega (arith, e, merges-after, r.more));
        ended = λ k low e. elim (same_or_later s.merges k low) [
          | inl at ↦
              let (same, kind) = r.stays (omega (arith, at, e, merges-after)) in
              subst (λ i. (o.merge_result ≡ merge i) × Says o.kind (merge i)) at
                (
                  same,
                  elim kind [
                    | inl given_up ↦ rw given_up failing
                    | inr (_, none_yet) ↦ absurd (omega (arith, none_yet, at, e, merges-after))
                  ],
                )
          | inr l ↦ r.ended k (omega (arith, l, merges-after)) e
        ];
        refused = r.refused;
      }

pub record Ended (merge : ℕ → MergeWaveResult) (key : Text) (current : MergeWaveResult)
    (s : LoopState) (result : Option (MergeRetryLoopOutcome × LoopState)) : Type 0 where
  pub outcome : MergeRetryLoopOutcome
  pub state : LoopState
  pub returns : result ≡ some (outcome, state)
  pub run : Run merge key current s outcome state
