-- ===== src/MergeRetry/Loop/Outcome.antt =====
-- About the outcome of `applyMergeRetryLoop` of messages.ts.
use taskplane.Base.{
  ℕ, ltb, not, ◌&&◌, if◌then◌else◌, zero, suc, ◌+◌, ◌≤◌, ◌≡◌, refl, ap, ◌∙◌, Bool, true, false, inl,
  inr, Option, none, some, Text, Dict, arith, Bool-cases,
}
use taskplane.MergeRetry.{MergeFailureClassification}
use taskplane.MergeRetry.Loop.{
  MergeWaveResult, retry_succeeded, safe_stop, exhausted, no_retry, MergeRetryLoopOutcome,
  outcome_of, LoopState, is_merge_succeeded, is_known, classify, next_decision, retry_once,
  retry_loop, retry_rounds, scope_key_of, start_state, apply_merge_retry_loop,
}
use taskplane.MergeRetry.Loop.Runs.{count_in, Run, Run-here, count-after, Run-last, Run-next, Ended}

module _ {ℓ} {A : Type ℓ} where
  if_yes : (b : Bool) (x y : A) → b ≡ true → (if b then x else y) ≡ x
  if_yes true x y h = refl
  if_yes false x y h = absurd (cc)

  if_no : (b : Bool) (x y : A) → b ≡ false → (if b then x else y) ≡ y
  if_no true x y h = absurd (cc)
  if_no false x y h = refl

-- Two rounds are granted at most, so the fuel is never spent.
retry_loop-Ended :
    (merge : ℕ → MergeWaveResult) (key : Text) (fuel : ℕ) (c : Option MergeFailureClassification)
    (current : MergeWaveResult) (s : LoopState)
    → 1 ≤ fuel
    → 3 ≤ count_in key s + fuel
    → Ended merge key current s
        (retry_loop merge key fuel c (next_decision key current s) current s)
unfolding retry_loop
retry_loop-Ended merge key zero c current s low h = absurd (omega arith)
retry_loop-Ended merge key (suc fuel) c current s low h =
    let d = next_decision key current s in
    let result = merge s.merges in
    let next = retry_once key d result s in
    let given_up = outcome_of exhausted current c key (some d) in
    let done = outcome_of retry_succeeded result c key (some d) in
    let stopped = outcome_of safe_stop result c key (some d) in
    elim (Bool-cases d.should_retry) [
      | inr refused ↦ record {
        outcome = given_up;
        state = s;
        returns = if_yes (not d.should_retry) _ _ (ap not refused);
        run = Run-here merge key current s given_up refl (inl refl) refused;
      }
      | inl granted ↦ elim (Bool-cases (is_merge_succeeded result.status)) [
        | inl good ↦ record {
          outcome = done;
          state = next;
          returns =
              if_no (not d.should_retry) _ _ (ap not granted)
              ∙ if_yes (is_merge_succeeded result.status) _ _ good;
          run = Run-last merge key current s granted done refl good refl;
        }
        | inr failed ↦ elim (Bool-cases result.rollback_failed) [
          | inl stop ↦ record {
            outcome = stopped;
            state = next;
            returns =
                if_no (not d.should_retry) _ _ (ap not granted)
                ∙ if_no (is_merge_succeeded result.status) _ _ failed
                ∙ if_yes result.rollback_failed _ _ stop;
            run = Run-last merge key current s granted stopped refl (failed, stop) refl;
          }
          | inr clean ↦
              let (counted, below) = count-after merge key current s granted in
              let rest =
                retry_loop-Ended merge key fuel (classify result) result next (omega (arith, below))
                  (omega (arith, counted)) in
              record {
                outcome = rest.outcome;
                state = rest.state;
                returns =
                    if_no (not d.should_retry) _ _ (ap not granted)
                    ∙ if_no (is_merge_succeeded result.status) _ _ failed
                    ∙ if_no result.rollback_failed _ _ clean
                    ∙ rest.returns;
                run =
                    Run-next merge key current s granted rest.outcome rest.state (failed, clean)
                      rest.run;
              }
        ]
      ]
    ]

-- Whatever the merges return, the retry loop ends, after at most two of them. The scope's counter
-- goes up by one for each merge invoked, and other counters stay. A merge is invoked again only
-- after one that failed without a failed rollback. The result returned is that of the last merge,
-- or the first failure where none was invoked; `retry_succeeded` and `safe_stop` are returned only
-- where that merge has succeeded, or has not and its rollback has failed, and `exhausted` and
-- `no_retry` only where the policy grants the result no retry.
pub merge_retry_outcome :
    (merge : ℕ → MergeWaveResult) (first : MergeWaveResult) (wave : ℕ) (counts : Dict ℕ)
    → (o : MergeRetryLoopOutcome) × (t : LoopState) × (apply_merge_retry_loop merge first wave
          counts
        ≡ some (o, t))
      × (t.merges ≤ 2)
      × Run merge (scope_key_of first wave) first (start_state counts) o t
unfolding apply_merge_retry_loop
merge_retry_outcome merge first wave counts =
    let s = start_state counts in
    let key = scope_key_of first wave in
    let d = next_decision key first s in
    elim (Bool-cases d.should_retry) [
      | inr refused ↦
          let first_kind = is_known (classify first) && ltb 0 d.current_attempt in
          let given_up = outcome_of exhausted first (classify first) key (some d) in
          let never = outcome_of no_retry first (classify first) key none in
          elim (Bool-cases first_kind) [
            | inl e ↦ (
              given_up,
              s,
              if_yes (not d.should_retry) _ _ (ap not refused) ∙ if_yes first_kind _ _ e,
              omega arith,
              Run-here merge key first s given_up refl (inl refl) refused,
            )
            | inr e ↦ (
              never,
              s,
              if_yes (not d.should_retry) _ _ (ap not refused) ∙ if_no first_kind _ _ e,
              omega arith,
              Run-here merge key first s never refl (inr (refl, refl)) refused,
            )
          ]
      | inl granted ↦
          let r =
            retry_loop-Ended merge key retry_rounds (classify first) first s (omega arith)
              (omega arith) in
          (
            r.outcome,
            r.state,
            if_no (not d.should_retry) _ _ (ap not granted) ∙ r.returns,
            ground (arith, r.run.counter, r.run.bounded),
            r.run,
          )
    ]
