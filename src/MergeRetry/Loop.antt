-- ===== src/MergeRetry/Loop.antt =====
-- `applyMergeRetryLoop` of messages.ts, with `extractFailedRepoId` and `buildMergeRetryScopeKey`. The
-- texts for the log and the user are left out.
mod Runs
mod Outcome
mod Tests
use taskplane.Base.{
  ℕ, zero, suc, ◌+◌, ◌==◌, ltb, if◌then◌else◌, Bool, true, false, not, ◌&&◌, ◌||◌, List, [], ◌∷◌,
  ◌++◌, map, Option, none, some, Text, text, Dict, get, set, get_or,
}
use taskplane.Base.Chars.{show}
use taskplane.Batch.{MergeStatus, merge_succeeded, merge_failed, merge_partial}
use taskplane.MergeRetry.{
  MergeFailureClassification, MergeRetryDecision, LaneFailure, classify_merge_failure,
  compute_merge_retry_decision,
}

pub data MergeResultStatus : Type 0 where
  success conflict_resolved conflict_unresolved build_failure : MergeResultStatus

-- A lane without a result has no status.
pub record MergeLaneResult : Type 0 where
  pub lane_number : ℕ
  pub status : Option MergeResultStatus
  pub error : Option Text
  pub repo_id : Option Text

pub record RepoMergeOutcome : Type 0 where
  pub repo_id : Option Text
  pub status : MergeStatus

-- An absent list of repositories is empty, and an absent `rollbackFailed` is false.
pub record MergeWaveResult : Type 0 where
  pub status : MergeStatus
  pub lane_results : List MergeLaneResult
  pub failed_lane : Option ℕ
  pub failure_reason : Option Text
  pub repo_results : List RepoMergeOutcome
  pub rollback_failed : Bool

abbrev is_unresolved : Option MergeResultStatus → Bool
is_unresolved (some conflict_unresolved) = true
is_unresolved _ = false

abbrev is_build_failure : Option MergeResultStatus → Bool
is_build_failure (some build_failure) = true
is_build_failure _ = false

-- An empty text counts as absent.
abbrev or_absent : Option Text → Option Text
or_absent (some (c ∷ t)) = some (c ∷ t)
or_absent _ = none

abbrev is_present : Option Text → Bool
is_present t = elim (or_absent t) [ none ↦ false | some _ ↦ true ]

abbrev lane_failure : MergeLaneResult → LaneFailure
lane_failure l = record { error = l.error; conflict_unresolved = is_unresolved l.status }

unfoldable pub classify : MergeWaveResult → Option MergeFailureClassification
unfolding classify_merge_failure
classify r = classify_merge_failure (map lane_failure r.lane_results) r.failure_reason

abbrev is_failed_lane : ℕ → MergeLaneResult → Bool
is_failed_lane n l =
    l.lane_number == n
    && (is_present l.error || is_unresolved l.status || is_build_failure l.status)

-- `laneResults.find(...)?.repoId`.
abbrev failed_lane_repo : ℕ → List MergeLaneResult → Option Text
failed_lane_repo n [] = none
failed_lane_repo n (l ∷ lanes) =
    let rest = failed_lane_repo n lanes in if is_failed_lane n l then or_absent l.repo_id else rest

abbrev is_failed_status : MergeStatus → Bool
is_failed_status merge_succeeded = false
is_failed_status merge_failed = true
is_failed_status merge_partial = true

-- `repoResults.find(...)?.repoId`.
abbrev failed_repo : List RepoMergeOutcome → Option Text
failed_repo [] = none
failed_repo (rr ∷ repos) =
    let rest = failed_repo repos in
    if is_failed_status rr.status then or_absent rr.repo_id else rest

abbrev lane_level_repo : MergeWaveResult → Option Text
lane_level_repo r = elim r.failed_lane [ none ↦ none | some n ↦ failed_lane_repo n r.lane_results ]

unfoldable pub extract_failed_repo_id : MergeWaveResult → Option Text
extract_failed_repo_id r = elim (lane_level_repo r) [
  | none ↦ failed_repo r.repo_results
  | some repo ↦ some repo
]

abbrev repo_or_default : Option Text → Text
repo_or_default none = text "default"
repo_or_default (some repo) = repo

unfoldable pub build_merge_retry_scope_key : Option Text → ℕ → ℕ → Text
unfolding show
build_merge_retry_scope_key repo wave lane =
    repo_or_default repo ++ text ":w" ++ show wave ++ text ":l" ++ show lane

-- The callbacks that the loop calls, with their arguments; `perform_merge` is the merge itself.
pub data Effect : Type 0 where
  persist : Text → Effect
  on_retry_attempt : MergeRetryDecision → Effect
  sleep : ℕ → Effect
  perform_merge : Effect
  update_merge_result : MergeWaveResult → Effect

pub data OutcomeKind : Type 0 where
  retry_succeeded safe_stop exhausted no_retry : OutcomeKind

pub record MergeRetryLoopOutcome : Type 0 where
  pub kind : OutcomeKind
  pub merge_result : MergeWaveResult
  pub classification : Option MergeFailureClassification
  pub scope_key : Text
  pub last_decision : Option MergeRetryDecision

-- The persisted counters, the merges invoked so far, and the callbacks called.
pub record LoopState : Type 0 where
  pub retry_count_by_scope : Dict ℕ
  pub merges : ℕ
  pub effects : List Effect

abbrev pub is_merge_succeeded : MergeStatus → Bool
is_merge_succeeded merge_succeeded = true
is_merge_succeeded merge_failed = false
is_merge_succeeded merge_partial = false

abbrev cooldown : MergeRetryDecision → List Effect
cooldown d = if ltb 0 d.cooldown_ms then sleep d.cooldown_ms ∷ [] else []

-- The body of the `while` loop up to the check of the outcome.
unfoldable pub retry_once : Text → MergeRetryDecision → MergeWaveResult → LoopState → LoopState
unfolding set
retry_once key d result s = record {
  retry_count_by_scope = set key d.current_attempt s.retry_count_by_scope;
  merges = s.merges + 1;
  effects =
      s.effects
      ++ persist (text "merge-retry-increment") ∷ on_retry_attempt d ∷ cooldown d
      ++ persist (text "merge-retry-start")
        ∷ perform_merge
        ∷ update_merge_result result
        ∷ persist (text "merge-retry-complete")
        ∷ [];
}

abbrev pub outcome_of :
    OutcomeKind
    → MergeWaveResult
    → Option MergeFailureClassification
    → Text
    → Option MergeRetryDecision
    → MergeRetryLoopOutcome
outcome_of kind result classification key decision = record {
  kind = kind;
  merge_result = result;
  classification = classification;
  scope_key = key;
  last_decision = decision;
}

abbrev pub next_decision : Text → MergeWaveResult → LoopState → MergeRetryDecision
next_decision key result s =
    compute_merge_retry_decision (classify result) (get_or s.retry_count_by_scope key 0)

-- The `while` loop. A merge's result is the argument `merge` at the number of merges before it.
unfoldable pub retry_loop :
    (ℕ → MergeWaveResult)
    → Text
    → ℕ
    → Option MergeFailureClassification
    → MergeRetryDecision
    → MergeWaveResult
    → LoopState
    → Option (MergeRetryLoopOutcome × LoopState)
unfolding retry_once get classify compute_merge_retry_decision
retry_loop merge key zero classification d current s = none
retry_loop merge key (suc fuel) classification d current s =
    let result = merge s.merges in
    let next = retry_once key d result s in
    let rest =
      retry_loop merge key fuel (classify result) (next_decision key result next) result next in
    if not d.should_retry
    then some (outcome_of exhausted current classification key (some d), s)
    else (if is_merge_succeeded result.status
        then some (outcome_of retry_succeeded result classification key (some d), next)
        else (if result.rollback_failed
            then some (outcome_of safe_stop result classification key (some d), next)
            else rest))

-- At most two retries are granted, and the third round finds that.
abbrev pub retry_rounds : ℕ
retry_rounds = 3

abbrev pub is_known : Option MergeFailureClassification → Bool
is_known none = false
is_known (some _) = true

abbrev pub scope_key_of : MergeWaveResult → ℕ → Text
scope_key_of r wave =
    build_merge_retry_scope_key (extract_failed_repo_id r) wave
      (elim r.failed_lane [ none ↦ 0 | some n ↦ n ])

abbrev pub start_state : Dict ℕ → LoopState
start_state counts = record { retry_count_by_scope = counts; merges = 0; effects = [] }

unfoldable pub apply_merge_retry_loop :
    (ℕ → MergeWaveResult)
    → MergeWaveResult
    → ℕ
    → Dict ℕ
    → Option (MergeRetryLoopOutcome × LoopState)
unfolding retry_loop extract_failed_repo_id build_merge_retry_scope_key
apply_merge_retry_loop merge first wave counts =
    let s = start_state counts in
    let key = scope_key_of first wave in
    let d = next_decision key first s in
    if not d.should_retry
    then (if is_known (classify first) && ltb 0 d.current_attempt
        then some (outcome_of exhausted first (classify first) key (some d), s)
        else some (outcome_of no_retry first (classify first) key none, s))
    else retry_loop merge key retry_rounds (classify first) d first s
