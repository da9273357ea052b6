-- ===== src/MergeRetry.antt =====
-- extensions/taskplane/messages.ts: which failures of a merge are tried again, and how often. The
-- human-readable `reason` of a decision is left out.
mod Loop
mod Tests
use taskplane.Base.{
  ℕ, ◌+◌, leb, if◌then◌else◌, Bool, true, false, not, ◌||◌, List, [], ◌∷◌, any, Option, none, some,
  Text, text,
}
use taskplane.Base.Chars.{starts_with, to_lower}

pub data MergeFailureClassification : Type 0 where
  verification_new_failure : MergeFailureClassification
  merge_conflict_unresolved : MergeFailureClassification
  cleanup_post_merge_failed : MergeFailureClassification
  git_worktree_dirty : MergeFailureClassification
  git_lock_file : MergeFailureClassification

pub data ExhaustionAction : Type 0 where
  pause : ExhaustionAction
  pause_wave_gate : ExhaustionAction
  pause_escalation : ExhaustionAction

pub record MergeRetryPolicy : Type 0 where
  pub retriable : Bool
  pub max_attempts : ℕ
  pub cooldown_ms : ℕ
  pub exhaustion_action : ExhaustionAction

abbrev policy_of : Bool → ℕ → ℕ → ExhaustionAction → MergeRetryPolicy
policy_of retriable attempts cooldown action = record {
  retriable = retriable;
  max_attempts = attempts;
  cooldown_ms = cooldown;
  exhaustion_action = action;
}

unfoldable pub merge_retry_policy : MergeFailureClassification → MergeRetryPolicy
merge_retry_policy verification_new_failure = policy_of true 1 0 pause
merge_retry_policy merge_conflict_unresolved = policy_of false 0 0 pause_escalation
merge_retry_policy cleanup_post_merge_failed = policy_of true 1 2000 pause_wave_gate
merge_retry_policy git_worktree_dirty = policy_of true 1 2000 pause
merge_retry_policy git_lock_file = policy_of true 2 3000 pause

-- What `classifyMergeFailure` reads of a lane's result.
pub record LaneFailure : Type 0 where
  pub error : Option Text
  pub conflict_unresolved : Bool

abbrev includes : Text → Text → Bool
includes [] p = starts_with [] p
includes (c ∷ s) p = starts_with (c ∷ s) p || includes s p

abbrev is_verification_error : LaneFailure → Bool
is_verification_error l = elim l.error [
  | none ↦ false
  | some e ↦ starts_with e (text "verification_new_failure")
]

abbrev or_empty : Option Text → Text
or_empty none = []
or_empty (some t) = t

unfoldable pub classify_reason : Text → Option MergeFailureClassification
unfolding starts_with
classify_reason reason =
    if includes reason (text "lock") || includes reason (text ".lock")
    then some git_lock_file
    else (if includes reason (text "cleanup") || includes reason (text "stale worktree")
        then some cleanup_post_merge_failed
        else (if includes reason (text "dirty") || includes reason (text "worktree")
            then some git_worktree_dirty
            else none))

unfoldable pub classify_merge_failure :
    List LaneFailure → Option Text → Option MergeFailureClassification
unfolding starts_with classify_reason to_lower
classify_merge_failure lanes failure_reason =
    if any is_verification_error lanes
    then some verification_new_failure
    else (if any (λ l. l.conflict_unresolved) lanes
        then some merge_conflict_unresolved
        else classify_reason (to_lower (or_empty failure_reason)))

pub record MergeRetryDecision : Type 0 where
  pub should_retry : Bool
  pub cooldown_ms : ℕ
  pub current_attempt : ℕ
  pub max_attempts : ℕ
  pub classification : MergeFailureClassification
  pub exhaustion_action : ExhaustionAction

unfoldable pub compute_merge_retry_decision :
    Option MergeFailureClassification → ℕ → MergeRetryDecision
unfolding merge_retry_policy
compute_merge_retry_decision none count = record {
  should_retry = false;
  cooldown_ms = 0;
  current_attempt = count;
  max_attempts = 0;
  classification = merge_conflict_unresolved;
  exhaustion_action = pause;
}
compute_merge_retry_decision (some c) count =
    let policy = merge_retry_policy c in
    let again = policy.retriable in
    let refused = not again || leb policy.max_attempts count in
    record {
      should_retry = not refused;
      cooldown_ms = if refused then 0 else policy.cooldown_ms;
      current_attempt = if refused then count else count + 1;
      max_attempts = if again then policy.max_attempts else 0;
      classification = c;
      exhaustion_action = policy.exhaustion_action;
    }
