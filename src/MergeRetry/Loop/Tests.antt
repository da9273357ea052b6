-- ===== src/MergeRetry/Loop/Tests.antt =====
-- A merge that fails twice on a lock file and then succeeds, and one whose rollback fails.
use taskplane.Base.{
  ℕ, zero, suc, ◌≤◌, ◌≡◌, refl, true, false, [], ◌∷◌, Option, none, some, text, text_eq, Dict, get,
  set,
}
use taskplane.Base.Chars.{show, to_lower, starts_with}
use taskplane.Batch.{merge_succeeded, merge_failed}
use taskplane.MergeRetry.{compute_merge_retry_decision, classify_merge_failure}
use taskplane.MergeRetry.Loop.{
  MergeWaveResult, MergeRetryLoopOutcome, LoopState, OutcomeKind, retry_succeeded, safe_stop,
  no_retry, start_state, scope_key_of, apply_merge_retry_loop,
}
use taskplane.MergeRetry.Loop.Outcome.{merge_retry_outcome}
use taskplane.MergeRetry.Loop.Runs.{Run}

abbrev locked : MergeWaveResult
locked = record {
  status = merge_failed;
  lane_results = [];
  failed_lane = some 2;
  failure_reason = some (text "Unable to create index.lock");
  repo_results = [];
  rollback_failed = false;
}

abbrev merge : ℕ → MergeWaveResult
merge zero = locked
merge (suc n) = record locked { status = merge_succeeded }

abbrev broken : ℕ → MergeWaveResult
broken n = record locked { rollback_failed = true }

-- Nothing says what failed.
abbrev unknown : MergeWaveResult
unknown = record locked { failure_reason = none }

run : Unit {0}
unfolding apply_merge_retry_loop classify_merge_failure compute_merge_retry_decision get set show
    text_eq to_lower starts_with
run = tt

key_run : scope_key_of locked 0 ≡ text "default:w0:l2"
unfolding run
key_run = refl

abbrev kind_of : Option (MergeRetryLoopOutcome × LoopState) → Option OutcomeKind
kind_of none = none
kind_of (some r) = some r.0.kind

abbrev counts_of : Option (MergeRetryLoopOutcome × LoopState) → Dict ℕ
counts_of none = []
counts_of (some r) = r.1.retry_count_by_scope

success_run : kind_of (apply_merge_retry_loop merge locked 0 []) ≡ some retry_succeeded
unfolding run
success_run = refl

counter_run : counts_of (apply_merge_retry_loop merge locked 0 []) ≡ (text "default:w0:l2", 2) ∷ []
unfolding run
counter_run = refl

stop_run : kind_of (apply_merge_retry_loop broken locked 0 []) ≡ some safe_stop
unfolding run
stop_run = refl

unknown_run : kind_of (apply_merge_retry_loop merge unknown 0 []) ≡ some no_retry
unfolding run
unknown_run = refl

merge_retry_outcome_example :
    (o : MergeRetryLoopOutcome) × (t : LoopState) × (apply_merge_retry_loop merge locked 0 []
      ≡ some (o, t))
    × (t.merges ≤ 2)
    × Run merge (scope_key_of locked 0) locked (start_state []) o t
merge_retry_outcome_example = merge_retry_outcome merge locked 0 []
