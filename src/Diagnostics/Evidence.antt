-- ===== src/Diagnostics/Evidence.antt =====
-- What each classification tells about the session.
use taskplane.Base.{◌≡◌, refl, ◌⊎◌, true, false, none, some, arith}
use taskplane.Diagnostics.{
  ExitClassification, completed, api_error, model_access_error, context_overflow,
  wall_clock_timeout, process_crash, session_vanished, stall_timeout, user_killed, spawn_failure,
  review_gate_refusal, unknown, RetryRecord, ExitClassificationInput, is_model_access_error,
  failed_retry, access_denied, overflowed, is_set, crashed, vanished, classify_exit,
}

-- No signal of a higher rank explains the end.
pub record Unexplained (i : ExitClassificationInput) : Type 0 where
  pub not_done : i.done_file_found ≡ false
  pub no_failed_retry : failed_retry i.exit_summary ≡ none
  pub no_denial : access_denied i.exit_summary ≡ false
  pub no_overflow : overflowed i.exit_summary i.context_pct ≡ false
  pub not_context_killed : is_set i.context_killed ≡ false

abbrev pub Evidence : ExitClassificationInput → ExitClassification → Type 0
Evidence i completed = i.done_file_found ≡ true
Evidence i api_error =
    (i.done_file_found ≡ false)
    × ((r : RetryRecord) × (failed_retry i.exit_summary ≡ some r)
        × (is_model_access_error r.error ≡ false))
Evidence i model_access_error =
    (i.done_file_found ≡ false)
    × (((r : RetryRecord) × (failed_retry i.exit_summary ≡ some r)
          × (is_model_access_error r.error ≡ true))
        ⊎ ((failed_retry i.exit_summary ≡ none) × (access_denied i.exit_summary ≡ true)))
Evidence i context_overflow =
    (i.done_file_found ≡ false)
    × (failed_retry i.exit_summary ≡ none)
    × (access_denied i.exit_summary ≡ false)
    × ((overflowed i.exit_summary i.context_pct ≡ true) ⊎ (is_set i.context_killed ≡ true))
Evidence i wall_clock_timeout = Unexplained i × (i.timer_killed ≡ true)
Evidence i process_crash =
    Unexplained i × (i.timer_killed ≡ false) × (crashed i.exit_summary ≡ true)
Evidence i session_vanished = Unexplained i × (i.timer_killed ≡ false) × (i.exit_summary ≡ none)
Evidence i stall_timeout =
    Unexplained i
    × (i.timer_killed ≡ false)
    × (crashed i.exit_summary ≡ false)
    × (vanished i.exit_summary ≡ false)
    × (i.stall_detected ≡ true)
Evidence i user_killed =
    Unexplained i
    × (i.timer_killed ≡ false)
    × (crashed i.exit_summary ≡ false)
    × (vanished i.exit_summary ≡ false)
    × (i.stall_detected ≡ false)
    × (i.user_killed ≡ true)
Evidence i unknown =
    Unexplained i
    × (i.timer_killed ≡ false)
    × (crashed i.exit_summary ≡ false)
    × (vanished i.exit_summary ≡ false)
    × (i.stall_detected ≡ false)
    × (i.user_killed ≡ false)
Evidence i spawn_failure = ⊥
Evidence i review_gate_refusal = ⊥

Evidence-of :
    (i : ExitClassificationInput) (c : ExitClassification) → classify_exit i ≡ c → Evidence i c
unfolding classify_exit
Evidence-of i completed e = ground arith
Evidence-of i api_error e = ground arith
Evidence-of i _ e = ground arith

-- The classification of an exit is justified by the session's signals, and no signal of a higher
-- rank is set: `completed` wins over all, then a failed last retry, a denied model, an overflow, the
-- timer, the exit code, a missing summary, a stall and a kill by the user. A spawn failure and a
-- refusal by a review gate are never the answer.
pub classify_exit-Evidence : (i : ExitClassificationInput) → Evidence i (classify_exit i)
classify_exit-Evidence i = Evidence-of i (classify_exit i) refl
