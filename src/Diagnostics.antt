-- ===== src/Diagnostics.antt =====
-- extensions/taskplane/diagnostics.ts: why a session ended.
pub mod Evidence
mod Tests
use taskplane.Base.{
  ℕ, leb, ltb, ◌==◌, if◌then◌else◌, Bool, true, false, not, ◌&&◌, ◌||◌, List, [], ◌∷◌, any, map,
  get_last?, is_empty, Option, none, some, Text, text,
}
use taskplane.Base.Chars.{to_lower, is_upper, is_lower, is_digit}
use taskplane.Base.Int.{ℤ, pos, negsuc, is_zero}

pub data ExitClassification : Type 0 where
  completed api_error model_access_error context_overflow wall_clock_timeout : ExitClassification
  process_crash session_vanished stall_timeout user_killed spawn_failure : ExitClassification
  review_gate_refusal unknown : ExitClassification

pub record RetryRecord : Type 0 where
  pub attempt : ℕ
  pub error : Text
  pub delay_ms : ℕ
  pub succeeded : Bool

-- The fields of `ExitSummary` that `classifyExit` reads. An absent `exitCode` and a null one are
-- `none`.
pub record ExitSummary : Type 0 where
  pub exit_code : Option ℤ
  pub retries : List RetryRecord
  pub compactions : ℕ
  pub error : Option Text

pub record ExitClassificationInput : Type 0 where
  pub exit_summary : Option ExitSummary
  pub done_file_found : Bool
  pub timer_killed : Bool
  pub context_killed : Option Bool
  pub stall_detected : Bool
  pub user_killed : Bool
  pub context_pct : Option ℕ

abbrev is_word : ℕ → Bool
is_word c = is_upper c || is_lower c || is_digit c || c == b'_'

-- A text begins with a pattern, in which `_` stands for `[_ ]`.
matches_here : Text → Text → Bool
matches_here [] s = true
matches_here (p ∷ ps) [] = false
matches_here (p ∷ ps) (c ∷ s) =
    (if p == b'_' then c == b'_' || c == 32 else p == c) && matches_here ps s

matches_somewhere : Text → Text → Bool
unfolding matches_here
matches_somewhere p [] = matches_here p []
matches_somewhere p (c ∷ s) = matches_here p (c ∷ s) || matches_somewhere p s

abbrev ends_word : Text → Bool
ends_word [] = true
ends_word (c ∷ s) = not (is_word c)

-- A three-letter code at the head of a text, behind a place that ends no word, and before another.
code_here : Text → Bool → Text → Bool
code_here (a ∷ b ∷ c ∷ []) boundary (x ∷ y ∷ z ∷ s) =
    boundary && (x == a) && (y == b) && (z == c) && ends_word s
code_here _ _ _ = false

-- `\bCODE\b`; the flag says that a word may begin here.
code_somewhere : Text → Bool → Text → Bool
unfolding code_here
code_somewhere code boundary [] = false
code_somewhere code boundary (c ∷ s) =
    code_here code boundary (c ∷ s) || code_somewhere code (not (is_word c)) s

abbrev access_codes : List Text
access_codes = text "401" ∷ text "403" ∷ text "429" ∷ []

-- `MODEL_ACCESS_ERROR_PATTERNS` without the codes, their groups written out, in lower case.
abbrev access_phrases : List Text
access_phrases =
    text "model_not_found"
    ∷ text "model_unavailable"
    ∷ text "model_is_unavailable"
    ∷ text "model_deprecated"
    ∷ text "model_has_been_deprecated"
    ∷ text "api_key_expired"
    ∷ text "api_key_invalid"
    ∷ text "api_key_revoked"
    ∷ text "invalid_api_key"
    ∷ text "authentication_failed"
    ∷ text "authentication_error"
    ∷ text "authentication_required"
    ∷ text "authorization_failed"
    ∷ text "authorization_error"
    ∷ text "authorization_denied"
    ∷ text "access_denied"
    ∷ text "permission_denied"
    ∷ text "quota_exceeded"
    ∷ text "rate_limit"
    ∷ text "insufficient_quota"
    ∷ []

unfoldable pub is_model_access_error : Text → Bool
unfolding code_somewhere matches_somewhere to_lower
is_model_access_error message =
    not (is_empty message)
    && (any (λ code. code_somewhere code true message) access_codes
        || any (λ p. matches_somewhere p (to_lower message)) access_phrases)

abbrev pub context_overflow_threshold_pct : ℕ
context_overflow_threshold_pct = 90

-- Steps 2a and 2b: the last retry failed.
abbrev pub failed_retry : Option ExitSummary → Option RetryRecord
failed_retry none = none
failed_retry (some s) = elim (get_last? s.retries) [
  | none ↦ none
  | some r ↦ if r.succeeded then none else some r
]

-- Step 2c. An empty error message is none.
abbrev pub access_denied : Option ExitSummary → Bool
access_denied none = false
access_denied (some s) = elim s.error [ none ↦ false | some e ↦ is_model_access_error e ]

abbrev pub pct_or_zero : Option ℕ → ℕ
pct_or_zero none = 0
pct_or_zero (some n) = n

-- Step 3.
abbrev pub overflowed : Option ExitSummary → Option ℕ → Bool
overflowed none pct = false
overflowed (some s) pct =
    ltb 0 s.compactions && leb context_overflow_threshold_pct (pct_or_zero pct)

abbrev pub is_set : Option Bool → Bool
is_set none = false
is_set (some b) = b

-- Step 5.
abbrev pub crashed : Option ExitSummary → Bool
crashed none = false
crashed (some s) = elim s.exit_code [ none ↦ false | some z ↦ not (is_zero z) ]

abbrev pub vanished : Option ExitSummary → Bool
vanished none = true
vanished (some _) = false

-- Steps 3 to 9.
abbrev later_signals : ExitClassificationInput → ExitClassification
later_signals i =
    if overflowed i.exit_summary i.context_pct
    then context_overflow
    else (if is_set i.context_killed
        then context_overflow
        else (if i.timer_killed
            then wall_clock_timeout
            else (if crashed i.exit_summary
                then process_crash
                else (if vanished i.exit_summary
                    then session_vanished
                    else (if i.stall_detected
                        then stall_timeout
                        else (if i.user_killed then user_killed else unknown))))))

abbrev after_retries : ExitClassificationInput → Option RetryRecord → ExitClassification
after_retries i (some r) = if is_model_access_error r.error then model_access_error else api_error
after_retries i none = if access_denied i.exit_summary then model_access_error else later_signals i

unfoldable pub classify_exit : ExitClassificationInput → ExitClassification
classify_exit i =
    if i.done_file_found then completed else after_retries i (failed_retry i.exit_summary)
