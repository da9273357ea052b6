-- ===== src/QualityGate.antt =====
-- extensions/taskplane/quality-gate.ts: the verdict of a review agent, and whether it passes the gate.
mod Verdicts
mod Tests
use taskplane.Base.{
  ℕ, ltb, leb, if◌then◌else◌, Bool, true, false, not, ◌&&◌, List, [], ◌∷◌, ◌++◌, Text, text, filter,
  all, is_empty, length,
}
use taskplane.Base.Chars.{show}

pub data FindingSeverity : Type 0 where
  critical : FindingSeverity
  important : FindingSeverity
  suggestion : FindingSeverity

pub data FindingCategory : Type 0 where
  missing_requirement : FindingCategory
  incorrect_implementation : FindingCategory
  incomplete_work : FindingCategory
  status_mismatch : FindingCategory

pub record ReviewFinding : Type 0 where
  pub severity : FindingSeverity
  pub category : FindingCategory
  pub description : Text
  pub file : Text
  pub remediation : Text

pub data ActualState : Type 0 where
  done : ActualState
  not_done : ActualState
  partial : ActualState

pub record StatusReconciliation : Type 0 where
  pub checkbox : Text
  pub actual_state : ActualState
  pub evidence : Text

pub data Verdict : Type 0 where
  pass : Verdict
  needs_fixes : Verdict

pub data Confidence : Type 0 where
  high : Confidence
  medium : Confidence
  low : Confidence

pub record ReviewVerdict : Type 0 where
  pub verdict : Verdict
  pub confidence : Confidence
  pub summary : Text
  pub findings : List ReviewFinding
  pub status_reconciliation : List StatusReconciliation

pub data PassThreshold : Type 0 where
  no_critical : PassThreshold
  no_important : PassThreshold
  all_clear : PassThreshold

pub data FailRule : Type 0 where
  critical_finding : FailRule
  important_threshold : FailRule
  status_mismatch_rule : FailRule
  verdict_says_needs_fixes : FailRule

pub record VerdictFailReason : Type 0 where
  pub rule : FailRule
  pub detail : Text

pub record VerdictEvaluation : Type 0 where
  pub pass : Bool
  pub fail_reasons : List VerdictFailReason

abbrev pub is_mismatch : ReviewFinding → Bool
is_mismatch f = elim f.category [ status_mismatch ↦ true | _ ↦ false ]

abbrev pub is_critical : ReviewFinding → Bool
is_critical f = elim f.severity [ critical ↦ true | _ ↦ false ]

abbrev pub is_important : ReviewFinding → Bool
is_important f = elim f.severity [ important ↦ true | _ ↦ false ]

abbrev pub is_suggestion : ReviewFinding → Bool
is_suggestion f = elim f.severity [ suggestion ↦ true | _ ↦ false ]

abbrev pub is_no_important : PassThreshold → Bool
is_no_important no_important = true
is_no_important _ = false

abbrev pub is_all_clear : PassThreshold → Bool
is_all_clear all_clear = true
is_all_clear _ = false

abbrev pub says_needs_fixes : Verdict → Bool
says_needs_fixes needs_fixes = true
says_needs_fixes pass = false

abbrev pub is_threshold_rule : FailRule → Bool
is_threshold_rule important_threshold = true
is_threshold_rule _ = false

abbrev pub counted : ℕ → Text → Text
counted n words = show n ++ words

-- `failReasons.push`, under a condition.
abbrev pub push_if : Bool → FailRule → Text → List VerdictFailReason → List VerdictFailReason
push_if false rule detail reasons = reasons
push_if true rule detail reasons = reasons ++ record { rule = rule; detail = detail } ∷ []

-- Rules 1 and 2.
pub finding_rules : ReviewVerdict → List VerdictFailReason
finding_rules v =
    let mismatches = length (filter is_mismatch v.findings) in
    let criticals = length (filter is_critical v.findings) in
    push_if (ltb 0 criticals) critical_finding (counted criticals (text " critical finding(s)")) (
      push_if (ltb 0 mismatches) status_mismatch_rule
        (counted mismatches (
          text " status mismatch(es) found "
          ++ 0x2014 ∷ text " checked boxes don't match actual work"))
        [])

-- Rule 3.
pub threshold_rules :
    ReviewVerdict → PassThreshold → List VerdictFailReason → List VerdictFailReason
threshold_rules v threshold reasons =
    let importants = length (filter is_important v.findings) in
    let counted_reasons =
      push_if (is_no_important threshold && leb 3 importants) important_threshold
        (counted importants
          (text " important findings (threshold: fewer than 3 required for pass)"))
        reasons in
    push_if
      (is_all_clear threshold
        && not (is_empty v.findings)
        && ltb 0 importants
        && all (λ r. not (is_threshold_rule r.rule)) counted_reasons)
      important_threshold
      (counted importants
        (text " important finding(s) (all_clear threshold: zero findings required)"))
      counted_reasons

-- Rule 4.
pub verdict_rule : ReviewVerdict → List VerdictFailReason → List VerdictFailReason
verdict_rule v reasons =
    push_if (says_needs_fixes v.verdict && is_empty reasons) verdict_says_needs_fixes
      (text "Review agent verdict: NEEDS_FIXES " ++ 0x2014 ∷ text " " ++ v.summary) reasons

-- Suggestions only.
pub suggestion_rule :
    ReviewVerdict → PassThreshold → List VerdictFailReason → List VerdictFailReason
suggestion_rule v threshold reasons =
    let suggestions = length (filter is_suggestion v.findings) in
    push_if
      (is_all_clear threshold && is_empty reasons && not (is_empty v.findings) && ltb 0 suggestions)
      important_threshold
      (counted suggestions
        (text " suggestion(s) found (all_clear threshold: zero findings required)"))
      reasons

unfoldable pub apply_verdict_rules : ReviewVerdict → PassThreshold → VerdictEvaluation
unfolding finding_rules threshold_rules verdict_rule suggestion_rule
apply_verdict_rules v threshold =
    let reasons =
      suggestion_rule v threshold
        (verdict_rule v (threshold_rules v threshold (finding_rules v))) in
    record { pass = is_empty reasons; fail_reasons = reasons }
