-- ===== src/QualityGate/Tests.antt =====
-- Two verdicts: one with two important findings, and one whose only finding is a suggestion.
use taskplane.Base.{◌≡◌, ◌≤◌, arith, refl, ◌↔◌, true, List, [], ◌∷◌, text}
use taskplane.Base.Chars.{show}
use taskplane.QualityGate.{
  FindingSeverity, important, suggestion, incomplete_work, ReviewFinding, ReviewVerdict, pass,
  medium, no_critical, no_important, all_clear, apply_verdict_rules, important_threshold,
}
use taskplane.QualityGate.Verdicts.{Acceptable, pass_iff, pass_laxer}

abbrev finding : FindingSeverity → ReviewFinding
finding s = record {
  severity = s;
  category = incomplete_work;
  description = [];
  file = [];
  remediation = [];
}

abbrev verdict_of : List ReviewFinding → ReviewVerdict
verdict_of fs = record {
  verdict = pass;
  confidence = medium;
  summary = text "fine";
  findings = fs;
  status_reconciliation = [];
}

abbrev two_important : ReviewVerdict
two_important = verdict_of (finding important ∷ finding important ∷ [])

run : Unit {0}
unfolding apply_verdict_rules show
run = tt

apply_verdict_rules-two : (apply_verdict_rules two_important no_important).pass ≡ true
unfolding run
apply_verdict_rules-two = refl

apply_verdict_rules-suggestion :
    (apply_verdict_rules (verdict_of (finding suggestion ∷ [])) all_clear).fail_reasons
    ≡ record {
      rule = important_threshold;
      detail = text "1 suggestion(s) found (all_clear threshold: zero findings required)";
    }
      ∷ []
unfolding run
apply_verdict_rules-suggestion = refl

pass_iff_example :
    ((apply_verdict_rules two_important no_important).pass ≡ true)
    ↔ Acceptable two_important no_important
pass_iff_example = pass_iff two_important no_important

pass_laxer_example : (apply_verdict_rules two_important no_critical).pass ≡ true
pass_laxer_example = pass_laxer two_important no_important no_critical lax apply_verdict_rules-two
  where
    lax : 0 ≤ 1
    lax = omega arith
