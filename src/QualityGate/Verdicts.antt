-- ===== src/QualityGate/Verdicts.antt =====
-- When a verdict passes the quality gate.
use taskplane.Base.{
  ℕ, ◌<◌, ◌≤◌, ◌≡◌, refl, ◌↔◌, ltb, leb, Bool, true, not, ◌&&◌, List, [], ◌∷◌, Text, filter, all,
  is_empty, length, arith,
}
use taskplane.QualityGate.{
  ReviewFinding, ReviewVerdict, pass, PassThreshold, no_critical, no_important, all_clear, FailRule,
  VerdictFailReason, is_mismatch, is_critical, is_important, is_suggestion, is_no_important,
  is_all_clear, is_threshold_rule, says_needs_fixes, push_if, finding_rules, threshold_rules,
  verdict_rule, suggestion_rule, apply_verdict_rules,
}

pub record Acceptable (v : ReviewVerdict) (threshold : PassThreshold) : Type 0 where
  pub approved : v.verdict ≡ pass
  pub matched : all (λ f. not (is_mismatch f)) v.findings ≡ true
  pub uncritical : all (λ f. not (is_critical f)) v.findings ≡ true
  pub bounded : threshold ≡ no_important → length (filter is_important v.findings) < 3
  pub clear : threshold ≡ all_clear → v.findings ≡ []

is_empty-push_if :
    (b : Bool) (rule : FailRule) (detail : Text) (reasons : List VerdictFailReason)
    → is_empty (push_if b rule detail reasons) ≡ (is_empty reasons && not b)
is_empty-push_if b rule detail [] = ground arith
is_empty-push_if b rule detail (r ∷ reasons) = ground arith

none_counted :
    (p : ReviewFinding → Bool) (fs : List ReviewFinding)
    → not (ltb 0 (length (filter p fs))) ≡ all (λ f. not (p f)) fs
none_counted p [] = ground arith
none_counted p (f ∷ fs) = ground (arith, none_counted p fs)

all_severities :
    (fs : List ReviewFinding)
    → (all (λ f. not (is_critical f)) fs
        && all (λ f. not (is_important f)) fs
        && all (λ f. not (is_suggestion f)) fs)
      ≡ is_empty fs
all_severities [] = refl
all_severities (f ∷ fs) = ground (arith, all_severities fs)

abbrev importants : ReviewVerdict → ℕ
importants v = length (filter is_important v.findings)

empty_all :
    (p : VerdictFailReason → Bool) (rs : List VerdictFailReason)
    → is_empty rs ≡ true
    → all p rs ≡ true
empty_all p [] h = refl
empty_all p (r ∷ rs) h = cc

is_empty-finding_rules :
    (v : ReviewVerdict)
    → is_empty (finding_rules v)
      ≡ (all (λ f. not (is_mismatch f)) v.findings && all (λ f. not (is_critical f)) v.findings)
unfolding finding_rules
is_empty-finding_rules v = ground (
  arith,
  is_empty-push_if (ltb 0 (length (filter is_critical v.findings))) _ _ (push_if _ _ _ []),
  is_empty-push_if (ltb 0 (length (filter is_mismatch v.findings))) _ _ [],
  none_counted is_critical v.findings,
  none_counted is_mismatch v.findings,
)

is_empty-two_pushes :
    (b c d e : Bool) (rule second : FailRule) (detail more : Text) (rs : List VerdictFailReason)
    → let once = push_if b rule detail rs in
      is_empty
        (push_if (c && d && e && all (λ r. not (is_threshold_rule r.rule)) once) second more once)
      ≡ (is_empty rs && not b && not (c && d && e))
is_empty-two_pushes b c d e rule second detail more rs =
    let once = push_if b rule detail rs in
    let fresh = all (λ r. not (is_threshold_rule r.rule)) once in
    ground (
      arith,
      is_empty-push_if (c && d && e && fresh) second more once,
      is_empty-push_if b rule detail rs,
      empty_all (λ r. not (is_threshold_rule r.rule)) once,
    )

is_empty-threshold_rules :
    (v : ReviewVerdict) (t : PassThreshold) (rs : List VerdictFailReason)
    → is_empty (threshold_rules v t rs) ≡ (
        is_empty rs
        && not (is_no_important t && leb 3 (importants v))
        && not (is_all_clear t && not (is_empty v.findings) && ltb 0 (importants v)))
unfolding threshold_rules
is_empty-threshold_rules v t rs =
    is_empty-two_pushes (is_no_important t && leb 3 (importants v)) (is_all_clear t)
      (not (is_empty v.findings)) (ltb 0 (importants v)) _ _ _ _ rs

is_empty-verdict_rule :
    (v : ReviewVerdict) (rs : List VerdictFailReason)
    → is_empty (verdict_rule v rs) ≡ (is_empty rs && not (says_needs_fixes v.verdict))
unfolding verdict_rule
is_empty-verdict_rule v rs =
    ground (arith, is_empty-push_if (says_needs_fixes v.verdict && is_empty rs) _ _ rs)

is_empty-suggestion_rule :
    (v : ReviewVerdict) (t : PassThreshold) (rs : List VerdictFailReason)
    → is_empty (suggestion_rule v t rs) ≡ (
        is_empty rs
        && not (
            is_all_clear t
            && not (is_empty v.findings)
            && ltb 0 (length (filter is_suggestion v.findings))))
unfolding suggestion_rule
is_empty-suggestion_rule v t rs = ground (
  arith,
  is_empty-push_if
      (is_all_clear t
        && is_empty rs
        && not (is_empty v.findings)
        && ltb 0 (length (filter is_suggestion v.findings)))
      _ _ rs,
)

pass-eq :
    (v : ReviewVerdict) (t : PassThreshold)
    → (apply_verdict_rules v t).pass ≡ (
        not (says_needs_fixes v.verdict)
        && all (λ f. not (is_mismatch f)) v.findings
        && all (λ f. not (is_critical f)) v.findings
        && not (is_no_important t && leb 3 (importants v))
        && not (is_all_clear t && not (is_empty v.findings)))
unfolding apply_verdict_rules
pass-eq v t =
    let found = finding_rules v in
    let bounded = threshold_rules v t found in
    ground (
      arith,
      is_empty-suggestion_rule v t (verdict_rule v bounded),
      is_empty-verdict_rule v bounded,
      is_empty-threshold_rules v t found,
      is_empty-finding_rules v,
      all_severities v.findings,
      none_counted is_important v.findings,
      none_counted is_suggestion v.findings,
    )

empty_list : (fs : List ReviewFinding) → is_empty fs ≡ true → fs ≡ []
empty_list [] h = refl
empty_list (f ∷ fs) h = cc

-- A verdict passes exactly when the review agent approves, no finding is critical or a status
-- mismatch, and the threshold holds: fewer than three important findings for `no_important`, no
-- finding at all for `all_clear`.
pub pass_iff :
    (v : ReviewVerdict) (t : PassThreshold)
    → ((apply_verdict_rules v t).pass ≡ true) ↔ Acceptable v t
pass_iff v t = (
  λ h. record {
    approved = ground (arith, pass-eq v t);
    matched = ground (arith, pass-eq v t);
    uncritical = ground (arith, pass-eq v t);
    bounded = λ e. ground (arith, pass-eq v t);
    clear = λ e. empty_list v.findings (ground (arith, pass-eq v t));
  },
  λ a. ground (arith, pass-eq v t, a.approved, a.matched, a.uncritical, a.bounded, a.clear),
)

-- `no_critical`, `no_important`, `all_clear`, from the laxest to the strictest.
abbrev pub strictness : PassThreshold → ℕ
strictness no_critical = 0
strictness no_important = 1
strictness all_clear = 2

-- A verdict that passes under a threshold passes under every laxer one.
pub pass_laxer :
    (v : ReviewVerdict) (t u : PassThreshold)
    → strictness u ≤ strictness t
    → (apply_verdict_rules v t).pass ≡ true
    → (apply_verdict_rules v u).pass ≡ true
pass_laxer v t u lax h = ground (arith, pass-eq v t, pass-eq v u, empty_list v.findings)
