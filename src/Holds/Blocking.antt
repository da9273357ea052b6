-- ===== src/Holds/Blocking.antt =====
-- Which units a hold keeps from completing.
use taskplane.Base.{
  ◌≡◌, refl, sym, ◌∙◌, if◌then◌else◌, Bool, true, false, not, ◌&&◌, List, [], ◌∷◌, filter, any,
  is_empty, Option, none, some, Text, text_eq, text_eq_iff, arith,
}
use taskplane.Holds.Records.{HoldRecord}
use taskplane.Holds.Authority.{
  CompletionAuthority, unblocked, blocked, hold_binds_unit, is_hold_unresolved, find_hold,
  evaluate_completion_authority, task_completion_blocked,
}
use taskplane.Holds.Transitions.{upsert_hold}

abbrev pub is_blocked : CompletionAuthority → Bool
is_blocked unblocked = false
is_blocked (blocked _) = true

is_empty-filter-filter :
    (p q : HoldRecord → Bool) (holds : List HoldRecord)
    → is_empty (filter p (filter q holds)) ≡ not (any (λ h. q h && p h) holds)
is_empty-filter-filter p q [] = refl
is_empty-filter-filter p q (h ∷ holds) = ground (arith, is_empty-filter-filter p q holds)

-- A unit is blocked exactly when some hold binds it and is unresolved.
authority-eq :
    (holds : List HoldRecord) (t : Text) (s : Option Text)
    → is_blocked (evaluate_completion_authority holds t s)
      ≡ any (λ h. hold_binds_unit h t s && is_hold_unresolved h) holds
unfolding evaluate_completion_authority
authority-eq holds t s =
    ground (arith, is_empty-filter-filter is_hold_unresolved (λ h. hold_binds_unit h t s) holds)

any-filter :
    (p q : HoldRecord → Bool) (holds : List HoldRecord)
    → any p (filter q holds) ≡ any (λ h. q h && p h) holds
any-filter p q [] = refl
any-filter p q (h ∷ holds) = ground (arith, any-filter p q holds)

any_congruent :
    (p q : HoldRecord → Bool) (holds : List HoldRecord)
    → ((h : HoldRecord) → p h ≡ q h)
    → any p holds ≡ any q holds
any_congruent p q [] e = refl
any_congruent p q (h ∷ holds) e = ground (arith, e h, any_congruent p q holds e)

any_mono :
    (p q : HoldRecord → Bool) (holds : List HoldRecord)
    → ((h : HoldRecord) → p h ≡ true → q h ≡ true)
    → any p holds ≡ true
    → any q holds ≡ true
any_mono p q [] e a = cc
any_mono p q (h ∷ holds) e a = ground (arith, e h, any_mono p q holds e)

-- A resume that runs the task as one unit cannot step around the hold of a segment: the whole-task
-- unit is blocked exactly when the task is blocked.
pub evaluate-whole_task :
    (holds : List HoldRecord) (t : Text)
    → is_blocked (evaluate_completion_authority holds t none) ≡ task_completion_blocked holds t
unfolding task_completion_blocked hold_binds_unit
evaluate-whole_task holds t =
    authority-eq holds t none
    ∙ any_congruent _ (λ h. text_eq h.task_id t && is_hold_unresolved h) holds (λ h. ground arith)
    ∙ sym (any-filter is_hold_unresolved (λ h. text_eq h.task_id t) holds)

-- A task is blocked if any of its segments is.
pub evaluate-segment :
    (holds : List HoldRecord) (t : Text) (s : Option Text)
    → is_blocked (evaluate_completion_authority holds t s) ≡ true
    → task_completion_blocked holds t ≡ true
unfolding task_completion_blocked hold_binds_unit
evaluate-segment holds t s b =
    any-filter is_hold_unresolved (λ h. text_eq h.task_id t) holds
    ∙ any_mono (λ h. hold_binds_unit h t s && is_hold_unresolved h)
        (λ h. text_eq h.task_id t && is_hold_unresolved h) holds (λ h e. ground arith)
        (sym (authority-eq holds t s) ∙ b)

-- After a hold is recorded it is found under its escalation id, and every other hold is found as
-- before.
pub find-upsert :
    (holds : List HoldRecord) (r : HoldRecord) (k : Text)
    → find_hold (upsert_hold holds r) k
      ≡ (if text_eq r.escalation_id k then some r else find_hold holds k)
unfolding find_hold upsert_hold
find-upsert [] r k = refl
find-upsert (h ∷ holds) r k = ground (
  arith,
  find-upsert holds r k,
  text_eq_iff h.escalation_id r.escalation_id,
  text_eq_iff h.escalation_id k,
  text_eq_iff r.escalation_id k,
)
