-- ===== src/Holds/Authority.antt =====
-- Selection of holds and `evaluateCompletionAuthority` of hold-state.ts.
use taskplane.Base.{
  ℕ, leb, if◌then◌else◌, Bool, true, false, not, ◌&&◌, ◌||◌, List, map, filter, find, any, is_empty,
  Option, none, some, Text, text_eq,
}
use taskplane.Holds.Records.{
  HoldPhase, open_hold, released, HoldDeliveryState, acknowledged, HoldRecord,
}

abbrev pub is_open : HoldPhase → Bool
is_open open_hold = true
is_open _ = false

abbrev pub is_released : HoldPhase → Bool
is_released released = true
is_released _ = false

abbrev pub is_acknowledged : HoldDeliveryState → Bool
is_acknowledged acknowledged = true
is_acknowledged _ = false

-- `(a ?? null) === (b ?? null)`.
unfoldable pub same_segment : Option Text → Option Text → Bool
same_segment none none = true
same_segment (some a) (some b) = text_eq a b
same_segment _ _ = false

abbrev pub is_none {ℓ} : {A : Type ℓ} → Option A → Bool
is_none none = true
is_none (some _) = false

unfoldable pub same_unit : HoldRecord → Text → Option Text → Bool
unfolding same_segment
same_unit record_ task_id segment_id =
    text_eq record_.task_id task_id && same_segment record_.segment_id segment_id

unfoldable pub hold_binds_unit : HoldRecord → Text → Option Text → Bool
unfolding same_segment
hold_binds_unit record_ task_id segment_id =
    if not (text_eq record_.task_id task_id)
    then false
    else is_none record_.segment_id
      || (is_none segment_id || same_segment record_.segment_id segment_id)

unfoldable pub holds_for_unit : List HoldRecord → Text → Option Text → List HoldRecord
unfolding hold_binds_unit
holds_for_unit holds task_id segment_id = filter (λ h. hold_binds_unit h task_id segment_id) holds

unfoldable pub holds_for_task : List HoldRecord → Text → List HoldRecord
holds_for_task holds task_id = filter (λ h. text_eq h.task_id task_id) holds

unfoldable pub is_hold_unresolved : HoldRecord → Bool
is_hold_unresolved h =
    if is_open h.phase
    then true
    else (if is_released h.phase then not (is_acknowledged h.delivery_state) else false)

unfoldable pub unresolved_holds_for_unit : List HoldRecord → Text → Option Text → List HoldRecord
unfolding holds_for_unit is_hold_unresolved
unresolved_holds_for_unit holds task_id segment_id =
    filter is_hold_unresolved (holds_for_unit holds task_id segment_id)

unfoldable pub is_hold_expired : HoldRecord → ℕ → Bool
is_hold_expired h now = is_open h.phase && (not (is_none h.expired_at) || leb h.deadline now)

unfoldable pub find_hold : List HoldRecord → Text → Option HoldRecord
find_hold holds escalation_id = find (λ h. text_eq h.escalation_id escalation_id) holds

pub data CompletionAuthority : Type 0 where
  unblocked : CompletionAuthority
  blocked : (escalation_ids : List Text) → CompletionAuthority

unfoldable pub evaluate_completion_authority :
    List HoldRecord → Text → Option Text → CompletionAuthority
unfolding unresolved_holds_for_unit
evaluate_completion_authority holds task_id segment_id =
    let binding = unresolved_holds_for_unit holds task_id segment_id in
    if is_empty binding then unblocked else blocked (map (λ h. h.escalation_id) binding)

unfoldable pub task_completion_blocked : List HoldRecord → Text → Bool
unfolding holds_for_task is_hold_unresolved
task_completion_blocked holds task_id = any is_hold_unresolved (holds_for_task holds task_id)
