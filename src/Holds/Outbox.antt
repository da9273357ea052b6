-- ===== src/Holds/Outbox.antt =====
-- What hold-state.ts reads from a worker's outbox: new escalations and delivery acknowledgements.
use taskplane.Base.{
  ℕ, leb, if◌then◌else◌, Bool, true, false, not, ◌&&◌, ◌||◌, List, [], map, filter, filter_map,
  is_empty, Option, none, some, Text, text_eq, has,
}
use taskplane.Holds.Records.{
  MessageType, escalate, reply, MessageScope, MailboxMessage, HoldRuling, HoldRecord,
}
use taskplane.Holds.Authority.{same_segment, is_released, is_acknowledged, holds_for_unit}

pub record EscalationScopeFilter : Type 0 where
  pub task_id : Text
  pub segment_id : Option Text
  pub since_ts : Option ℕ

abbrev written_since : Option ℕ → ℕ → Bool
written_since none t = false
written_since (some since) t = leb since t

abbrev scope_matches : Option MessageScope → EscalationScopeFilter → Bool → Bool
scope_matches none filter_ written_this_run = written_this_run
scope_matches (some s) filter_ written_this_run =
    if not (text_eq s.task_id filter_.task_id)
    then false
    else (if same_segment s.segment_id filter_.segment_id then true else written_this_run)

unfoldable pub escalation_matches_unit : MailboxMessage → EscalationScopeFilter → Bool
unfolding same_segment
escalation_matches_unit m filter_ =
    scope_matches m.scope filter_ (written_since filter_.since_ts m.timestamp)

abbrev pub is_escalate : MessageType → Bool
is_escalate escalate = true
is_escalate _ = false

abbrev pub is_reply : MessageType → Bool
is_reply reply = true
is_reply _ = false

abbrev passes : MailboxMessage → Option EscalationScopeFilter → Bool
passes m none = true
passes m (some f) = escalation_matches_unit m f

unfoldable pub select_unrecorded_escalations :
    List MailboxMessage → List HoldRecord → Option EscalationScopeFilter → List MailboxMessage
unfolding escalation_matches_unit
select_unrecorded_escalations outbox holds filter_ =
    let known = map (λ (h : HoldRecord). h.escalation_id) holds in
    filter (λ m. if not (is_escalate m.type) || has m.id known then false else passes m filter_)
      outbox

-- `m.type === "reply" && m.replyTo`, mapped to `replyTo`.
abbrev pub reply_id : MailboxMessage → Option Text
reply_id m = if is_reply m.type then truthy m.reply_to else none
  where
    truthy : Option Text → Option Text
    truthy none = none
    truthy (some t) = if is_empty t then none else some t

abbrev pub ruling_in : List Text → Option HoldRuling → Bool
ruling_in ids none = false
ruling_in ids (some r) = has r.id ids

abbrev pub awaits_delivery : HoldRecord → Bool
awaits_delivery h =
    is_released h.phase
    && not (is_acknowledged h.delivery_state)
    && elim h.ruling [ none ↦ false | some _ ↦ true ]

unfoldable pub find_delivery_acknowledgements :
    List MailboxMessage → List HoldRecord → Text → Option Text → List HoldRecord
unfolding holds_for_unit
find_delivery_acknowledgements outbox holds task_id segment_id =
    let awaiting = filter awaits_delivery (holds_for_unit holds task_id segment_id) in
    let reply_ids = filter_map reply_id outbox in
    if is_empty awaiting then [] else filter (λ h. ruling_in reply_ids h.ruling) awaiting
