-- ===== src/Holds/Tests.antt =====
-- One hold from its escalation to the acknowledged ruling.
use taskplane.Base.{
  ◌+◌, ◌≤◌, ◌≡◌, ◌↔◌, refl, if◌then◌else◌, true, [], ◌∷◌, none, some, text, text_eq, has,
}
use taskplane.Base.Int.{pos}
use taskplane.Base.Chars.{trim}
use taskplane.Holds.Records.{
  acknowledged, escalate, ruling_message, RulingActor, HoldRuling, HoldRecord, MailboxMessage,
  OpenHoldInput, create_hold_record, released, pending, in_flight,
}
use taskplane.Holds.Authority.{
  is_hold_unresolved, find_hold, evaluate_completion_authority, task_completion_blocked,
}
use taskplane.Holds.Rulings.{RulingScope, valid, validate_ruling}
use taskplane.Holds.Transitions.{
  apply_ruling, mark_delivery_in_flight, mark_delivery_acknowledged, upsert_hold,
}
use taskplane.Holds.Outbox.{select_unrecorded_escalations}
use taskplane.Holds.Lifecycle.{rule, deliver, confirm, Reach, created, next, hold_deadline}
use taskplane.Holds.Blocking.{is_blocked, evaluate-whole_task, evaluate-segment, find-upsert}
use taskplane.Holds.Validity.{Rules, validate_ruling_iff}
use taskplane.Holds.Replay.{record_all, replay_once}

abbrev message : MailboxMessage
message = record {
  id = text "m1";
  timestamp = 1000;
  type = escalate;
  content = text "which way";
  reply_to = none;
  actor = none;
  scope = none;
}

abbrev input : OpenHoldInput
input = record {
  escalation = message;
  batch_id = text "b";
  task_id = text "T-1";
  segment_id = some (text "T-1::api");
  execution_id = text "x";
  agent_id = text "w";
  lane_number = 1;
  hold_timeout_minutes = some (pos 0);
  gate_refs = none;
}

abbrev opened : HoldRecord
opened = create_hold_record input 2000

abbrev supervisor : RulingActor
supervisor = record { role = text "supervisor"; id = text "sup"; authorization_ref = none }

abbrev ruling : MailboxMessage
ruling = record {
  id = text "m2";
  timestamp = 3000;
  type = ruling_message;
  content = text "left";
  reply_to = some (text "m1");
  actor = some supervisor;
  scope = none;
}

abbrev scope : RulingScope
scope = record { task_id = text "T-1"; segment_id = none; execution_id = some (text "x") }

abbrev accepted : HoldRuling
accepted = record {
  id = text "m2";
  reply_to = text "m1";
  actor = supervisor;
  instructions = text "left";
  accepted_at = 4000;
}

abbrev ruled : HoldRecord
ruled = record opened { phase = released; ruling = some accepted; delivery_state = pending }

abbrev flying : HoldRecord
flying = record ruled { delivery_state = in_flight; delivery_attempt_id = some (text "a1") }

abbrev done : HoldRecord
done = record flying { delivery_state = acknowledged }

run : Unit {0}
unfolding create_hold_record validate_ruling apply_ruling mark_delivery_in_flight
    mark_delivery_acknowledged is_hold_unresolved evaluate_completion_authority
    task_completion_blocked text_eq has trim find_hold upsert_hold select_unrecorded_escalations
run = tt

validated : validate_ruling ruling (opened ∷ []) scope ≡ valid opened
unfolding run
validated = refl

life : Reach input 2000 done
unfolding run
life =
    next
      (next (next created (rule ruling (opened ∷ []) scope 4000 validated refl))
        (deliver (text "a1") refl))
      (confirm refl)

hold_deadline_example :
    (done.escalation_id ≡ message.id)
    × (done.task_id ≡ text "T-1")
    × (done.segment_id ≡ some (text "T-1::api"))
    × (done.opened_at + 300000 ≤ done.deadline)
    × (done.deadline ≤ done.opened_at + 604800000)
unfolding run
hold_deadline_example = hold_deadline input 2000 done life

validate_ruling_iff_example :
    (validate_ruling ruling (opened ∷ []) scope ≡ valid opened)
    ↔ Rules ruling (opened ∷ []) scope opened
validate_ruling_iff_example = validate_ruling_iff ruling (opened ∷ []) scope opened

evaluate-whole_task_example :
    is_blocked (evaluate_completion_authority (opened ∷ done ∷ []) (text "T-1") none)
    ≡ task_completion_blocked (opened ∷ done ∷ []) (text "T-1")
evaluate-whole_task_example = evaluate-whole_task (opened ∷ done ∷ []) (text "T-1")

evaluate-segment_example : task_completion_blocked (opened ∷ []) (text "T-1") ≡ true
unfolding run
evaluate-segment_example = evaluate-segment (opened ∷ []) (text "T-1") (some (text "T-1::api")) refl

find-upsert_example : find_hold (upsert_hold (opened ∷ []) done) (text "m1") ≡ (
    if text_eq done.escalation_id (text "m1")
    then some done
    else find_hold (opened ∷ []) (text "m1"))
find-upsert_example = find-upsert (opened ∷ []) done (text "m1")

replay_once_example :
    select_unrecorded_escalations
      (message ∷ [])
      (record_all input 2000 [] (select_unrecorded_escalations (message ∷ []) [] none))
      none
    ≡ []
replay_once_example = replay_once (message ∷ []) [] none input 2000
