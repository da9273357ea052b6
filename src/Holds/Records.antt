-- ===== src/Holds/Records.antt =====
-- The records of hold-state.ts, and the mailbox message that they are made from.
use taskplane.Base.{ℕ, ◌+◌, ◌*◌, min, ◌==◌, if◌then◌else◌, List, Option, none, some, Text, is_empty}
use taskplane.Base.Int.{ℤ, pos, negsuc}
use Prim.Native.Nat.{max}

pub data HoldPhase : Type 0 where
  open_hold released cancelled : HoldPhase

pub data HoldDeliveryState : Type 0 where
  none_yet pending in_flight acknowledged : HoldDeliveryState

-- `role` is a text, since `validateRuling` checks it when the program runs.
pub record RulingActor : Type 0 where
  pub role : Text
  pub id : Text
  pub authorization_ref : Option Text

pub record HoldRuling : Type 0 where
  pub id : Text
  pub reply_to : Text
  pub actor : RulingActor
  pub instructions : Text
  pub accepted_at : ℕ

pub record HoldRecord : Type 0 where
  pub escalation_id : Text
  pub batch_id : Text
  pub task_id : Text
  pub segment_id : Option Text
  pub execution_id : Text
  pub agent_id : Text
  pub lane_number : ℕ
  pub opened_at : ℕ
  pub deadline : ℕ
  pub expired_at : Option ℕ
  pub phase : HoldPhase
  pub escalation : Text
  pub gate_refs : Option (List Text)
  pub ruling : Option HoldRuling
  pub delivery_state : HoldDeliveryState
  pub delivery_attempt_id : Option Text
  pub last_acknowledged_at : Option ℕ
  pub cancel_reason : Option Text
  pub cancelled_at : Option ℕ

pub data MessageType : Type 0 where
  steer query abort info reply escalate ruling_message : MessageType

pub record MessageScope : Type 0 where
  pub task_id : Text
  pub segment_id : Option Text

-- The fields of `MailboxMessage` that hold-state.ts reads.
pub record MailboxMessage : Type 0 where
  pub id : Text
  pub timestamp : ℕ
  pub type : MessageType
  pub content : Text
  pub reply_to : Option Text
  pub actor : Option RulingActor
  pub scope : Option MessageScope

-- `none` is a value that is no finite number; a fraction is already cut off.
unfoldable pub normalize_hold_timeout_minutes : Option ℤ → ℕ
normalize_hold_timeout_minutes none = 240
normalize_hold_timeout_minutes (some (pos n)) = min 10080 (max 5 n)
normalize_hold_timeout_minutes (some (negsuc n)) = 5

pub record OpenHoldInput : Type 0 where
  pub escalation : MailboxMessage
  pub batch_id : Text
  pub task_id : Text
  pub segment_id : Option Text
  pub execution_id : Text
  pub agent_id : Text
  pub lane_number : ℕ
  pub hold_timeout_minutes : Option ℤ
  pub gate_refs : Option (List Text)

abbrev kept_refs : Option (List Text) → Option (List Text)
kept_refs none = none
kept_refs (some refs) = if is_empty refs then none else some refs

-- `Math.min(now, timestamp || now)`.
abbrev opening : ℕ → ℕ → ℕ
opening now timestamp = min now (if timestamp == 0 then now else timestamp)

-- `now` is the clock's reading.
unfoldable pub create_hold_record : OpenHoldInput → ℕ → HoldRecord
unfolding normalize_hold_timeout_minutes
create_hold_record input now = record {
  escalation_id = input.escalation.id;
  batch_id = input.batch_id;
  task_id = input.task_id;
  segment_id = input.segment_id;
  execution_id = input.execution_id;
  agent_id = input.agent_id;
  lane_number = input.lane_number;
  opened_at = opening now input.escalation.timestamp;
  deadline =
      opening now input.escalation.timestamp
      + normalize_hold_timeout_minutes input.hold_timeout_minutes * 60000;
  expired_at = none;
  phase = open_hold;
  escalation = input.escalation.content;
  gate_refs = kept_refs input.gate_refs;
  ruling = none;
  delivery_state = none_yet;
  delivery_attempt_id = none;
  last_acknowledged_at = none;
  cancel_reason = none;
  cancelled_at = none;
}
