-- ===== src/Resume/Pin/Tests.antt =====
-- A hold of the failed segment of the sample batch.
use taskplane.Base.{◌≡◌, ◌++◌, refl, true, [], ◌∷◌, none, some, text, text_eq}
use taskplane.Base.Int.{pos}
use taskplane.Batch.{pending, held, BatchState}
use taskplane.Holds.Records.{
  MailboxMessage, escalate, OpenHoldInput, HoldRecord, create_hold_record,
}
use taskplane.Holds.Authority.{is_hold_unresolved}
use taskplane.Resume.Samples.{segment, api, web, task, batch}
use taskplane.Resume.Pin.{find_task, pin_held_segments}
use taskplane.Resume.Pin.Held.{is_task_held, pin_held_segments-held}

abbrev escalation : MailboxMessage
escalation = record {
  id = text "m1";
  timestamp = 1000;
  type = escalate;
  content = text "which way";
  reply_to = none;
  actor = none;
  scope = none;
}

abbrev input : OpenHoldInput
input = record {
  escalation = escalation;
  batch_id = text "b";
  task_id = text "T-1";
  segment_id = some api;
  execution_id = text "x";
  agent_id = text "w";
  lane_number = 1;
  hold_timeout_minutes = some (pos 30);
  gate_refs = none;
}

abbrev hold : HoldRecord
hold = create_hold_record input 2000

abbrev stopped_batch : BatchState
stopped_batch = record batch { holds = hold ∷ [] }

run : Unit {0}
unfolding pin_held_segments create_hold_record text_eq is_hold_unresolved
run = tt

pin_held_segments-run : pin_held_segments stopped_batch ≡ (
  record stopped_batch {
    tasks = record task { status = held; active_segment_id = some api } ∷ [];
    segments = segment api held ∷ segment web pending ∷ [];
  },
  (text "T-1" ++ 0x2192 ∷ api) ∷ [],
)
unfolding run
pin_held_segments-run = refl

pin_held_segments-held_example :
    is_task_held (find_task hold.task_id (pin_held_segments stopped_batch).0.tasks) ≡ true
unfolding run
pin_held_segments-held_example = pin_held_segments-held stopped_batch [] [] hold refl refl
