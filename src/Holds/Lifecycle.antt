-- ===== src/Holds/Lifecycle.antt =====
-- The lives of a hold: every order of the transitions of hold-state.ts, from its creation on.
use taskplane.Base.{ℕ, ◌+◌, ◌*◌, ◌≤◌, ◌≡◌, List, Option, some, Text, arith}
use taskplane.Base.Int.{ℤ}
use taskplane.Holds.Records.{
  HoldRecord, MailboxMessage, OpenHoldInput, create_hold_record, normalize_hold_timeout_minutes,
}
use taskplane.Holds.Rulings.{RulingScope, valid, validate_ruling}
use taskplane.Holds.Transitions.{
  apply_ruling, record_acknowledgement, mark_delivery_in_flight, mark_delivery_acknowledged,
  cancel_hold, expire_hold,
}

-- One transition. A ruling is applied only if `validateRuling` accepts it for the hold.
pub data Step (h : HoldRecord) (k : HoldRecord) : Type 0 where
  rule :
      (msg : MailboxMessage) (holds : List HoldRecord) (scope : RulingScope) (now : ℕ)
      → validate_ruling msg holds scope ≡ valid h
      → apply_ruling h msg now ≡ some k
      → Step h k
  acknowledge : (now : ℕ) → k ≡ record_acknowledgement h now → Step h k
  deliver : (attempt_id : Text) → mark_delivery_in_flight h attempt_id ≡ some k → Step h k
  confirm : mark_delivery_acknowledged h ≡ some k → Step h k
  cancel : (reason : Text) (now : ℕ) → k ≡ cancel_hold h reason now → Step h k
  expire : (now : ℕ) → k ≡ expire_hold h now → Step h k

-- The holds that a new hold can become.
pub data Reach (input : OpenHoldInput) (now : ℕ) : HoldRecord → Type 0 where
  created : Reach input now (create_hold_record input now)
  next : {h k : HoldRecord} → Reach input now h → Step h k → Reach input now k

-- The states that a hold can come to from `h`.
pub data Later (h : HoldRecord) : HoldRecord → Type 0 where
  here : Later h h
  then : {k l : HoldRecord} → Later h k → Step k l → Later h l

pub record Inv (input : OpenHoldInput) (h : HoldRecord) : Type 0 where
  pub escalation : h.escalation_id ≡ input.escalation.id
  unit : (h.task_id ≡ input.task_id) × (h.segment_id ≡ input.segment_id)
  deadline :
      h.deadline ≡ h.opened_at + normalize_hold_timeout_minutes input.hold_timeout_minutes * 60000

Step-Inv : (input : OpenHoldInput) (h k : HoldRecord) → Step h k → Inv input h → Inv input k
unfolding apply_ruling record_acknowledgement mark_delivery_in_flight mark_delivery_acknowledged
    cancel_hold expire_hold
Step-Inv input h k (rule msg holds scope now v a) inv = ground arith
Step-Inv input h k (acknowledge now e) inv = ground arith
Step-Inv input h k (deliver attempt e) inv = ground arith
Step-Inv input h k (confirm e) inv = ground arith
Step-Inv input h k (cancel reason now e) inv = ground arith
Step-Inv input h k (expire now e) inv = ground arith

pub Reach-Inv : {input : OpenHoldInput} {now : ℕ} {h : HoldRecord} → Reach input now h → Inv input h
unfolding create_hold_record
Reach-Inv created = ground arith
Reach-Inv {input} (next {h} {k} r s) = Step-Inv input h k s (Reach-Inv r)

timeout_bounds :
    (m : Option ℤ)
    → (5 ≤ normalize_hold_timeout_minutes m) × (normalize_hold_timeout_minutes m ≤ 10080)
unfolding normalize_hold_timeout_minutes
timeout_bounds m = ground arith

-- Through its whole life a hold stays on its escalation, task and segment, and its deadline lies
-- between five minutes and seven days after its opening, whatever timeout the operator gave.
pub hold_deadline :
    (input : OpenHoldInput) (now : ℕ) (h : HoldRecord)
    → Reach input now h
    → (h.escalation_id ≡ input.escalation.id)
      × (h.task_id ≡ input.task_id)
      × (h.segment_id ≡ input.segment_id)
      × (h.opened_at + 300000 ≤ h.deadline)
      × (h.deadline ≤ h.opened_at + 604800000)
hold_deadline input now h reach =
    let inv = Reach-Inv reach in
    let bounds = timeout_bounds input.hold_timeout_minutes in
    (inv.escalation, inv.unit.0, inv.unit.1, omega arith, omega arith)
