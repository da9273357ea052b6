-- ===== src/Holds/History.antt =====
-- What the steps of a hold of hold-state.ts leave behind.
use taskplane.Base.{ℕ, ◌≡◌, refl, sym, ◌∙◌, List, some, Text, arith}
use taskplane.Holds.Records.{
  released, cancelled, acknowledged, HoldRecord, MailboxMessage, OpenHoldInput, create_hold_record,
}
use taskplane.Holds.Rulings.{RulingScope, valid, validate_ruling}
use taskplane.Holds.Transitions.{
  apply_ruling, record_acknowledgement, mark_delivery_in_flight, mark_delivery_acknowledged,
  cancel_hold, expire_hold,
}
use taskplane.Holds.Lifecycle.{
  Step, rule, acknowledge, deliver, confirm, cancel, expire, Reach, created, next, Later, here,
  then,
}

-- `validateRuling` accepted a message for the hold as it was `before`, and `applyRuling` made it
-- `after`, from where the hold has come to `h`.
pub record Applied (input : OpenHoldInput) (now : ℕ) (h : HoldRecord) : Type 0 where
  pub before : HoldRecord
  pub after : HoldRecord
  pub msg : MailboxMessage
  pub holds : List HoldRecord
  pub scope : RulingScope
  pub at : ℕ
  pub reached : Reach input now before
  pub accepted : validate_ruling msg holds scope ≡ valid before
  pub applied : apply_ruling before msg at ≡ some after
  pub later : Later after h
  pub kept : h.ruling ≡ after.ruling

-- `markDeliveryAcknowledged` was called on the way from `after` to `h`.
pub record Confirmed (after : HoldRecord) (h : HoldRecord) : Type 0 where
  pub handed : HoldRecord
  pub confirmed : HoldRecord
  pub delivered : Later after handed
  pub marked : mark_delivery_acknowledged handed ≡ some confirmed
  pub later : Later confirmed h

-- `cancelHold` was called on the way to `h`.
pub record Cancelled (input : OpenHoldInput) (now : ℕ) (h : HoldRecord) : Type 0 where
  pub before : HoldRecord
  pub reason : Text
  pub at : ℕ
  pub reached : Reach input now before
  pub later : Later (cancel_hold before reason at) h

-- What has happened to a hold that is released, acknowledged or cancelled.
pub record History (input : OpenHoldInput) (now : ℕ) (h : HoldRecord) : Type 0 where
  pub applied :
      h.phase ≡ released
      → (a : Applied input now h) × (h.delivery_state ≡ acknowledged → Confirmed a.after h)
  pub cancelling : h.phase ≡ cancelled → Cancelled input now h

abbrev Applied-Step :
    {input : OpenHoldInput} {now : ℕ} (h k : HoldRecord) (step : Step h k)
    → k.ruling ≡ h.ruling
    → Applied input now h
    → Applied input now k
Applied-Step h k step same a = record {
  before = a.before;
  after = a.after;
  msg = a.msg;
  holds = a.holds;
  scope = a.scope;
  at = a.at;
  reached = a.reached;
  accepted = a.accepted;
  applied = a.applied;
  later = then a.later step;
  kept = same ∙ a.kept;
}

Confirmed-Step :
    {after : HoldRecord} (h k : HoldRecord) → Step h k → Confirmed after h → Confirmed after k
Confirmed-Step h k step c = record {
  handed = c.handed;
  confirmed = c.confirmed;
  delivered = c.delivered;
  marked = c.marked;
  later = then c.later step;
}

Cancelled-Step :
    {input : OpenHoldInput} {now : ℕ} (h k : HoldRecord)
    → Step h k
    → Cancelled input now h
    → Cancelled input now k
Cancelled-Step h k step c = record {
  before = c.before;
  reason = c.reason;
  at = c.at;
  reached = c.reached;
  later = then c.later step;
}

-- A step that leaves phase, ruling and delivery as they are.
History-kept :
    {input : OpenHoldInput} {now : ℕ} (h k : HoldRecord)
    → Step h k
    → k.phase ≡ h.phase
    → k.ruling ≡ h.ruling
    → k.delivery_state ≡ h.delivery_state
    → History input now h
    → History input now k
History-kept h k step phase ruling delivery past = record {
  applied = λ e.
      let (a, confirmed) = past.applied (sym phase ∙ e) in
      (Applied-Step h k step ruling a, λ d. Confirmed-Step h k step (confirmed (sym delivery ∙ d)));
  cancelling = λ e. Cancelled-Step h k step (past.cancelling (sym phase ∙ e));
}

Step-History :
    (input : OpenHoldInput) (now : ℕ) (h k : HoldRecord)
    → Reach input now h
    → Step h k
    → History input now h
    → History input now k
unfolding apply_ruling record_acknowledgement mark_delivery_in_flight mark_delivery_acknowledged
    cancel_hold expire_hold
Step-History input now h k reach (rule msg holds scope at v a) past = record {
  applied = λ e. (
    record {
      before = h;
      after = k;
      msg = msg;
      holds = holds;
      scope = scope;
      at = at;
      reached = reach;
      accepted = v;
      applied = a;
      later = here;
      kept = refl;
    },
    λ d. absurd (ground arith),
  );
  cancelling = λ e. absurd (ground arith);
}
Step-History input now h k reach (acknowledge at e) past =
    History-kept h k (acknowledge at e) (ground arith) (ground arith) (ground arith) past
Step-History input now h k reach (deliver attempt m) past = record {
  applied = λ e.
      let (a, confirmed) = past.applied (ground arith) in
      (Applied-Step h k (deliver attempt m) (ground arith) a, λ d. absurd (ground arith));
  cancelling = λ e. absurd (ground arith);
}
Step-History input now h k reach (confirm m) past = record {
  applied = λ e.
      let (a, confirmed) = past.applied (ground arith) in
      (
        Applied-Step h k (confirm m) (ground arith) a,
        λ d. record { handed = h; confirmed = k; delivered = a.later; marked = m; later = here },
      );
  cancelling = λ e. absurd (ground arith);
}
Step-History input now h k reach (cancel reason at e) past = record {
  applied = λ p. absurd (ground arith);
  cancelling =
      λ p. record { before = h; reason = reason; at = at; reached = reach; later = rw e here };
}
Step-History input now h k reach (expire at e) past =
    History-kept h k (expire at e) (ground arith) (ground arith) (ground arith) past

pub Reach-History :
    {input : OpenHoldInput} {now : ℕ} {h : HoldRecord} → Reach input now h → History input now h
unfolding create_hold_record
Reach-History created = record { applied = λ e. absurd (cc); cancelling = λ e. absurd (cc) }
Reach-History {input} {now} (next {h} {k} r s) = Step-History input now h k r s (Reach-History r)
