-- ===== src/Holds/Replay.antt =====
-- About the replay of a worker's outbox.
use taskplane.Base.{
  ℕ, ◌≡◌, refl, true, ◌||◌, List, [], ◌∷◌, map, Option, Text, text_eq, text_eq_iff, text_eq_refl,
  has, arith,
}
use taskplane.Holds.Records.{HoldRecord, MailboxMessage, OpenHoldInput, create_hold_record}
use taskplane.Holds.Transitions.{upsert_hold}
use taskplane.Holds.Outbox.{EscalationScopeFilter, select_unrecorded_escalations}

abbrev ids : List HoldRecord → List Text
ids holds = map (λ (h : HoldRecord). h.escalation_id) holds

-- The hold that is opened for an escalation; the other inputs are `base`.
abbrev pub hold_for : OpenHoldInput → ℕ → MailboxMessage → HoldRecord
hold_for base now m = create_hold_record (record base { escalation = m }) now

-- Holds are opened for the messages, one by one.
abbrev pub record_all : OpenHoldInput → ℕ → List HoldRecord → List MailboxMessage → List HoldRecord
record_all base now holds [] = holds
record_all base now holds (m ∷ ms) =
    record_all base now (upsert_hold holds (hold_for base now m)) ms

has-upsert :
    (k : Text) (holds : List HoldRecord) (r : HoldRecord)
    → has k (ids (upsert_hold holds r)) ≡ (has k (ids holds) || text_eq k r.escalation_id)
unfolding has upsert_hold
has-upsert k [] r = ground arith
has-upsert k (h ∷ holds) r = ground (
  arith,
  has-upsert k holds r,
  text_eq_iff h.escalation_id r.escalation_id,
  text_eq_iff k h.escalation_id,
  text_eq_iff k r.escalation_id,
)

has-record_all :
    (base : OpenHoldInput) (now : ℕ) (k : Text) (holds : List HoldRecord) (ms : List MailboxMessage)
    → has k (ids (record_all base now holds ms))
      ≡ (has k (ids holds) || has k (map (λ (m : MailboxMessage). m.id) ms))
unfolding has create_hold_record
has-record_all base now k holds [] = ground arith
has-record_all base now k holds (m ∷ ms) = ground (
  arith,
  has-record_all base now k (upsert_hold holds (hold_for base now m)) ms,
  has-upsert k holds (hold_for base now m),
)

-- Where the known ids have grown by all that was selected, nothing is selected.
select_none :
    (outbox : List MailboxMessage) (holds more : List HoldRecord) (f : Option EscalationScopeFilter)
    → ((k : Text) → has k (ids holds) ≡ true → has k (ids more) ≡ true)
    → ((k : Text)
        → has k (map (λ (m : MailboxMessage). m.id) (select_unrecorded_escalations outbox holds f))
          ≡ true
        → has k (ids more) ≡ true)
    → select_unrecorded_escalations outbox more f ≡ []
unfolding select_unrecorded_escalations has
select_none [] holds more f grown selected = refl
select_none (m ∷ outbox) holds more f grown selected = ground (
  arith,
  grown m.id,
  selected m.id,
  text_eq_refl m.id,
  select_none outbox holds more f grown (λ k h. selected k (ground arith)),
)

-- After a hold is recorded for each escalation that a replay of the outbox selects, another replay
-- selects none.
pub replay_once :
    (outbox : List MailboxMessage) (holds : List HoldRecord) (f : Option EscalationScopeFilter)
    (base : OpenHoldInput) (now : ℕ)
    → select_unrecorded_escalations outbox
        (record_all base now holds (select_unrecorded_escalations outbox holds f))
        f
      ≡ []
replay_once outbox holds f base now =
    let new = select_unrecorded_escalations outbox holds f in
    select_none outbox holds (record_all base now holds new) f
      (λ k h. ground (arith, has-record_all base now k holds new))
      (λ k h. ground (arith, has-record_all base now k holds new))
