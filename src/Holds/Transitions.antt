-- ===== src/Holds/Transitions.antt =====
-- The transitions of a hold in hold-state.ts. `none` is a thrown error.
use taskplane.Base.{ℕ, if◌then◌else◌, not, ◌||◌, List, [], ◌∷◌, Option, none, some, Text, text_eq}
use taskplane.Holds.Records.{
  released, cancelled, pending, in_flight, acknowledged, RulingActor, HoldRecord, MailboxMessage,
}
use taskplane.Holds.Authority.{is_open, is_released, is_none}

abbrev pub or_else {ℓ} : {A : Type ℓ} → Option A → A → A
or_else none d = d
or_else (some a) d = a

release : HoldRecord → MailboxMessage → ℕ → RulingActor → HoldRecord
release hold msg now actor = record hold {
  phase = released;
  ruling = some (record {
    id = msg.id;
    reply_to = or_else msg.reply_to hold.escalation_id;
    actor = actor;
    instructions = msg.content;
    accepted_at = now;
  });
  delivery_state = pending;
}

abbrev release_by : HoldRecord → MailboxMessage → ℕ → Option RulingActor → Option HoldRecord
release_by hold msg now none = none
release_by hold msg now (some actor) = some (release hold msg now actor)

unfoldable pub apply_ruling : HoldRecord → MailboxMessage → ℕ → Option HoldRecord
unfolding release
apply_ruling hold msg now =
    if not (is_open hold.phase) then none else release_by hold msg now msg.actor

unfoldable pub record_acknowledgement : HoldRecord → ℕ → HoldRecord
record_acknowledgement hold now = record hold { last_acknowledged_at = some now }

unfoldable pub mark_delivery_in_flight : HoldRecord → Text → Option HoldRecord
mark_delivery_in_flight hold attempt_id =
    if not (is_released hold.phase)
    then none
    else some (record hold { delivery_state = in_flight; delivery_attempt_id = some attempt_id })

unfoldable pub mark_delivery_acknowledged : HoldRecord → Option HoldRecord
mark_delivery_acknowledged hold =
    if not (is_released hold.phase)
    then none
    else some (record hold { delivery_state = acknowledged })

unfoldable pub cancel_hold : HoldRecord → Text → ℕ → HoldRecord
cancel_hold hold reason now = record hold {
  phase = cancelled;
  cancel_reason = some reason;
  cancelled_at = some now;
}

unfoldable pub expire_hold : HoldRecord → ℕ → HoldRecord
expire_hold hold now =
    if not (is_open hold.phase) || not (is_none hold.expired_at)
    then hold
    else record hold { expired_at = some now }

-- The first record with the same escalation id is replaced.
unfoldable pub upsert_hold : List HoldRecord → HoldRecord → List HoldRecord
upsert_hold [] r = r ∷ []
upsert_hold (h ∷ holds) r =
    let rest = upsert_hold holds r in
    if text_eq h.escalation_id r.escalation_id then r ∷ holds else h ∷ rest
