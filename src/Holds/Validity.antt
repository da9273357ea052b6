-- ===== src/Holds/Validity.antt =====
-- About the messages that `validateRuling` accepts.
use taskplane.Base.{
  ◌≡◌, ◌↔◌, refl, subst, true, false, List, is_empty, Option, none, some, Text, text_eq_iff, has,
  arith, ◌⊎◌, inl, inr,
}
use taskplane.Base.Chars.{trim}
use taskplane.Holds.Records.{ruling_message, open_hold, RulingActor, MailboxMessage, HoldRecord}
use taskplane.Holds.Authority.{hold_binds_unit, find_hold}
use taskplane.Holds.Rulings.{
  RulingScope, valid, valid_roles, validate_ruling, check_hold, check_actor, other_execution,
  check_reply,
}

-- What makes a message a ruling on a hold of this unit.
pub record Rules (msg : MailboxMessage) (holds : List HoldRecord) (scope : RulingScope)
    (hold : HoldRecord) : Type 0 where
  pub is_ruling : msg.type ≡ ruling_message
  pub names : Text
  pub reply : msg.reply_to ≡ some names
  pub named : is_empty names ≡ false
  pub found : find_hold holds names ≡ some hold
  pub binds : hold_binds_unit hold scope.task_id scope.segment_id ≡ true
  pub execution : (scope.execution_id ≡ none) ⊎ (scope.execution_id ≡ some hold.execution_id)
  pub is_open : hold.phase ≡ open_hold
  pub actor : RulingActor
  pub stamped : msg.actor ≡ some actor
  pub identified : is_empty actor.id ≡ false
  pub role : has actor.role valid_roles ≡ true
  pub instructed : is_empty (trim msg.content) ≡ false

valid_injective : {a b : HoldRecord} → valid a ≡ valid b → a ≡ b
valid_injective h = cc

check_actor-eq-valid :
    (o : Option RulingActor) (content : Text) (hold k : HoldRecord)
    → check_actor o content hold ≡ valid k
    → (a : RulingActor) × (o ≡ some a)
      × (is_empty a.id ≡ false)
      × (has a.role valid_roles ≡ true)
      × (is_empty (trim content) ≡ false)
      × (hold ≡ k)
unfolding check_actor
check_actor-eq-valid none content hold k h = cc
check_actor-eq-valid (some a) content hold k h =
    (a, refl, ground arith, ground arith, ground arith, ground arith)

check_hold-eq-valid :
    (msg : MailboxMessage) (scope : RulingScope) (hold k : HoldRecord)
    → check_hold msg scope hold ≡ valid k
    → (hold_binds_unit hold scope.task_id scope.segment_id ≡ true)
      × ((scope.execution_id ≡ none) ⊎ (scope.execution_id ≡ some hold.execution_id))
      × (hold.phase ≡ open_hold)
      × (check_actor msg.actor msg.content hold ≡ valid k)
unfolding check_hold
check_hold-eq-valid msg scope hold k h =
    (ground arith, execution scope.execution_id (ground arith), ground arith, ground arith)
  where
    execution :
        (o : Option Text)
        → other_execution o hold.execution_id ≡ false
        → (o ≡ none) ⊎ (o ≡ some hold.execution_id)
    execution none e = inl refl
    execution (some x) e = inr (ground (arith, text_eq_iff hold.execution_id x))

check_reply-eq-valid :
    (msg : MailboxMessage) (holds : List HoldRecord) (scope : RulingScope) (o : Option Text)
    (k : HoldRecord)
    → check_reply msg holds scope o ≡ valid k
    → (names : Text) × (o ≡ some names)
      × (is_empty names ≡ false)
      × (hold : HoldRecord) × (find_hold holds names ≡ some hold)
      × (check_hold msg scope hold ≡ valid k)
check_reply-eq-valid msg holds scope none k h = cc
check_reply-eq-valid msg holds scope (some names) k h = go (find_hold holds names) refl
  where
    go :
        (f : Option HoldRecord)
        → find_hold holds names ≡ f
        → (names' : Text) × (some names ≡ some names')
          × (is_empty names' ≡ false)
          × (hold : HoldRecord) × (find_hold holds names' ≡ some hold)
          × (check_hold msg scope hold ≡ valid k)
    go none e = absurd (ground arith)
    go (some hold) e = (names, refl, ground arith, hold, e, ground arith)

validate-Rules :
    (msg : MailboxMessage) (holds : List HoldRecord) (scope : RulingScope) (hold : HoldRecord)
    → validate_ruling msg holds scope ≡ valid hold
    → Rules msg holds scope hold
unfolding validate_ruling
validate-Rules msg holds scope k h =
    let (names, replies, named, hold, found, checked) =
      check_reply-eq-valid msg holds scope msg.reply_to k (ground arith) in
    let (binds, execution, open_, acted) = check_hold-eq-valid msg scope hold k checked in
    let (actor, stamped, identified, role, instructed, same) =
      check_actor-eq-valid msg.actor msg.content hold k acted in
    subst (Rules msg holds scope) same (record {
      is_ruling = ground arith;
      names = names;
      reply = replies;
      named = named;
      found = found;
      binds = binds;
      execution = execution;
      is_open = open_;
      actor = actor;
      stamped = stamped;
      identified = identified;
      role = role;
      instructed = instructed;
    })

Rules-validate :
    (msg : MailboxMessage) (holds : List HoldRecord) (scope : RulingScope) (hold : HoldRecord)
    → Rules msg holds scope hold
    → validate_ruling msg holds scope ≡ valid hold
unfolding validate_ruling
Rules-validate msg holds scope hold r =
    ground (arith, text_eq_iff hold.execution_id hold.execution_id)

-- `validateRuling` accepts a message for a hold exactly if the message is a ruling whose `replyTo`
-- names that hold, the hold is open, binds the unit and stems from the expected execution (where one
-- is expected), and the message has an identified actor with a known role and instructions that are
-- not blank.
pub validate_ruling_iff :
    (msg : MailboxMessage) (holds : List HoldRecord) (scope : RulingScope) (hold : HoldRecord)
    → (validate_ruling msg holds scope ≡ valid hold) ↔ Rules msg holds scope hold
validate_ruling_iff msg holds scope hold =
    (validate-Rules msg holds scope hold, Rules-validate msg holds scope hold)
