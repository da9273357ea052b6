-- ===== src/Holds/Rulings.antt =====
-- `classifyHoldMail` and `validateRuling` of hold-state.ts.
use taskplane.Base.{
  if◌then◌else◌, Bool, true, false, not, List, [], ◌∷◌, is_empty, Option, none, some, Text, text,
  text_eq, has,
}
use taskplane.Base.Chars.{trim}
use taskplane.Holds.Records.{
  MessageType, query, abort, info, ruling_message, MailboxMessage, RulingActor, HoldRecord,
}
use taskplane.Holds.Authority.{unresolved_holds_for_unit, hold_binds_unit, find_hold, is_open}

pub data HoldMailKind : Type 0 where
  ruling_mail ack_mail query_mail abort_mail ignore : HoldMailKind

-- `steer` is ordinary mail: it does not release a hold.
abbrev mail_kind : MessageType → HoldMailKind
mail_kind ruling_message = ruling_mail
mail_kind info = ack_mail
mail_kind query = query_mail
mail_kind abort = abort_mail
mail_kind _ = ignore

unfoldable pub classify_hold_mail :
    MailboxMessage → List HoldRecord → Text → Option Text → HoldMailKind
unfolding unresolved_holds_for_unit
classify_hold_mail msg holds task_id segment_id =
    if is_empty (unresolved_holds_for_unit holds task_id segment_id)
    then ignore
    else mail_kind msg.type

pub data RulingError : Type 0 where
  not_a_ruling missing_reply_to unknown_escalation wrong_unit wrong_execution not_open
        missing_actor :
      RulingError
  invalid_role empty_instructions : RulingError

pub data RulingValidation : Type 0 where
  valid : HoldRecord → RulingValidation
  invalid : RulingError → RulingValidation

pub record RulingScope : Type 0 where
  pub task_id : Text
  pub segment_id : Option Text
  pub execution_id : Option Text

abbrev is_ruling : MessageType → Bool
is_ruling ruling_message = true
is_ruling _ = false

-- `VALID_ROLES`.
abbrev pub valid_roles : List Text
valid_roles = text "supervisor" ∷ text "operator" ∷ []

-- `scope.executionId !== undefined && hold.executionId !== scope.executionId`.
abbrev pub other_execution : Option Text → Text → Bool
other_execution none execution_id = false
other_execution (some e) execution_id = not (text_eq execution_id e)

-- The checks of the actor and of the instructions.
unfoldable pub check_actor : Option RulingActor → Text → HoldRecord → RulingValidation
unfolding trim has
check_actor none content hold = invalid missing_actor
check_actor (some actor) content hold =
    if is_empty actor.id
    then invalid missing_actor
    else (if not (has actor.role valid_roles)
        then invalid invalid_role
        else (if is_empty (trim content) then invalid empty_instructions else valid hold))

-- The checks of the hold that the ruling names.
unfoldable pub check_hold : MailboxMessage → RulingScope → HoldRecord → RulingValidation
unfolding hold_binds_unit check_actor
check_hold msg scope hold =
    if not (hold_binds_unit hold scope.task_id scope.segment_id)
    then invalid wrong_unit
    else (if other_execution scope.execution_id hold.execution_id
        then invalid wrong_execution
        else (if not (is_open hold.phase)
            then invalid not_open
            else check_actor msg.actor msg.content hold))

abbrev pub check_found : MailboxMessage → RulingScope → Option HoldRecord → RulingValidation
check_found msg scope none = invalid unknown_escalation
check_found msg scope (some hold) = check_hold msg scope hold

abbrev pub check_reply :
    MailboxMessage → List HoldRecord → RulingScope → Option Text → RulingValidation
check_reply msg holds scope none = invalid missing_reply_to
check_reply msg holds scope (some reply_to) =
    if is_empty reply_to
    then invalid missing_reply_to
    else check_found msg scope (find_hold holds reply_to)

unfoldable pub validate_ruling : MailboxMessage → List HoldRecord → RulingScope → RulingValidation
unfolding find_hold check_hold
validate_ruling msg holds scope =
    if not (is_ruling msg.type)
    then invalid not_a_ruling
    else check_reply msg holds scope msg.reply_to
