-- ===== src/Holds/Release.antt =====
-- What has happened to a hold of hold-state.ts that no longer blocks completion.
use taskplane.Base.{ℕ, ◌≡◌, some}
use taskplane.Holds.Records.{HoldRuling, HoldRecord, OpenHoldInput}
use taskplane.Holds.Validity.{Rules}
use taskplane.Holds.History.{Applied, Confirmed, History}

-- The ruling of the hold is the accepted message, which replies to the hold's escalation, and its
-- delivery was confirmed after it had been applied.
pub record IsAuthorized (input : OpenHoldInput) (now : ℕ) (h : HoldRecord) : Type 0 where
  pub ruled : Applied input now h
  pub rules : Rules ruled.msg ruled.holds ruled.scope ruled.before
  pub replies : ruled.msg.reply_to ≡ some input.escalation.id
  pub ruling : HoldRuling
  pub stored : h.ruling ≡ some ruling
  pub same_message : ruling.id ≡ ruled.msg.id
  pub same_actor : some ruling.actor ≡ ruled.msg.actor
  pub same_instructions : ruling.instructions ≡ ruled.msg.content
  pub confirmed : Confirmed ruled.after h
