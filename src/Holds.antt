-- ===== src/Holds.antt =====
-- extensions/taskplane/hold-state.ts: holds that an escalation opens, and the rulings that release
-- them. The human-readable `reason` of a result is left out; its code and ids are kept.
pub mod Records
pub mod Authority
pub mod Rulings
pub mod Transitions
pub mod Outbox
pub mod Lifecycle
pub mod History
pub mod Release
pub mod Blocking
pub mod Validity
pub mod Replay
mod Tests
