-- ===== src/Resume.antt =====
-- extensions/taskplane/resume.ts: how a persisted batch is taken up again.
pub mod Eligibility
pub mod Frontier
pub mod Reconcile
pub mod Point
pub mod Pin
pub mod Samples
mod Tests
