-- ===== src/Waves.antt =====
-- extensions/taskplane/waves.ts: the planner of a batch.
pub mod References
pub mod Graph
pub mod Compute
pub mod Plan
