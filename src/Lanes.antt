-- ===== src/Lanes.antt =====
-- extensions/taskplane/waves.ts: how the tasks of a wave are shared out among lanes.
pub mod Scopes
pub mod Forest
pub mod Affinity
pub mod Assign
pub mod Repos
pub mod Plan
mod Tests
