-- ===== src/Reduce.antt =====
-- src/upgrade_guard/reduce: the reducers of a confirmed failure.
pub mod General
pub mod History
pub mod Workflow
pub mod Candidate
pub mod Shapes
mod Tests
pub mod PublicFailure
