-- ===== src/Compare.antt =====
-- src/upgrade_guard/compare: the gates on measurements.
pub mod Memory
pub mod Validity
mod Tests
