-- ===== src/Markers.antt =====
-- scripts/qualification_state.py: the markers of a qualification's steps. A marker binds a step to
-- its outputs, to the markers of its direct dependencies and to the locked inputs.
pub mod Tables
pub mod Steps
pub mod Files
pub mod Inventory
pub mod Outcomes
pub mod Lineage
pub mod Corpora
pub mod Ranks
pub mod Walk
pub mod Record
pub mod Verified
pub mod Order
pub mod RoundTrip
pub mod Authority
pub mod Ownership
mod Tests
pub mod Reconcile
