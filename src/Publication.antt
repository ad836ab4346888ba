-- ===== src/Publication.antt =====
-- How the original completion of a registered source becomes its published evidence, src/continuation.rs.
pub mod Evidence
pub mod Immutable
pub mod Basis
pub mod Select
pub mod Finish
pub mod Losing
pub mod Recovery
pub mod Story
pub mod Order
pub mod Growth
pub mod Links
pub mod Selects
pub mod Finishes
pub mod Publishes
pub mod Acceptance
pub mod Honest
pub mod Loses
pub mod Recovers
pub mod Accepts
pub mod Refines
mod Tests
