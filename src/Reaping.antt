-- ===== src/Reaping.antt =====
-- The removal of old handle directories by src/state.rs.
pub mod Eligible
pub mod Pass
pub mod Work
pub mod Ended
pub mod Owed
pub mod Released
pub mod Limits
pub mod Rotation
mod Tests
