-- ===== src/Supervisor.antt =====
-- The parts of src/supervisor.rs.
pub mod Sentinel
pub mod Cancellation
pub mod Metadata
pub mod Terminal
pub mod Finish
pub mod Cancel
