-- ===== src/RootProtocol.antt =====
-- How a `run` under a live root reads the root's answer: src/root_v1.rs.
pub mod Json
pub mod Base64
pub mod Reference
pub mod Stage
pub mod Decode
pub mod Background
pub mod Retained
mod Tests
