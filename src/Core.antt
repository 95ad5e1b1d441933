-- ===== src/Core.antt =====
-- The shared vocabulary of the workspace (crates/athena-voice-core).
pub mod Ids
pub mod Json
pub mod Event
