-- ===== src/Sessions.antt =====
-- The sessions of the runtime (crates/athena-voice-runtime/src/session).
pub mod Manager
