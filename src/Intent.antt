-- ===== src/Intent.antt =====
-- The matching of transcripts to intents (crates/athena-voice-runtime/src/intent).
pub mod Rules
pub mod Engine
