-- ===== src/Assist.antt =====
-- The assist bridge: text questions and answers over MQTT (crates/athena-voice-runtime/src/assist).
pub mod Topics
pub mod Actor
pub mod Bridge
