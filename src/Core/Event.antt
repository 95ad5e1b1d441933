-- ===== src/Core/Event.antt =====
-- Types of crates/athena-voice-core/src/event.rs that the pipeline uses.

pub data AudioFormat : Type 0 where
  s16le opus f32le text : AudioFormat
