-- ===== src/Pipeline.antt =====
-- The stages of a session (crates/athena-voice-runtime/src/pipeline) between the language model and the
-- satellite: tokens, sentences, audio, messages.
pub mod Sentence
pub mod Channel
pub mod Llm
pub mod Sink
pub mod Tts
pub mod Router
