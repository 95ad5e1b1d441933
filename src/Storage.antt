-- ===== src/Storage.antt =====
-- The storage of the skills (crates/athena-voice-storage).
pub mod Events
pub mod SkillKv
pub mod Tmp
