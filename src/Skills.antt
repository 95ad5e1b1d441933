-- ===== src/Skills.antt =====
-- The skills of the repository.
pub mod Timer
pub mod Jeedom
