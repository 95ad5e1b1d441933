-- ===== src/Providers.antt =====
-- The provider layer (crates/athena-voice-providers): circuit breaker and retries.
pub mod Circuit
pub mod Retry
