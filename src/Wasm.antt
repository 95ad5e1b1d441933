-- ===== src/Wasm.antt =====
-- What the runtime lets its WebAssembly skills do (crates/athena-voice-runtime/src/wasm).
pub mod Acl
pub mod Host
pub mod Scheduler
