-- ===== src/Satellite.antt =====
-- The ESP32 satellite (satellite-esp32): its session protocol and its microphone path.
pub mod Session
pub mod Mic
