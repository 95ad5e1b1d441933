-- ===== src/Mqtt.antt =====
-- Topics: their layout, their parser and the topic filters.
pub mod Topics
pub mod Filter
