-- ===== src/Wire.antt =====
-- The names that the ingest service, the API and the cars agree on: MQTT topics and Redis channels.
pub mod Segments
pub mod Topics
pub mod Channels
mod Examples
