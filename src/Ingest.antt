-- ===== src/Ingest.antt =====
-- The ingest service (apps/telemetry-ingest/src): MQTT messages in, session rows, telemetry rows and
-- live messages out.
pub mod Sessions
pub mod Counter
pub mod Messages
pub mod Publisher
pub mod Service
pub mod Writer
pub mod Registry
mod Examples
