-- ===== src/Telemetry.antt =====
-- From a decoded packet to stored events: packages/teltonika (normalize), packages/events, apps/telemetry-ingest.
pub mod AvlId
pub mod Events
pub mod Ingest
pub mod Engine
pub mod Writers
pub mod Kafka
pub mod Vehicles
pub mod EngineWriter
pub mod Consumers
pub mod Schema
