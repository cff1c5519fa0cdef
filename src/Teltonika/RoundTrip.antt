-- ===== src/Teltonika/RoundTrip.antt =====
-- The parser undoes the encoder.
pub mod Reads
pub mod Records
pub mod Frames
