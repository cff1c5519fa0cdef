-- ===== src/Teltonika.antt =====
-- packages/teltonika: the tracker's binary protocol. A buffer is a list of bytes.
pub mod Bytes
pub mod Crc
pub mod Cursor
pub mod Avl
pub mod Testing
pub mod RoundTrip
pub mod Imei
pub mod Ack
pub mod Framer
