-- ===== src/Examples.antt =====
-- The theorems at concrete inputs.
pub mod Fixtures
pub mod Books
pub mod Requests
pub mod Devices
pub mod Machine
pub mod Services
pub mod Documents
pub mod Operations
pub mod Fleet
