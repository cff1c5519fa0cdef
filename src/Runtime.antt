-- ===== src/Runtime.antt =====
-- The entry points of the services under apps/: the environment they load, the health endpoints, and
-- the shutdown on a signal.
pub mod Lists
pub mod Env
pub mod Shutdown
pub mod Health
