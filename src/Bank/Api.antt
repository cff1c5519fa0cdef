-- ===== src/Bank/Api.antt =====
-- The HTTP side of apps/app-apis: validation, authentication and routes.
pub mod Validation
pub mod Access
pub mod Routes
pub mod Documented
