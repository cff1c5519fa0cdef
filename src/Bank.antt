-- ===== src/Bank.antt =====
-- The banking side: packages/shared, packages/db, packages/queue and the services of apps/app-apis.
pub mod Errors
pub mod Responses
pub mod Schema
pub mod Tx
pub mod Inserts
pub mod Transfers
pub mod Accounts
pub mod Locks
pub mod Comments
pub mod Customers
pub mod Ledger
pub mod Api
pub mod Machine
