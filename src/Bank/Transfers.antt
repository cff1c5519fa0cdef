-- ===== src/Bank/Transfers.antt =====
-- Transfers: packages/shared/src/transfers, packages/queue/src/transfers.ts and
-- apps/app-apis/src/modules/transfers/service.ts.
pub mod Executor
pub mod Dto
pub mod Service
