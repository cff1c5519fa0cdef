-- ===== src/OpenApi.antt =====
-- packages/shared/src/openapi/merge.ts: several services' OpenAPI documents as one. A document is a
-- JSON tree; the generator of the documents (`zod-openapi`) and the HTTP fetch are outside.
pub mod Json
pub mod Texts
pub mod Merge
pub mod Docs
