-- ===== src/Bank/Responses.antt =====
-- packages/shared/src/middleware/error-handler.ts: the status and the code of an error's response.
use express_monorepo_bank_te.Base.{ℕ}
use express_monorepo_bank_te.Bank.Errors.{
  ErrorCode, validation_error, not_found, internal_error, not_found_error, status, code, Failure,
  app, driver, plain,
}

-- What reaches the handler: a ZodError of a request's validation, or an error of a handler.
pub data Thrown : Type 0 where
  zod_error : Thrown
  failure : Failure → Thrown

-- `notFoundHandler`
abbrev pub not_found_handler : Thrown
not_found_handler = failure (app (not_found_error not_found))

-- `errorHandler`
unfoldable pub error_handler : Thrown → ℕ × ErrorCode
unfolding status
error_handler zod_error = (400, validation_error)
error_handler (failure (app e)) = (status e, code e)
error_handler (failure (driver cause)) = (500, internal_error)
error_handler (failure plain) = (500, internal_error)
