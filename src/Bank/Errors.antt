-- ===== src/Bank/Errors.antt =====
-- packages/shared/src/errors.ts: the errors that handlers throw and the HTTP status of each, and
-- what the database driver throws.
use express_monorepo_bank_te.Base.{ℕ, Bool, true, false, Option, none, some, if◌then◌else◌}

pub data ErrorCode : Type 0 where
  validation_error unauthorized invalid_credentials email_taken not_found : ErrorCode
  customer_not_found account_not_found transfer_not_found lock_not_found : ErrorCode
  lock_already_released idempotency_key_reused account_locked insufficient_funds : ErrorCode
  same_account service_unavailable internal_error : ErrorCode

-- The subclasses of `AppError`, without the message and the details.
pub data AppError : Type 0 where
  unauthorized_error : ErrorCode → AppError
  not_found_error : ErrorCode → AppError
  conflict_error : ErrorCode → AppError
  unprocessable_error : ErrorCode → AppError

unfoldable pub status : AppError → ℕ
status (unauthorized_error c) = 401
status (not_found_error c) = 404
status (conflict_error c) = 409
status (unprocessable_error c) = 422

abbrev pub code : AppError → ErrorCode
code (unauthorized_error c) = c
code (not_found_error c) = c
code (conflict_error c) = c
code (unprocessable_error c) = c

-- PostgreSQL's error codes: 23505, 23503, 23514 and 22003.
pub data SqlState : Type 0 where
  unique_violation foreign_key_violation check_violation out_of_range : SqlState

-- An error object of the driver: its `code`, where it has one, and its `cause`.
pub data Cause : Type 0 where
  end : Cause
  link : Option SqlState → Cause → Cause

-- What a promise may reject with: an `AppError`, a driver's error, or a plain `Error`.
pub data Failure : Type 0 where
  app : AppError → Failure
  driver : Cause → Failure
  plain : Failure

-- Drizzle wraps the error of `pg` once.
abbrev pub query_error : SqlState → Failure
query_error s = driver (link none (link (some s) end))

has_unique_code : Option SqlState → Bool
has_unique_code (some unique_violation) = true
has_unique_code _ = false

walk_causes : Cause → Bool
unfolding has_unique_code
walk_causes end = false
walk_causes (link c rest) =
    let deeper = walk_causes rest in if has_unique_code c then true else deeper

-- `isUniqueViolation`: an `AppError` has a code of its own, and a plain error has none.
unfoldable pub is_unique_violation : Failure → Bool
unfolding walk_causes has_unique_code
is_unique_violation (driver c) = walk_causes c
is_unique_violation _ = false
