-- ===== src/Bank/Schema.antt =====
-- packages/db/src/schema: the rows of the five banking tables, and the database as a value.
-- An id is a UUID read as a number: the services compare ids for equality, and sort them by their
-- text, which orders canonical UUIDs as the numbers are ordered. A time is a number of milliseconds.
use express_monorepo_bank_te.Base.{ℕ, ◌^◌, String, Bool, true, false, Option, List, []}
use express_monorepo_bank_te.Bank.Errors.{ErrorCode}

pub record Customer : Type 0 where
  pub id : ℕ
  pub seq : ℕ
  pub name : String
  pub created_at : ℕ

pub record Account : Type 0 where
  pub id : ℕ
  pub seq : ℕ
  pub customer_id : ℕ
  pub balance_cents : ℕ
  pub created_at : ℕ

pub data TransferStatus : Type 0 where
  pending completed failed : TransferStatus

-- `from_account_id` is `none` for an account-opening deposit.
pub record Transfer : Type 0 where
  pub id : ℕ
  pub seq : ℕ
  pub idempotency_key : Option String
  pub request_hash : Option String
  pub from_account_id : Option ℕ
  pub to_account_id : ℕ
  pub amount_cents : ℕ
  pub status : TransferStatus
  pub failure_reason : Option ErrorCode
  pub created_at : ℕ
  pub completed_at : Option ℕ

-- `released_at` is `none` while the lock is active.
pub record AccountLock : Type 0 where
  pub id : ℕ
  pub seq : ℕ
  pub account_id : ℕ
  pub reason : String
  pub created_at : ℕ
  pub released_at : Option ℕ

pub record AccountComment : Type 0 where
  pub id : ℕ
  pub seq : ℕ
  pub account_id : ℕ
  pub body : String
  pub created_at : ℕ

-- The identity columns' counters: the next value of `seq` in each table.
pub record Sequences : Type 0 where
  pub customers : ℕ
  pub accounts : ℕ
  pub transfers : ℕ
  pub locks : ℕ
  pub comments : ℕ

-- Rows in insertion order.
pub record Db : Type 0 where
  pub customers : List Customer
  pub accounts : List Account
  pub transfers : List Transfer
  pub locks : List AccountLock
  pub comments : List AccountComment
  pub sequences : Sequences

abbrev pub empty : Db
empty = record {
  customers = [];
  accounts = [];
  transfers = [];
  locks = [];
  comments = [];
  sequences = record { customers = 1; accounts = 1; transfers = 1; locks = 1; comments = 1 };
}

-- The columns of money are `bigint`, a signed 64-bit integer.
abbrev pub bigint_limit : ℕ
bigint_limit = 2 ^ 63

abbrev pub is_pending : TransferStatus → Bool
is_pending pending = true
is_pending _ = false

abbrev pub is_completed : TransferStatus → Bool
is_completed completed = true
is_completed _ = false
