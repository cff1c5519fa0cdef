-- ===== src/Bank/Ledger.antt =====
-- The ledger's invariant: every balance is what the completed transfers say it is.
pub mod Moves
pub mod Processing
pub mod Delivery
pub mod Execution
pub mod Settling
pub mod Creating
use express_monorepo_bank_te.Base.{
  ℕ, ◌+◌, Bool, false, ◌&&◌, Option, none, some, List, ◌≡◌, ◌==◌, if◌then◌else◌,
}
use express_monorepo_bank_te.Base.Table.{find_by, DistinctKeys, sum_of}
use express_monorepo_bank_te.Bank.Schema.{Account, Transfer, Db, is_completed}

-- The balance of an account, zero where there is none.
abbrev pub balance_of : ℕ → List Account → ℕ
balance_of a accounts = elim (find_by Account.id a accounts) [ none ↦ 0 | some r ↦ r.balance_cents ]

abbrev pub is_source : ℕ → Option ℕ → Bool
is_source a none = false
is_source a (some from) = from == a

-- What a transfer has paid into an account, and out of it.
abbrev pub credit_of : ℕ → Transfer → ℕ
credit_of a t = if is_completed t.status && t.to_account_id == a then t.amount_cents else 0

abbrev pub debit_of : ℕ → Transfer → ℕ
debit_of a t = if is_completed t.status && is_source a t.from_account_id then t.amount_cents else 0

abbrev pub credits : ℕ → List Transfer → ℕ
credits a = sum_of (credit_of a)

abbrev pub debits : ℕ → List Transfer → ℕ
debits a = sum_of (debit_of a)

-- Ids are unique, and each account holds its completed credits less its completed debits.
pub record IsReconciled (db : Db) : Type 0 where
  pub accounts_distinct : DistinctKeys Account.id db.accounts
  pub transfers_distinct : DistinctKeys Transfer.id db.transfers
  pub balanced : (a : ℕ) → balance_of a db.accounts + debits a db.transfers ≡ credits a db.transfers
