-- ===== src/Examples/Fixtures.antt =====
-- A bank with two accounts, one of them opened with a deposit, and one transfer waiting.
use express_monorepo_bank_te.Base.{ℕ, String, none, some, [], ◌∷◌, refl, arith}
use express_monorepo_bank_te.Bank.Schema.{
  Customer, Account, Transfer, pending, completed, AccountLock, Db,
}
use express_monorepo_bank_te.Bank.Transfers.Service.{System, CreateTransferInput}
use express_monorepo_bank_te.Bank.Ledger.{IsReconciled}

abbrev pub source : Account
source = record { id = 1; seq = 1; customer_id = 5; balance_cents = 500; created_at = 0 }

abbrev pub target : Account
target = record { id = 2; seq = 2; customer_id = 5; balance_cents = 0; created_at = 0 }

abbrev pub deposit : Transfer
deposit = record {
  id = 11;
  seq = 1;
  idempotency_key = none;
  request_hash = none;
  from_account_id = none;
  to_account_id = 1;
  amount_cents = 500;
  status = completed;
  failure_reason = none;
  created_at = 0;
  completed_at = some 0;
}

abbrev pub waiting : Transfer
waiting = record {
  id = 12;
  seq = 2;
  idempotency_key = some "key";
  request_hash = some "other";
  from_account_id = some 1;
  to_account_id = 2;
  amount_cents = 200;
  status = pending;
  failure_reason = none;
  created_at = 1;
  completed_at = none;
}

abbrev pub customer : Customer
customer = record { id = 5; seq = 1; name = "a"; created_at = 0 }

abbrev pub bank : Db
bank = record {
  customers = customer ∷ [];
  accounts = source ∷ target ∷ [];
  transfers = deposit ∷ waiting ∷ [];
  locks = [];
  comments = [];
  sequences = record { customers = 2; accounts = 3; transfers = 3; locks = 1; comments = 1 };
}

abbrev pub lock : AccountLock
lock = record { id = 7; seq = 1; account_id = 1; reason = "r"; created_at = 3; released_at = none }

abbrev pub locked_bank : Db
locked_bank = record bank { locks = lock ∷ []; sequences = record bank.sequences { locks = 2 } }

-- A source that has less than the amount.
abbrev pub poor_bank : Db
poor_bank = record bank { accounts = record source { balance_cents = 100 } ∷ target ∷ [] }

pub bank-IsReconciled : IsReconciled bank
bank-IsReconciled = record {
  accounts_distinct = (refl, (refl, tt));
  transfers_distinct = (refl, (refl, tt));
  balanced = λ a. ground arith;
}

abbrev pub system : System
system = record { db = bank; jobs = [] }

abbrev pub digest : ℕ → ℕ → ℕ → String
digest from to amount = "hash"

abbrev pub fresh : CreateTransferInput
fresh = record {
  idempotency_key = "new";
  from_account_id = 1;
  to_account_id = 2;
  amount_cents = 50;
}

abbrev pub reused : CreateTransferInput
reused = record fresh { idempotency_key = "key" }
