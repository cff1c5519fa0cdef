-- ===== src/Bank/Transfers/Service.antt =====
-- apps/app-apis/src/modules/transfers/service.ts and `enqueueTransfer` of packages/queue.
pub mod Accepting
pub mod Retrying
use express_monorepo_bank_te.Base.{
  ℕ, String, Bool, true, false, ◌||◌, not, Option, none, some, List, [], ◌∷◌, ◌++◌, map, ◌==◌,
  str_eq, if◌then◌else◌, select, any_of,
}
use express_monorepo_bank_te.Base.Table.{find_by}
use express_monorepo_bank_te.Bank.Errors.{
  account_not_found, transfer_not_found, idempotency_key_reused, same_account, not_found_error,
  conflict_error, unprocessable_error, Failure, app, plain, is_unique_violation,
}
use express_monorepo_bank_te.Bank.Schema.{Account, Transfer, pending, Db, is_pending}
use express_monorepo_bank_te.Bank.Tx.{
  Result, ok, err, Exec, Tx, pure, throw, gets, or_throw, attempt, ◌>>=◌, ◌>>◌, throw_if,
}
use express_monorepo_bank_te.Bank.Inserts.{NewTransfer, find_by_key, insert_transfer}

-- A call of `queue.add` that the queue accepted: the job's data and its id.
pub record Job : Type 0 where
  pub transfer_id : ℕ
  pub job_id : String

-- What the API service works on: the database, and the calls that it has made of the queue.
pub record System : Type 0 where
  pub db : Db
  pub jobs : List Job

-- `this.db…`
abbrev pub query : {A : Type 0} → Tx A → Exec System A
query m s = let (r, db') = m s.db in (r, record s { db = db' })

pub record CreateTransferInput : Type 0 where
  pub idempotency_key : String
  pub from_account_id : ℕ
  pub to_account_id : ℕ
  pub amount_cents : ℕ

-- `created` is true for a new transfer and false for an idempotent replay.
pub record CreateTransferResult : Type 0 where
  pub transfer : Transfer
  pub created : Bool

-- `enqueueTransfer`: `queue.add` may be refused (`accepts` is false), as when Redis is down.
unfoldable pub enqueue_transfer : Bool → ℕ → String → Exec System (Unit {0})
enqueue_transfer accepts transfer_id key s =
    if accepts
    then (
      ok tt,
      record s { jobs = s.jobs ++ record { transfer_id = transfer_id; job_id = key } ∷ [] },
    )
    else (err plain, s)

-- `assertAccountsExist`: one query, and a test for each of the two ids.
unfoldable pub assert_accounts_exist : CreateTransferInput → Tx (Unit {0})
assert_accounts_exist input = do
  rows ← gets (λ db.
      select (λ a. Account.id a == input.from_account_id || Account.id a == input.to_account_id)
        db.accounts)
  let found = map Account.id rows
  throw_if (not (any_of (λ id. id == input.from_account_id) found))
      (app (not_found_error account_not_found))
  throw_if (not (any_of (λ id. id == input.to_account_id) found))
      (app (not_found_error account_not_found))

abbrev pub hash_differs : Option String → String → Bool
hash_differs none hash = true
hash_differs (some h) hash = not (str_eq h hash)

-- `TransferService.replay`
unfoldable pub replay : Bool → String → String → Exec System CreateTransferResult
unfolding enqueue_transfer
replay accepts key hash = do
  found ← query (gets (λ db. find_by_key key db.transfers))
  row ← or_throw found plain
  throw_if (hash_differs row.request_hash hash) (app (conflict_error idempotency_key_reused))
  if is_pending row.status
      then enqueue_transfer accepts row.id key >> pure (record { transfer = row; created = false })
      else pure (record { transfer = row; created = false })

-- `TransferService.getById`
unfoldable pub get_by_id : ℕ → Tx Transfer
get_by_id transfer_id = do
  row ← gets (λ db. find_by Transfer.id transfer_id db.transfers)
  or_throw row (app (not_found_error transfer_not_found))

-- `digest` is the hexadecimal SHA-256 of the JSON text of the two ids and the amount.
module _ (digest : ℕ → ℕ → ℕ → String) where
  abbrev pub hash_request : CreateTransferInput → String
  hash_request input = digest input.from_account_id input.to_account_id input.amount_cents

  abbrev pub new_transfer : CreateTransferInput → NewTransfer
  new_transfer input = record {
    idempotency_key = some input.idempotency_key;
    request_hash = some (hash_request input);
    from_account_id = some input.from_account_id;
    to_account_id = input.to_account_id;
    amount_cents = input.amount_cents;
    status = pending;
    completed_at = none;
  }

  -- The end of `create`, after the `try` around the insert.
  unfoldable pub finish_create :
      Bool → CreateTransferInput → Result Transfer → Exec System CreateTransferResult
  finish_create accepts input (ok row) = do
    enqueue_transfer accepts row.id input.idempotency_key
    pure (record { transfer = row; created = true })
  finish_create accepts input (err e) =
      if is_unique_violation e
      then replay accepts input.idempotency_key (hash_request input)
      else throw e

  -- `TransferService.create`, with the id that the database draws and the time.
  unfoldable pub create : Bool → ℕ → ℕ → CreateTransferInput → Exec System CreateTransferResult
  create accepts id now input = do
    throw_if (input.from_account_id == input.to_account_id) (app (unprocessable_error same_account))
    query (assert_accounts_exist input)
    inserted ←
        attempt (query (do row ← insert_transfer id now (new_transfer input); or_throw row plain))
    finish_create accepts input inserted
