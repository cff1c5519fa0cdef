-- ===== src/Bank/Transfers/Executor.antt =====
-- packages/shared/src/transfers: the executor's transaction, and the processor of queue jobs.
use express_monorepo_bank_te.Base.{
  ℕ, ◌+◌, ◌-◌, String, Bool, true, false, ◌&&◌, ◌||◌, not, Option, none, some, List, [], ◌∷◌, ltb,
  leb, ◌==◌, str_eq, if◌then◌else◌, is_some, select,
}
use express_monorepo_bank_te.Base.Table.{find_by, update_by}
use express_monorepo_bank_te.Bank.Errors.{
  ErrorCode, account_not_found, account_locked, insufficient_funds, AppError, not_found_error,
  unprocessable_error, check_violation, out_of_range, Failure, app, plain, query_error,
}
use express_monorepo_bank_te.Bank.Schema.{
  Account, Transfer, completed, failed, AccountLock, bigint_limit, is_pending,
}
use express_monorepo_bank_te.Bank.Tx.{
  Tx, ok, err, pure, throw, gets, or_throw, ◌>>=◌, ◌>>◌, throw_if, transaction, catch,
}

-- `transferFailureError`
unfoldable pub transfer_failure_error : String → AppError
transfer_failure_error reason =
    if str_eq reason "INSUFFICIENT_FUNDS"
    then unprocessable_error insufficient_funds
    else if str_eq reason "ACCOUNT_LOCKED"
    then unprocessable_error account_locked
    else unprocessable_error insufficient_funds

-- `[fromAccountId, toAccountId].sort()`
abbrev pub lock_order : ℕ → ℕ → List ℕ
lock_order from to = if leb from to then from ∷ to ∷ [] else to ∷ from ∷ []

-- The loop of SELECT … FOR UPDATE; `row_by_id` is the map of the rows read so far.
unfoldable pub lock_rows : List ℕ → List Account → Tx (List Account)
lock_rows [] row_by_id = pure row_by_id
lock_rows (id ∷ ids) row_by_id = do
  row ← gets (λ db. find_by Account.id id db.accounts)
  found ← or_throw row (app (not_found_error account_not_found))
  lock_rows ids (found ∷ row_by_id)

-- A lock of one of the two accounts that has not been released.
abbrev pub blocks : ℕ → ℕ → AccountLock → Bool
blocks from to l = (l.account_id == from || l.account_id == to) && not (is_some l.released_at)

abbrev pub non_empty {ℓ} : {A : Type ℓ} → List A → Bool
non_empty [] = false
non_empty (x ∷ xs) = true

-- `!source || source.balanceCents < amountCents`
abbrev pub lacks_funds : Option Account → ℕ → Bool
lacks_funds none amount = true
lacks_funds (some source) amount = ltb source.balance_cents amount

-- `set balance_cents = balance_cents - amount where id = from`, under the check on the column.
unfoldable pub debit : ℕ → ℕ → Tx (Unit {0})
debit from amount db =
    if lacks_funds (find_by Account.id from db.accounts) amount
      && is_some (find_by Account.id from db.accounts)
    then (err (query_error check_violation), db)
    else (
      ok tt,
      record db {
        accounts =
            update_by Account.id from (λ a. record a { balance_cents = a.balance_cents - amount })
              db.accounts;
      },
    )

abbrev pub overflows : Option Account → ℕ → Bool
overflows none amount = false
overflows (some a) amount = leb bigint_limit (a.balance_cents + amount)

-- `set balance_cents = balance_cents + amount where id = to`, in the range of the column.
unfoldable pub credit : ℕ → ℕ → Tx (Unit {0})
credit to amount db =
    if overflows (find_by Account.id to db.accounts) amount
    then (err (query_error out_of_range), db)
    else (
      ok tt,
      record db {
        accounts =
            update_by Account.id to (λ a. record a { balance_cents = a.balance_cents + amount })
              db.accounts;
      },
    )

abbrev pub mark_completed : ℕ → Transfer → Transfer
mark_completed now t = record t { status = completed; completed_at = some now }

abbrev pub mark_failed : ℕ → ErrorCode → Transfer → Transfer
mark_failed now reason t = record t {
  status = failed;
  failure_reason = some reason;
  completed_at = some now;
}

-- `update(transfers).set(…).where(id).returning()`
unfoldable pub update_transfer : ℕ → (Transfer → Transfer) → Tx (Option Transfer)
update_transfer id f db =
    let rows = update_by Transfer.id id f db.transfers in
    (ok (find_by Transfer.id id rows), record db { transfers = rows })

-- The body of the executor's transaction.
unfoldable pub move_funds : ℕ → ℕ → ℕ → ℕ → ℕ → Tx Transfer
unfolding lock_rows debit credit update_transfer transfer_failure_error
move_funds now id from to amount = do
  row_by_id ← lock_rows (lock_order from to) []
  locked_rows ← gets (λ db. select (blocks from to) db.locks)
  throw_if (non_empty locked_rows) (app (transfer_failure_error "ACCOUNT_LOCKED"))
  throw_if (lacks_funds (find_by Account.id from row_by_id) amount)
      (app (transfer_failure_error "INSUFFICIENT_FUNDS"))
  debit from amount
  credit to amount
  row ← update_transfer id (mark_completed now)
  or_throw row plain

-- The `catch` of `execute`: a business rejection is written on the transfer row, then rethrown.
unfoldable pub record_failure : ℕ → ℕ → Failure → Tx Transfer
unfolding update_transfer
record_failure now id (app (unprocessable_error reason)) =
    update_transfer id (mark_failed now reason) >> throw (app (unprocessable_error reason))
record_failure now id e = throw e

-- `TransferExecutor.execute` by the source account of the row: a deposit has none.
unfoldable pub execute_from : ℕ → Transfer → Option ℕ → Tx Transfer
unfolding move_funds record_failure
execute_from now t none = throw plain
execute_from now t (some from) =
    catch (transaction (move_funds now t.id from t.to_account_id t.amount_cents))
      (record_failure now t.id)

-- `TransferExecutor.execute`, on a row that the caller has read.
unfoldable pub execute : ℕ → Transfer → Tx Transfer
unfolding execute_from
execute now t = execute_from now t t.from_account_id

-- The `catch` of the processor: a rejection ends the job, any other error is thrown for a retry.
unfoldable pub settle_job : Failure → Tx (Unit {0})
settle_job (app (unprocessable_error reason)) = pure tt
settle_job e = throw e

-- The job processor, once the row has been read.
unfoldable pub process_row : ℕ → Option Transfer → Tx (Unit {0})
unfolding execute settle_job
process_row now none = pure tt
process_row now (some row) =
    if is_pending row.status then catch (execute now row >> pure tt) settle_job else pure tt

-- `createTransferProcessor`: one delivery of the job of a transfer, with no other in between.
unfoldable pub process : ℕ → ℕ → Tx (Unit {0})
unfolding process_row
process now transfer_id = do
  row ← gets (λ db. find_by Transfer.id transfer_id db.transfers)
  process_row now row
