-- ===== src/Bank/Accounts.antt =====
-- apps/app-apis/src/modules/accounts/service.ts.
pub mod History
pub mod Opening
use express_monorepo_bank_te.Base.{
  ℕ, suc, Bool, true, false, ◌&&◌, ◌||◌, not, Option, none, some, List, [], ◌∷◌, map, length, take,
  ltb, leb, ◌==◌, if◌then◌else◌, is_some, select,
}
use express_monorepo_bank_te.Base.Table.{find_by, sum_of}
use express_monorepo_bank_te.Base.Order.{order_desc, last_key}
use express_monorepo_bank_te.Bank.Errors.{
  customer_not_found, account_not_found, not_found_error, app, plain,
}
use express_monorepo_bank_te.Bank.Schema.{Customer, Account, Transfer, completed, AccountLock, Db}
use express_monorepo_bank_te.Bank.Tx.{Tx, ok, pure, gets, or_throw, ◌>>=◌, ◌>>◌, transaction}
use express_monorepo_bank_te.Bank.Inserts.{NewTransfer, insert_account, insert_transfer}
use express_monorepo_bank_te.Bank.Transfers.Dto.{TransferDto, to_transfer_dto}

-- The row of an opening deposit.
abbrev pub opening_deposit : ℕ → ℕ → ℕ → NewTransfer
opening_deposit now account_id amount = record {
  idempotency_key = none;
  request_hash = none;
  from_account_id = none;
  to_account_id = account_id;
  amount_cents = amount;
  status = completed;
  completed_at = some now;
}

-- `if (initialDepositCents > 0) await tx.insert(transfers)…`
unfoldable pub record_deposit : ℕ → ℕ → ℕ → ℕ → Tx (Unit {0})
record_deposit id now account_id amount =
    if ltb 0 amount
    then insert_transfer id now (opening_deposit now account_id amount) >> pure tt
    else pure tt

-- The body of the transaction in `create`.
unfoldable pub open_account : ℕ → ℕ → ℕ → ℕ → ℕ → Tx Account
open_account id transfer_id now customer_id initial_deposit_cents = do
  customer ← gets (λ db. find_by Customer.id customer_id db.customers)
  or_throw customer (app (not_found_error customer_not_found))
  inserted ← insert_account id now customer_id initial_deposit_cents
  account ← or_throw inserted plain
  record_deposit transfer_id now account.id initial_deposit_cents
  pure account

-- `AccountService.create`, with the ids that the database draws for the account and the deposit.
unfoldable pub create : ℕ → ℕ → ℕ → ℕ → ℕ → Tx Account
create id transfer_id now customer_id initial_deposit_cents =
    transaction (open_account id transfer_id now customer_id initial_deposit_cents)

-- `AccountService.getById`
unfoldable pub get_by_id : ℕ → Tx Account
get_by_id account_id = do
  account ← gets (λ db. find_by Account.id account_id db.accounts)
  or_throw account (app (not_found_error account_not_found))

-- `{ ...account, locked }`
pub record AccountDetail : Type 0 where
  pub account : Account
  pub locked : Bool

abbrev pub is_active_lock : ℕ → AccountLock → Bool
is_active_lock account_id l = l.account_id == account_id && not (is_some l.released_at)

-- `AccountService.getDetail`; LIMIT 1 keeps a first row where there is one.
unfoldable pub get_detail : ℕ → Tx AccountDetail
unfolding get_by_id
get_detail account_id = do
  account ← get_by_id account_id
  rows ← gets (λ db. select (is_active_lock account_id) db.locks)
  pure (record { account = account; locked = ltb 0 (length (take 1 rows)) })

pub record Balance : Type 0 where
  pub account_id : ℕ
  pub balance_cents : ℕ

-- `AccountService.getBalance`
unfoldable pub get_balance : ℕ → Tx Balance
unfolding get_by_id
get_balance account_id = do
  account ← get_by_id account_id
  pure (record { account_id = account.id; balance_cents = account.balance_cents })

abbrev pub is_from : ℕ → Option ℕ → Bool
is_from account_id none = false
is_from account_id (some from) = from == account_id

-- The `direction` filter: transfers out of the account or into it.
abbrev pub touches : ℕ → Transfer → Bool
touches account_id t = is_from account_id t.from_account_id || t.to_account_id == account_id

-- `cursor === undefined ? direction : and(direction, lt(seq, cursor))`
abbrev pub is_listed : ℕ → Option ℕ → Transfer → Bool
is_listed account_id none t = touches account_id t
is_listed account_id (some cursor) t = touches account_id t && ltb t.seq cursor

pub record HistoryPage : Type 0 where
  pub items : List TransferDto
  pub next_cursor : Option ℕ

-- The rows that one page's query asks for, one more than the page holds, and the page.
abbrev pub page_rows : ℕ → ℕ → Option ℕ → Db → List Transfer
page_rows account_id limit cursor db =
    take (suc limit) (order_desc Transfer.seq (select (is_listed account_id cursor) db.transfers))

-- `rows.length > limit ? (page.at(-1)?.seq ?? null) : null`
abbrev pub page_cursor : ℕ → List Transfer → Option ℕ
page_cursor limit rows =
    if ltb limit (length rows) then last_key Transfer.seq (take limit rows) else none

-- `AccountService.getHistory`
unfoldable pub get_history : ℕ → ℕ → Option ℕ → Tx HistoryPage
unfolding get_by_id
get_history account_id limit cursor = do
  get_by_id account_id
  rows ← gets (page_rows account_id limit cursor)
  pure (record {
    items = map to_transfer_dto (take limit rows);
    next_cursor = page_cursor limit rows;
  })

-- `AccountService.totalBalanceCents`
unfoldable pub total_balance_cents : Tx ℕ
total_balance_cents = gets (λ db. sum_of Account.balance_cents db.accounts)
