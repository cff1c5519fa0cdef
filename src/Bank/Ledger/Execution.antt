-- ===== src/Bank/Ledger/Execution.antt =====
-- When the executor succeeds, and what it does with a row that was read too early.
use express_monorepo_bank_te.Base.{
  ℕ, ◌+◌, ◌-◌, ◌≤◌, ◌<◌, ◌≡◌, ◌≢◌, refl, some, [], List, arith, select, sym, ◌∙◌,
}
use mathlib.Core.Path.{subst}
use express_monorepo_bank_te.Base.Table.{
  find_by, find_by-key, update_by, find_by-update_self, find_by-update_ne,
}
use express_monorepo_bank_te.Bank.Errors.{
  ErrorCode, app, unprocessable_error, account_locked, insufficient_funds,
}
use express_monorepo_bank_te.Bank.Schema.{Account, Transfer, completed, failed, Db, bigint_limit}
use express_monorepo_bank_te.Bank.Tx.{ok, err, catch-transaction_ok, catch-transaction_err}
use express_monorepo_bank_te.Bank.Transfers.Executor.{
  mark_completed, move_funds, execute, execute_from, record_failure, blocks,
}
use express_monorepo_bank_te.Bank.Ledger.{balance_of}
use express_monorepo_bank_te.Bank.Ledger.Processing.{rejected}
use express_monorepo_bank_te.Bank.Ledger.Moves.{settled, sub_balance, add_balance}

module _ (now id from to amount : ℕ) (db : Db) (source target : Account) (t : Transfer) where
  pub move_funds_succeeds :
      from ≢ to
      → find_by Account.id from db.accounts ≡ some source
      → find_by Account.id to db.accounts ≡ some target
      → find_by Transfer.id id db.transfers ≡ some t
      → select (blocks from to) db.locks ≡ []
      → amount ≤ source.balance_cents
      → target.balance_cents + amount < bigint_limit
      → move_funds now id from to amount db
        ≡ (ok (mark_completed now t), settled now id from to amount db)
  unfolding move_funds
  move_funds_succeeds ne has_source has_target has_row free covered fits = ground (
    arith,
    find_by-key Account.id from db.accounts source has_source,
    find_by-key Account.id to db.accounts target has_target,
    find_by-update_ne Account.id (sub_balance amount) (λ r. refl) from to db.accounts,
    find_by-update_self Transfer.id (mark_completed now) (λ r. refl) id db.transfers t,
  )

  pub move_funds_locked :
      find_by Account.id from db.accounts ≡ some source
      → find_by Account.id to db.accounts ≡ some target
      → select (blocks from to) db.locks ≢ []
      → move_funds now id from to amount db ≡ (err (app (unprocessable_error account_locked)), db)
  unfolding move_funds
  move_funds_locked has_source has_target held = ground arith

  pub move_funds_short :
      find_by Account.id from db.accounts ≡ some source
      → find_by Account.id to db.accounts ≡ some target
      → select (blocks from to) db.locks ≡ []
      → source.balance_cents < amount
      → move_funds now id from to amount db
        ≡ (err (app (unprocessable_error insufficient_funds)), db)
  unfolding move_funds
  move_funds_short has_source has_target free short = ground (
    arith,
    find_by-key Account.id from db.accounts source has_source,
    find_by-key Account.id to db.accounts target has_target,
  )

-- The executor on a row with a source.
module _ (now : ℕ) (t : Transfer) (from : ℕ) (db : Db)
    (row_from : t.from_account_id ≡ some from) where
  execute_done :
      (after : Db) (row : Transfer)
      → move_funds now t.id from t.to_account_id t.amount_cents db ≡ (ok row, after)
      → execute now t db ≡ (ok row, after)
  unfolding execute
  execute_done after row moved =
      subst (λ source. execute_from now t source db ≡ (ok row, after)) (sym row_from)
        (catch-transaction_ok (move_funds now t.id from t.to_account_id t.amount_cents)
          (record_failure now t.id) db after row moved)

  execute_refused :
      (reason : ErrorCode)
      → move_funds now t.id from t.to_account_id t.amount_cents db
        ≡ (err (app (unprocessable_error reason)), db)
      → execute now t db
        ≡ (err (app (unprocessable_error reason)), rejected now t.id reason db.sequences db)
  unfolding execute
  execute_refused reason moved =
      subst
        (λ source.
          execute_from now t source db
          ≡ (err (app (unprocessable_error reason)), rejected now t.id reason db.sequences db))
        (sym row_from)
        (catch-transaction_err (move_funds now t.id from t.to_account_id t.amount_cents)
          (record_failure now t.id) db (app (unprocessable_error reason)) moved)

-- `t`, as the executor was given it, has the source `from`; both accounts exist and differ; and the
-- transfers table has a row of this id, by now perhaps another one than `t`.
pub record IsPosted (from : ℕ) (source target : Account) (t row : Transfer) (db : Db) : Type 0 where
  pub row_from : t.from_account_id ≡ some from
  pub distinct : from ≢ t.to_account_id
  pub has_source : find_by Account.id from db.accounts ≡ some source
  pub has_target : find_by Account.id t.to_account_id db.accounts ≡ some target
  pub has_row : find_by Transfer.id t.id db.transfers ≡ some row

abbrev pub IsUnlocked : ℕ → Transfer → Db → Type 0
IsUnlocked from t db = select (blocks from t.to_account_id) db.locks ≡ []

module _ (now from : ℕ) (source target : Account) (t row : Transfer) (db : Db) where
  abbrev pub after : Db
  after = settled now t.id from t.to_account_id t.amount_cents db

  abbrev debited : List Account
  debited = update_by Account.id from (sub_balance t.amount_cents) db.accounts

  pub posted_succeeds :
      IsPosted from source target t row db
      → IsUnlocked from t db
      → t.amount_cents ≤ source.balance_cents
      → target.balance_cents + t.amount_cents < bigint_limit
      → execute now t db ≡ (ok (mark_completed now row), after)
  posted_succeeds r free covered fits =
      execute_done now t from db r.row_from after (mark_completed now row) (
        move_funds_succeeds now t.id from t.to_account_id t.amount_cents db source target row
          r.distinct r.has_source r.has_target r.has_row free covered fits)

  pub after_source :
      IsPosted from source target t row db
      → find_by Account.id from after.accounts ≡ some (sub_balance t.amount_cents source)
  after_source r =
      find_by-update_ne Account.id (add_balance t.amount_cents) (λ x. refl) t.to_account_id from
        debited (λ e. r.distinct (sym e))
      ∙ find_by-update_self Account.id (sub_balance t.amount_cents) (λ x. refl) from db.accounts
          source r.has_source

  pub after_target :
      IsPosted from source target t row db
      → find_by Account.id t.to_account_id after.accounts ≡ some (add_balance t.amount_cents target)
  after_target r =
      find_by-update_self Account.id (add_balance t.amount_cents) (λ x. refl) t.to_account_id
        debited target
        (find_by-update_ne Account.id (sub_balance t.amount_cents) (λ x. refl) from t.to_account_id
            db.accounts r.distinct
          ∙ r.has_target)

  after_others :
      (k : ℕ)
      → k ≢ from
      → k ≢ t.to_account_id
      → find_by Account.id k after.accounts ≡ find_by Account.id k db.accounts
  after_others k ne_from ne_to =
      find_by-update_ne Account.id (add_balance t.amount_cents) (λ x. refl) t.to_account_id k
        debited (λ e. ne_to (sym e))
      ∙ find_by-update_ne Account.id (sub_balance t.amount_cents) (λ x. refl) from k db.accounts
          (λ e. ne_from (sym e))

  pub after_row :
      IsPosted from source target t row db
      → find_by Transfer.id t.id after.transfers ≡ some (mark_completed now row)
  after_row r =
      find_by-update_self Transfer.id (mark_completed now) (λ x. refl) t.id db.transfers row
        r.has_row

  -- A transfer on the books, between two different existing accounts that no active lock holds and
  -- whose source covers it, completes (the target's balance staying in the column's range): the
  -- amount leaves the source and reaches the target, any other account k is as it was, and the row
  -- is marked completed with the time.
  pub execute_transfers :
      (k : ℕ)
      → IsPosted from source target t row db
      → IsUnlocked from t db
      → t.amount_cents ≤ source.balance_cents
      → target.balance_cents + t.amount_cents < bigint_limit
      → k ≢ from
      → k ≢ t.to_account_id
      → let (r, db') = execute now t db in
        (r ≡ ok (record row { status = completed; completed_at = some now }))
        × (find_by Account.id from db'.accounts
            ≡ some (record source { balance_cents = source.balance_cents - t.amount_cents }))
        × (find_by Account.id t.to_account_id db'.accounts
            ≡ some (record target { balance_cents = target.balance_cents + t.amount_cents }))
        × (find_by Account.id k db'.accounts ≡ find_by Account.id k db.accounts)
        × (find_by Transfer.id t.id db'.transfers
            ≡ some (record row { status = completed; completed_at = some now }))
  execute_transfers k r free covered fits ne_from ne_to =
      rw (posted_succeeds r free covered fits)
        (refl, after_source r, after_target r, after_others k ne_from ne_to, after_row r)

  -- If an active lock holds either account, the executor throws the 422 `ACCOUNT_LOCKED`, and all it
  -- has changed is the transfer's row, which is marked failed with that reason and the time.
  pub execute_locked :
      IsPosted from source target t row db
      → ¬ IsUnlocked from t db
      → execute now t db ≡ (
        err (app (unprocessable_error account_locked)),
        record db {
          transfers =
              update_by Transfer.id t.id
                (λ r. record r {
                  status = failed;
                  failure_reason = some account_locked;
                  completed_at = some now;
                })
                db.transfers;
        },
      )
  execute_locked r held = execute_refused now t from db r.row_from account_locked (
      move_funds_locked now t.id from t.to_account_id t.amount_cents db source target row
        r.has_source r.has_target held)

  -- If no lock holds the accounts and the source has less than the amount, the executor throws the
  -- 422 `INSUFFICIENT_FUNDS`, and all it has changed is the transfer's row, which is marked failed
  -- with that reason and the time.
  pub execute_short :
      IsPosted from source target t row db
      → IsUnlocked from t db
      → source.balance_cents < t.amount_cents
      → execute now t db ≡ (
        err (app (unprocessable_error insufficient_funds)),
        record db {
          transfers =
              update_by Transfer.id t.id
                (λ r. record r {
                  status = failed;
                  failure_reason = some insufficient_funds;
                  completed_at = some now;
                })
                db.transfers;
        },
      )
  execute_short r free short = execute_refused now t from db r.row_from insufficient_funds (
      move_funds_short now t.id from t.to_account_id t.amount_cents db source target row
        r.has_source r.has_target free short)

  after-IsPosted :
      IsPosted from source target t row db
      → IsPosted from
          (sub_balance t.amount_cents source)
          (add_balance t.amount_cents target)
          t
          (mark_completed now row)
          after
  after-IsPosted r = record {
    row_from = r.row_from;
    distinct = r.distinct;
    has_source = after_source r;
    has_target = after_target r;
    has_row = after_row r;
  }

-- Given the same row twice, as two workers that both read it before either ran would, the executor
-- completes the transfer twice and takes the amount from the source twice. This is so where the transfer's row is in the table, its two accounts exist and are distinct,
-- neither has an active lock, the source covers the amount twice, and the target's column has room for
-- both credits.
pub execute_twice :
    (now later from : ℕ) (source target : Account) (t row : Transfer) (db : Db)
    → IsPosted from source target t row db
    → IsUnlocked from t db
    → t.amount_cents + t.amount_cents ≤ source.balance_cents
    → target.balance_cents + t.amount_cents + t.amount_cents < bigint_limit
    → let (r, db') = execute later t (execute now t db).1 in
      (r ≡ ok (mark_completed later (mark_completed now row)))
      × (balance_of from db'.accounts + t.amount_cents + t.amount_cents
          ≡ balance_of from db.accounts)
execute_twice now later from source target t row db r free covered fits =
    let first =
      posted_succeeds now from source target t row db r free (omega arith) (omega arith) in
    let mid = settled now t.id from t.to_account_id t.amount_cents db in
    let r' = after-IsPosted now from source target t row db r in
    let second =
      posted_succeeds later from (sub_balance t.amount_cents source)
        (add_balance t.amount_cents target) t (mark_completed now row) mid r' free (omega arith)
        (omega arith) in
    let last =
      after_source later from (sub_balance t.amount_cents source)
        (add_balance t.amount_cents target) t (mark_completed now row) mid r' in
    rw (first, second) (refl, ground (arith, last, r.has_source))
