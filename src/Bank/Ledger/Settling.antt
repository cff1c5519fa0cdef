-- ===== src/Bank/Ledger/Settling.antt =====
-- Every transfer that was accepted is settled: the end of a job that the processor runs.
use express_monorepo_bank_te.Base.{
  ℕ, List, [], ◌∷◌, ◌⊎◌, select, ltb→lt, ◌+◌, ◌<◌, ◌≡◌, refl, some, false, ltb, Bool-cases, inl,
  inr, arith,
}
use express_monorepo_bank_te.Base.Table.{find_by, update_by, find_by-update_self}
use express_monorepo_bank_te.Bank.Schema.{Account, Transfer, pending, Db, is_pending, bigint_limit}
use express_monorepo_bank_te.Bank.Errors.{
  ErrorCode, app, unprocessable_error, account_locked, insufficient_funds,
}
use express_monorepo_bank_te.Bank.Tx.{ok, err}
use express_monorepo_bank_te.Bank.Transfers.Executor.{
  process, process_row, execute, settle_job, blocks, mark_completed, mark_failed,
}
use express_monorepo_bank_te.Bank.Ledger.Execution.{
  IsPosted, IsUnlocked, after_row, posted_succeeds, execute_locked, execute_short,
}

-- The row of a transfer has left the pending state.
abbrev pub IsSettled : ℕ → Db → Type 0
IsSettled id db =
    (row : Transfer) × (find_by Transfer.id id db.transfers ≡ some row)
    × (is_pending row.status ≡ false)

empty_or_not : {A : Type 0} (xs : List A) → (xs ≡ []) ⊎ (¬ (xs ≡ []))
empty_or_not [] = inl refl
empty_or_not (x ∷ xs) = inr (λ e. absurd (cc e))

module _ (now from : ℕ) (source target : Account) (t : Transfer) (db : Db)
    (posted : IsPosted from source target t t db) (is_open : t.status ≡ pending)
    (fits : target.balance_cents + t.amount_cents < bigint_limit) where
  -- The job ends as the executor's call does, a rejection being caught.
  completed_end :
      (row : Transfer) (after : Db)
      → execute now t db ≡ (ok row, after)
      → process now t.id db ≡ (ok tt, after)
  unfolding process process_row
  completed_end row after e = ground (arith, posted.has_row, is_open, e)

  rejected_end :
      (reason : ErrorCode) (after : Db)
      → execute now t db ≡ (err (app (unprocessable_error reason)), after)
      → process now t.id db ≡ (ok tt, after)
  unfolding process process_row settle_job
  rejected_end reason after e = ground (arith, posted.has_row, is_open, e)

  ends :
      (row : Transfer) (after : Db)
      → process now t.id db ≡ (ok tt, after)
      → find_by Transfer.id t.id after.transfers ≡ some row
      → is_pending row.status ≡ false
      → ((process now t.id db).0 ≡ ok tt) × IsSettled t.id (process now t.id db).1
  ends row after e has shut = rw e (refl, (row, has, shut))

  fails :
      (reason : ErrorCode)
      → execute now t db ≡ (
        err (app (unprocessable_error reason)),
        record db { transfers = update_by Transfer.id t.id (mark_failed now reason) db.transfers },
      )
      → ((process now t.id db).0 ≡ ok tt) × IsSettled t.id (process now t.id db).1
  fails reason e =
      ends (mark_failed now reason t) _ (rejected_end reason _ e)
        (find_by-update_self Transfer.id (mark_failed now reason) (λ x. refl) t.id db.transfers t
          posted.has_row)
        refl

  settles_free :
      IsUnlocked from t db
      → ((process now t.id db).0 ≡ ok tt) × IsSettled t.id (process now t.id db).1
  settles_free free = elim (Bool-cases (ltb source.balance_cents t.amount_cents)) [
    | inl short ↦
        fails insufficient_funds
          (execute_short now from source target t t db posted free (ltb→lt _ _ short))
    | inr covered ↦
        ends (mark_completed now t) _
          (completed_end (mark_completed now t) _ (
            posted_succeeds now from source target t t db posted free (ground (arith, covered))
              fits))
          (after_row now from source target t t db posted) refl
  ]

  settles : ((process now t.id db).0 ≡ ok tt) × IsSettled t.id (process now t.id db).1
  settles = elim (empty_or_not (select (blocks from t.to_account_id) db.locks)) [
    | inl free ↦ settles_free free
    | inr held ↦ fails account_locked (execute_locked now from source target t t db posted held)
  ]

-- One run of the job of a pending transfer settles it, whatever locks and balances are: where its two accounts
-- exist and differ and the target has room for the amount, the job ends without an error, and the row is
-- completed or failed.
pub process_settles :
    (now from : ℕ) (source target : Account) (t : Transfer) (db : Db)
    → IsPosted from source target t t db
    → t.status ≡ pending
    → target.balance_cents + t.amount_cents < bigint_limit
    → ((process now t.id db).0 ≡ ok tt) × IsSettled t.id (process now t.id db).1
process_settles now from source target t db posted is_open fits =
    settles now from source target t db posted is_open fits
