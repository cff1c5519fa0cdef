-- ===== src/Bank/Ledger/Processing.antt =====
-- The executor and the job processor keep the ledger.
use express_monorepo_bank_te.Base.{
  ℕ, ◌⊎◌, Bool, ◌≡◌, refl, none, some, arith, Option-cases, inl, inr, ap, sym, true, false,
}
use mathlib.Core.Path.{subst}
use express_monorepo_bank_te.Base.Table.{find_by, find_by-key, update_by}
use express_monorepo_bank_te.Bank.Errors.{ErrorCode, Failure, app, plain, unprocessable_error}
use express_monorepo_bank_te.Bank.Schema.{
  Transfer, TransferStatus, pending, completed, failed, Db, Sequences, is_pending,
}
use express_monorepo_bank_te.Bank.Tx.{Result, ok, err}
use express_monorepo_bank_te.Bank.Transfers.Executor.{
  mark_failed, move_funds, execute, execute_from, record_failure, process, process_row, settle_job,
}
use express_monorepo_bank_te.Bank.Tx.{catch, transaction, pure, ◌>>◌}
use express_monorepo_bank_te.Bank.Ledger.Moves.{settled, move_funds-settles}

-- What a rejected transfer leaves behind.
abbrev pub rejected : ℕ → ℕ → ErrorCode → Sequences → Db → Db
rejected now id reason seqs db = record db {
  transfers = update_by Transfer.id id (mark_failed now reason) db.transfers;
  sequences = seqs;
}

abbrev pub is_rejection : Failure → Bool
is_rejection (app (unprocessable_error reason)) = true
is_rejection e = false

-- How a call of `execute` may end: the transaction completed; or it was rejected for a reason, which
-- is on the row; or it failed and changed no row.
pub data Outcome (now from : ℕ) (t : Transfer) (db : Db) (o : Result Transfer × Db) : Type 0 where
  done :
      (row : Transfer)
      → (move_funds now t.id from t.to_account_id t.amount_cents db).0 ≡ ok row
      → o ≡ (ok row, settled now t.id from t.to_account_id t.amount_cents db)
      → Outcome now from t db o
  refused :
      (reason : ErrorCode) (seqs : Sequences)
      → o ≡ (err (app (unprocessable_error reason)), rejected now t.id reason seqs db)
      → Outcome now from t db o
  broken :
      (e : Failure) (seqs : Sequences)
      → is_rejection e ≡ false
      → o ≡ (err e, record db { sequences = seqs })
      → Outcome now from t db o

module _ (now from : ℕ) (t : Transfer) (db : Db) where
  attempt : Result Transfer × Db
  attempt = move_funds now t.id from t.to_account_id t.amount_cents db

  attempt-Outcome :
      (m : Result Transfer × Db)
      → attempt ≡ m
      → Outcome now from t db (catch (transaction (λ _. m)) (record_failure now t.id) db)
  unfolding record_failure attempt
  attempt-Outcome (ok row, db') e =
      let returned : attempt.0 ≡ ok row = ap (λ (m : Result Transfer × Db). m.0) e in
      let after : attempt.1 ≡ db' = ap (λ (m : Result Transfer × Db). m.1) e in
      done row returned (
        cc (after, move_funds-settles now t.id from t.to_account_id t.amount_cents db row returned))
  attempt-Outcome (err (app (unprocessable_error reason)), db') e =
      refused reason db'.sequences refl
  attempt-Outcome (err e, db') p = broken e db'.sequences refl refl

  -- A call on a transfer with a source has one of the three outcomes.
  pub execute-Outcome : t.from_account_id ≡ some from → Outcome now from t db (execute now t db)
  unfolding execute
  execute-Outcome row_from =
      subst (λ source. Outcome now from t db (execute_from now t source db)) (sym row_from)
        (unfold attempt in attempt-Outcome attempt refl)

abbrev pub with_sequences : Sequences → Db → Db
with_sequences seqs db = record db { sequences = seqs }

-- How one delivery of the job of transfer `id` may end. The source is the account that pays.
pub data Delivery (now id : ℕ) (db : Db) (o : Result (Unit {0}) × Db) : Type 0 where
  missing : find_by Transfer.id id db.transfers ≡ none → o ≡ (ok tt, db) → Delivery now id db o
  settled_before :
      (t : Transfer)
      → find_by Transfer.id id db.transfers ≡ some t
      → is_pending t.status ≡ false
      → o ≡ (ok tt, db)
      → Delivery now id db o
  completes :
      (t row : Transfer) (from : ℕ)
      → find_by Transfer.id id db.transfers ≡ some t
      → t.status ≡ pending
      → t.from_account_id ≡ some from
      → (move_funds now id from t.to_account_id t.amount_cents db).0 ≡ ok row
      → o ≡ (ok tt, settled now id from t.to_account_id t.amount_cents db)
      → Delivery now id db o
  rejects :
      (t : Transfer) (reason : ErrorCode) (seqs : Sequences)
      → find_by Transfer.id id db.transfers ≡ some t
      → t.status ≡ pending
      → o ≡ (ok tt, rejected now id reason seqs db)
      → Delivery now id db o
  retries :
      (e : Failure) (seqs : Sequences) → o ≡ (err e, with_sequences seqs db) → Delivery now id db o

pending_or_settled : (s : TransferStatus) → (s ≡ pending) ⊎ (is_pending s ≡ false)
pending_or_settled pending = inl refl
pending_or_settled completed = inr refl
pending_or_settled failed = inr refl

module _ (now : ℕ) (t : Transfer) (db : Db) where
  -- What the processor makes of a call of `execute`.
  settle : Result Transfer × Db → Result (Unit {0}) × Db
  settle m = catch ((λ _. m) >> pure tt) settle_job db

  settle_err :
      (e : Failure) (after : Db) → is_rejection e ≡ false → settle (err e, after) ≡ (err e, after)
  unfolding settle settle_job
  settle_err (app (unprocessable_error reason)) after h = cc
  settle_err e after h = refl

  settle-Delivery :
      (from : ℕ) (o : Result Transfer × Db)
      → find_by Transfer.id t.id db.transfers ≡ some t
      → t.status ≡ pending
      → t.from_account_id ≡ some from
      → Outcome now from t db o
      → Delivery now t.id db (settle o)
  unfolding settle settle_job
  settle-Delivery from o has_row is_open row_from (done row returned e) =
      completes t row from has_row is_open row_from returned (rw e)
  settle-Delivery from o has_row is_open row_from (refused reason seqs e) =
      rejects t reason seqs has_row is_open (rw e)
  settle-Delivery from o has_row is_open row_from (broken e seqs h p) =
      retries e seqs (rw p (settle_err e (with_sequences seqs db) h))

  settle-execute : t.status ≡ pending → settle (execute now t db) ≡ process_row now (some t) db
  unfolding process_row settle settle_job
  settle-execute is_open = ground arith

  settle-deposit :
      t.from_account_id ≡ none
      → settle (execute now t db) ≡ (err plain, with_sequences db.sequences db)
  unfolding execute settle settle_job
  settle-deposit deposit = ap (λ source. settle (execute_from now t source db)) deposit

  pub process_row-Delivery :
      find_by Transfer.id t.id db.transfers ≡ some t
      → Delivery now t.id db (process_row now (some t) db)
  process_row-Delivery has_row = elim (pending_or_settled t.status) [
    | inr shut ↦ settled_before t has_row shut (unfold process_row in ground arith)
    | inl is_open ↦
        subst (Delivery now t.id db) (settle-execute is_open)
          (elim (Option-cases t.from_account_id) [
            | inl deposit ↦ retries plain db.sequences (settle-deposit deposit)
            | inr (from, row_from) ↦
                settle-Delivery from (execute now t db) has_row is_open row_from
                  (execute-Outcome now from t db row_from)
          ])
  ]

-- Each delivery ends in one of the five ways.
pub process-Delivery : (now id : ℕ) (db : Db) → Delivery now id db (process now id db)
unfolding process
process-Delivery now id db = elim (Option-cases (find_by Transfer.id id db.transfers)) [
  | inl gone ↦ missing gone (unfold process_row in rw gone)
  | inr (t, has_row) ↦
      let same : t.id ≡ id = find_by-key Transfer.id id db.transfers t has_row in
      let found : find_by Transfer.id t.id db.transfers ≡ some t = cc in
      rw has_row (
        subst (λ k. Delivery now k db (process_row now (some t) db)) same
          (process_row-Delivery now t db found))
]
