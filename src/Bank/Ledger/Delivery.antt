-- ===== src/Bank/Ledger/Delivery.antt =====
-- What every delivery of a transfer job preserves, and what a second delivery does.
use express_monorepo_bank_te.Base.{ℕ, ◌≡◌, refl, some, arith, false}
use express_monorepo_bank_te.Base.Table.{
  find_by, update_by, find_by-update_self, DistinctKeys-update, sum_of, sum_of-update,
}
use express_monorepo_bank_te.Bank.Errors.{ErrorCode, Failure}
use express_monorepo_bank_te.Bank.Schema.{Account, Transfer, pending, Db, Sequences, is_pending}
use express_monorepo_bank_te.Bank.Tx.{Result, ok, err}
use express_monorepo_bank_te.Bank.Transfers.Executor.{
  move_funds, mark_completed, mark_failed, process, process_row,
}
use express_monorepo_bank_te.Bank.Ledger.{credit_of, debit_of, IsReconciled}
use express_monorepo_bank_te.Bank.Ledger.Moves.{
  settled, add_balance, sub_balance, move_funds-covered, move_funds-has_target, find_by-debit,
  settled-IsReconciled,
}
use express_monorepo_bank_te.Bank.Ledger.Processing.{
  rejected, with_sequences, Delivery, missing, settled_before, completes, rejects, retries,
  process-Delivery,
}

rejected-IsReconciled :
    (now id : ℕ) (reason : ErrorCode) (seqs : Sequences) (db : Db) (t : Transfer)
    → find_by Transfer.id id db.transfers ≡ some t
    → t.status ≡ pending
    → IsReconciled db
    → IsReconciled (rejected now id reason seqs db)
rejected-IsReconciled now id reason seqs db t has_row is_pending r = record {
  accounts_distinct = r.accounts_distinct;
  transfers_distinct =
      DistinctKeys-update Transfer.id (mark_failed now reason) (λ x. refl) id db.transfers
        r.transfers_distinct;
  balanced = λ a. ground (
    arith,
    r.balanced a,
    sum_of-update Transfer.id (debit_of a) (mark_failed now reason) id db.transfers t
        r.transfers_distinct has_row,
    sum_of-update Transfer.id (credit_of a) (mark_failed now reason) id db.transfers t
        r.transfers_distinct has_row,
  );
}

pub with_sequences-IsReconciled :
    (seqs : Sequences) (db : Db) → IsReconciled db → IsReconciled (with_sequences seqs db)
with_sequences-IsReconciled seqs db r = record {
  accounts_distinct = r.accounts_distinct;
  transfers_distinct = r.transfers_distinct;
  balanced = r.balanced;
}

pub Delivery-IsReconciled :
    (now id : ℕ) (db : Db) {o : Result (Unit {0}) × Db}
    → IsReconciled db
    → Delivery now id db o
    → IsReconciled o.1
Delivery-IsReconciled now id db r (missing h e) = rw e r
Delivery-IsReconciled now id db r (settled_before t h s e) = rw e r
Delivery-IsReconciled now id db r (completes t row from has_row is_open row_from returned e) =
    let (source, has_source, covered) =
      move_funds-covered now id from t.to_account_id t.amount_cents db row returned in
    let (target, has_target) =
      move_funds-has_target now id from t.to_account_id t.amount_cents db row returned in
    rw e (
      settled-IsReconciled now id from t.to_account_id t.amount_cents db source target t has_source
        covered has_target has_row is_open row_from refl refl r)
Delivery-IsReconciled now id db r (rejects t reason seqs has_row is_open e) =
    rw e (rejected-IsReconciled now id reason seqs db t has_row is_open r)
Delivery-IsReconciled now id db r (retries x seqs e) = rw e (with_sequences-IsReconciled seqs db r)

-- If every balance is its completed credits less its completed debits, and ids are unique, then the
-- same holds after the processor has handled any job at any time, however the job ends.
pub process-IsReconciled :
    (now id : ℕ) (db : Db) → IsReconciled db → IsReconciled (process now id db).1
process-IsReconciled now id db r = Delivery-IsReconciled now id db r (process-Delivery now id db)

-- `AccountService.totalBalanceCents`
abbrev pub total_cents : Db → ℕ
total_cents db = sum_of Account.balance_cents db.accounts

pub settled-total :
    (now id from to amount : ℕ) (db : Db) (row : Transfer)
    → IsReconciled db
    → (move_funds now id from to amount db).0 ≡ ok row
    → total_cents (settled now id from to amount db) ≡ total_cents db
settled-total now id from to amount db row r returned =
    let (source, has_source, covered) = move_funds-covered now id from to amount db row returned in
    let (target, has_target) = move_funds-has_target now id from to amount db row returned in
    let (target', still) = find_by-debit from to amount db.accounts target has_target in
    let mid = update_by Account.id from (sub_balance amount) db.accounts in
    omega (
      arith,
      covered,
      sum_of-update Account.id Account.balance_cents (sub_balance amount) from db.accounts source
          r.accounts_distinct has_source,
      sum_of-update Account.id Account.balance_cents (add_balance amount) to mid target'
          (DistinctKeys-update Account.id (sub_balance amount) (λ x. refl) from db.accounts
            r.accounts_distinct)
          still,
    )

pub Delivery-total :
    (now id : ℕ) (db : Db) {o : Result (Unit {0}) × Db}
    → IsReconciled db
    → Delivery now id db o
    → total_cents o.1 ≡ total_cents db
Delivery-total now id db r (missing h e) = rw e refl
Delivery-total now id db r (settled_before t h s e) = rw e refl
Delivery-total now id db r (completes t row from has_row is_open row_from returned e) =
    rw e (settled-total now id from t.to_account_id t.amount_cents db row r returned)
Delivery-total now id db r (rejects t reason seqs has_row is_open e) = rw e refl
Delivery-total now id db r (retries x seqs e) = rw e refl

-- With unique ids and reconciled balances, no delivery of a job changes the sum of all balances:
-- money is neither made nor lost, whether the transfer completes, is rejected or fails.
pub process-total :
    (now id : ℕ) (db : Db) → IsReconciled db → total_cents (process now id db).1 ≡ total_cents db
process-total now id db r = Delivery-total now id db r (process-Delivery now id db)

-- A delivery that finds a settled row does nothing.
process_settled :
    (now id : ℕ) (t : Transfer) (db : Db)
    → find_by Transfer.id id db.transfers ≡ some t
    → is_pending t.status ≡ false
    → process now id db ≡ (ok tt, db)
unfolding process process_row
process_settled now id t db has_row shut = rw has_row (rw shut)

Delivery-again :
    (now later id : ℕ) (db : Db) {o : Result (Unit {0}) × Db}
    → Delivery now id db o
    → o.0 ≡ ok tt
    → process later id o.1 ≡ (ok tt, o.1)
Delivery-again now later id db (missing h e) ended = rw e (unfold process process_row in rw h)
Delivery-again now later id db (settled_before t h s e) ended =
    rw e (process_settled later id t db h s)
Delivery-again now later id db (completes t row from has_row is_open row_from returned e) ended =
    rw e (
      process_settled later id (mark_completed now t) _
        (find_by-update_self Transfer.id (mark_completed now) (λ x. refl) id db.transfers t has_row)
        refl)
Delivery-again now later id db (rejects t reason seqs has_row is_open e) ended = rw e (
    process_settled later id (mark_failed now reason t) _
      (find_by-update_self Transfer.id (mark_failed now reason) (λ x. refl) id db.transfers t
        has_row)
      refl)
Delivery-again now later id db (retries x seqs e) ended = absurd (cc (e, ended))

-- After a delivery that ended the job normally, any later delivery of the same job ends normally and
-- changes nothing at all, so that deliveries one after another execute a transfer at most once.
pub process-process :
    (now later id : ℕ) (db : Db)
    → (process now id db).0 ≡ ok tt
    → process later id (process now id db).1 ≡ (ok tt, (process now id db).1)
process-process now later id db = Delivery-again now later id db (process-Delivery now id db)

Delivery-failed :
    (now id : ℕ) (db : Db) (x : Failure) {o : Result (Unit {0}) × Db}
    → Delivery now id db o
    → o.0 ≡ err x
    → (o.1.accounts ≡ db.accounts) × (o.1.transfers ≡ db.transfers) × (o.1.locks ≡ db.locks)
Delivery-failed now id db x (missing h e) failed = absurd (cc (e, failed))
Delivery-failed now id db x (settled_before t h s e) failed = absurd (cc (e, failed))
Delivery-failed now id db x (completes t row from a b c d e) failed = absurd (cc (e, failed))
Delivery-failed now id db x (rejects t reason seqs a b e) failed = absurd (cc (e, failed))
Delivery-failed now id db x (retries y seqs e) failed = rw e (refl, refl, refl)

-- A delivery that throws, so that the queue will retry it, has changed no account, no transfer and
-- no lock.
pub process_failed :
    (now id : ℕ) (db : Db) (x : Failure)
    → (process now id db).0 ≡ err x
    → ((process now id db).1.accounts ≡ db.accounts)
      × ((process now id db).1.transfers ≡ db.transfers)
      × ((process now id db).1.locks ≡ db.locks)
process_failed now id db x = Delivery-failed now id db x (process-Delivery now id db)
