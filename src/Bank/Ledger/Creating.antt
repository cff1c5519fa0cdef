-- ===== src/Bank/Ledger/Creating.antt =====
-- Accepting a transfer and opening an account keep the ledger.
use express_monorepo_bank_te.Base.{
  ℕ, String, Bool, true, false, ◌≡◌, refl, inl, inr, none, [], ◌∷◌, ◌++◌, ◌==◌, if◌then◌else◌,
  arith, Bool-cases,
}
use mathlib.Core.Path.{subst, sym}
use express_monorepo_bank_te.Base.Table.{find_by, DistinctKeys-append, sum_of-append}
use express_monorepo_bank_te.Bank.Schema.{Transfer, pending, Db, Sequences}
use express_monorepo_bank_te.Bank.Tx.{is_ok}
use express_monorepo_bank_te.Bank.Inserts.{NewTransfer, transfer_row, insert_transfer}
use express_monorepo_bank_te.Bank.Transfers.Service.{
  System, CreateTransferInput, assert_accounts_exist, new_transfer, create, finish_create, replay,
  enqueue_transfer,
}
use express_monorepo_bank_te.Bank.Ledger.Delivery.{with_sequences-IsReconciled}
use express_monorepo_bank_te.Bank.Ledger.{credit_of, debit_of, IsReconciled}

-- A new row that is not completed changes no sum.
pub append_pending-IsReconciled :
    (row : Transfer) (seqs : Sequences) (db : Db)
    → row.status ≡ pending
    → find_by Transfer.id row.id db.transfers ≡ none
    → IsReconciled db
    → IsReconciled (record db { transfers = db.transfers ++ row ∷ []; sequences = seqs })
append_pending-IsReconciled row seqs db open_row new_id r = record {
  accounts_distinct = r.accounts_distinct;
  transfers_distinct = DistinctKeys-append Transfer.id row db.transfers r.transfers_distinct new_id;
  balanced = λ a. ground (
    arith,
    r.balanced a,
    sum_of-append (credit_of a) db.transfers row,
    sum_of-append (debit_of a) db.transfers row,
  );
}

module _ (id now : ℕ) (v : NewTransfer) (db : Db) where
  abbrev pub inserted : Db
  inserted = (insert_transfer id now v db).1

  abbrev pub with_row : Db
  with_row = record db {
    transfers = db.transfers ++ transfer_row id db.sequences.transfers now v ∷ [];
    sequences = inserted.sequences;
  }

  -- A refused insert leaves the rows as they were.
  pub insert_transfer_refused :
      is_ok (insert_transfer id now v db).0 ≡ false
      → inserted ≡ record db { sequences = inserted.sequences }
  unfolding insert_transfer
  insert_transfer_refused h = ground arith

  -- A row that is kept has a new id.
  pub insert_transfer_kept :
      is_ok (insert_transfer id now v db).0 ≡ true
      → (find_by Transfer.id id db.transfers ≡ none) × (inserted ≡ with_row)
  unfolding insert_transfer
  insert_transfer_kept h = ground arith

  insert_pending-IsReconciled : v.status ≡ pending → IsReconciled db → IsReconciled inserted
  insert_pending-IsReconciled open_row r =
      elim (Bool-cases (is_ok (insert_transfer id now v db).0)) [
        | inl kept ↦
            let (new_id, after) = insert_transfer_kept kept in
            subst IsReconciled (sym after) (
              append_pending-IsReconciled (transfer_row id db.sequences.transfers now v)
                inserted.sequences db open_row new_id r)
        | inr refused ↦
            subst IsReconciled (sym (insert_transfer_refused refused))
              (with_sequences-IsReconciled inserted.sequences db r)
      ]

module _ (digest : ℕ → ℕ → ℕ → String) (accepts : Bool) (id now : ℕ) (input : CreateTransferInput)
    (s : System) where
  -- The rows after `create` are those before it, or those after its insert.
  pub db-create : (create digest accepts id now input s).1.db ≡ (
      if input.from_account_id == input.to_account_id
      then s.db
      else if is_ok (assert_accounts_exist input s.db).0
      then (insert_transfer id now (new_transfer digest input) s.db).1
      else s.db)
  unfolding create finish_create replay enqueue_transfer assert_accounts_exist
  db-create = ground arith

  -- If every balance is its completed credits less its completed debits, the same holds after any
  -- request for a transfer, accepted, replayed or refused, and whether or not the queue took the job.
  pub create-IsReconciled :
      IsReconciled s.db → IsReconciled (create digest accepts id now input s).1.db
  create-IsReconciled r = subst IsReconciled (sym db-create) (
      ground (arith, r, insert_pending-IsReconciled id now (new_transfer digest input) s.db refl r))
