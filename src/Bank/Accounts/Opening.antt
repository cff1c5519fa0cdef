-- ===== src/Bank/Accounts/Opening.antt =====
-- What `AccountService.create` leaves behind.
use mathlib.Core.Path.{subst}
use express_monorepo_bank_te.Base.{
  ℕ, true, false, ◌≡◌, sym, none, [], ◌∷◌, ◌++◌, if◌then◌else◌, arith, ltb, Bool-cases, inl, inr,
}
use express_monorepo_bank_te.Base.Table.{
  find_by, find_by-append_new, DistinctKeys-append, sum_of-append,
}
use express_monorepo_bank_te.Bank.Schema.{Account, Transfer, Db, Sequences}
use express_monorepo_bank_te.Bank.Tx.{Result, is_ok, ok}
use express_monorepo_bank_te.Bank.Inserts.{transfer_row, insert_account, insert_transfer}
use express_monorepo_bank_te.Bank.Accounts.{opening_deposit, record_deposit, open_account, create}
use express_monorepo_bank_te.Bank.Ledger.{credit_of, debit_of, IsReconciled}
use express_monorepo_bank_te.Bank.Ledger.Delivery.{with_sequences-IsReconciled}

module _ (id transfer_id now customer_id deposit : ℕ) (db : Db) where
  abbrev pub account_row : Account
  account_row = record {
    id = id;
    seq = db.sequences.accounts;
    customer_id = customer_id;
    balance_cents = deposit;
    created_at = now;
  }

  abbrev pub deposit_row : Transfer
  deposit_row = transfer_row transfer_id db.sequences.transfers now (opening_deposit now id deposit)

  -- The database once an account has been opened, up to the identity counters.
  abbrev pub opened : Sequences → Db
  opened seqs = record db {
    accounts = db.accounts ++ account_row ∷ [];
    transfers = if ltb 0 deposit then db.transfers ++ deposit_row ∷ [] else db.transfers;
    sequences = seqs;
  }

  abbrev pub result : Result Account × Db
  result = create id transfer_id now customer_id deposit db

  -- A request to open an account that succeeds returns the new account, whose id was free. It has added
  -- that account, with its balance; if the balance is positive also a completed transfer of it into the
  -- account; and no other row.
  pub create_opens :
      is_ok (create id transfer_id now customer_id deposit db).0 ≡ true
      → let (r, after) = create id transfer_id now customer_id deposit db in
        (r ≡ ok account_row)
        × (find_by Account.id id db.accounts ≡ none)
        × (after ≡ opened after.sequences)
  unfolding create open_account record_deposit insert_account insert_transfer
  create_opens h = ground arith

  pub deposit_is_new :
      is_ok result.0 ≡ true
      → ltb 0 deposit ≡ true
      → find_by Transfer.id transfer_id db.transfers ≡ none
  unfolding create open_account record_deposit insert_account insert_transfer
  deposit_is_new h some_money = ground arith

  -- A refused request leaves every row as it was.
  pub create_refused :
      is_ok result.0 ≡ false → result.1 ≡ record db { sequences = result.1.sequences }
  unfolding create open_account record_deposit insert_account insert_transfer
  create_refused h = ground arith

  pub opened-IsReconciled :
      (seqs : Sequences)
      → find_by Account.id id db.accounts ≡ none
      → (ltb 0 deposit ≡ true → find_by Transfer.id transfer_id db.transfers ≡ none)
      → IsReconciled db
      → IsReconciled (opened seqs)
  opened-IsReconciled seqs new_account new_transfer r = record {
    accounts_distinct =
        DistinctKeys-append Account.id account_row db.accounts r.accounts_distinct new_account;
    transfers_distinct = ground (
      arith,
      r.transfers_distinct,
      new_transfer,
      DistinctKeys-append Transfer.id deposit_row db.transfers r.transfers_distinct,
    );
    balanced = λ a. ground (
      arith,
      r.balanced a,
      new_account,
      find_by-append_new Account.id a account_row db.accounts new_account,
      sum_of-append (credit_of a) db.transfers deposit_row,
      sum_of-append (debit_of a) db.transfers deposit_row,
    );
  }

  -- If every balance is its completed credits less its completed debits, the same holds after any
  -- request to open an account, whether it succeeds or not.
  pub create_account-IsReconciled :
      IsReconciled db → IsReconciled (create id transfer_id now customer_id deposit db).1
  create_account-IsReconciled r = elim (Bool-cases (is_ok result.0)) [
    | inl done ↦
        let (_, new_account, after) = create_opens done in
        subst IsReconciled (sym after)
          (opened-IsReconciled result.1.sequences new_account (deposit_is_new done) r)
    | inr refused ↦
        subst IsReconciled (sym (create_refused refused))
          (with_sequences-IsReconciled result.1.sequences db r)
  ]
