-- ===== src/Examples/Books.antt =====
-- The executor and the ledger on the bank of Fixtures.
use express_monorepo_bank_te.Base.{◌+◌, ◌-◌, ◌≡◌, inl, refl, some, [], ◌∷◌, arith}
use express_monorepo_bank_te.Base.Table.{find_by, update_by}
use express_monorepo_bank_te.Bank.Errors.{
  app, unprocessable_error, account_locked, insufficient_funds,
}
use express_monorepo_bank_te.Bank.Schema.{Account, Transfer, Db, bigint_limit}
use express_monorepo_bank_te.Bank.Tx.{ok, err}
use express_monorepo_bank_te.Bank.Transfers.Executor.{execute, process, mark_completed, mark_failed}
use express_monorepo_bank_te.Bank.Ledger.{IsReconciled, balance_of}
use express_monorepo_bank_te.Bank.Ledger.Delivery.{
  process-IsReconciled, process-process, process-total, total_cents,
}
use express_monorepo_bank_te.Bank.Ledger.Execution.{
  IsPosted, execute_transfers, execute_locked, execute_short, execute_twice,
}
use express_monorepo_bank_te.Bank.Ledger.Settling.{IsSettled, process_settles}
use express_monorepo_bank_te.Bank.Locks.{create}
use express_monorepo_bank_te.Bank.Locks.Blocking.{create-execute}
use express_monorepo_bank_te.Examples.Fixtures.{
  source, target, waiting, bank, lock, locked_bank, poor_bank, bank-IsReconciled,
}

process-IsReconciled_example : IsReconciled (process 9 12 bank).1
process-IsReconciled_example = process-IsReconciled 9 12 bank bank-IsReconciled

process-process_example : process 10 12 (process 9 12 bank).1 ≡ (ok tt, (process 9 12 bank).1)
unfolding process
process-process_example = process-process 9 10 12 bank refl

process-total_example : total_cents (process 9 12 bank).1 ≡ total_cents bank
process-total_example = process-total 9 12 bank bank-IsReconciled

posted : IsPosted 1 source target waiting waiting bank
posted = record {
  row_from = refl;
  distinct = ground arith;
  has_source = refl;
  has_target = refl;
  has_row = refl;
}

execute_transfers_example :
    let (r, db') = execute 9 waiting bank in
    (r ≡ ok (mark_completed 9 waiting))
    × (find_by Account.id 1 db'.accounts ≡ some (record source { balance_cents = 300 }))
    × (find_by Account.id 2 db'.accounts ≡ some (record target { balance_cents = 200 }))
    × (find_by Account.id 3 db'.accounts ≡ find_by Account.id 3 bank.accounts)
    × (find_by Transfer.id 12 db'.transfers ≡ some (mark_completed 9 waiting))
execute_transfers_example =
    execute_transfers 9 1 source target waiting waiting bank 3 posted refl (omega arith)
      (omega arith) (ground arith) (ground arith)

locked-IsPosted : IsPosted 1 source target waiting waiting locked_bank
locked-IsPosted = record {
  row_from = refl;
  distinct = ground arith;
  has_source = refl;
  has_target = refl;
  has_row = refl;
}

execute_locked_example : execute 9 waiting locked_bank ≡ (
  err (app (unprocessable_error account_locked)),
  record locked_bank {
    transfers = update_by Transfer.id 12 (mark_failed 9 account_locked) locked_bank.transfers;
  },
)
execute_locked_example =
    execute_locked 9 1 source target waiting waiting locked_bank locked-IsPosted (λ e. cc e)

poor : Account
poor = record source { balance_cents = 100 }

execute_short_example : execute 9 waiting poor_bank ≡ (
  err (app (unprocessable_error insufficient_funds)),
  record poor_bank {
    transfers = update_by Transfer.id 12 (mark_failed 9 insufficient_funds) poor_bank.transfers;
  },
)
unfolding poor
execute_short_example =
    execute_short 9 1 poor target waiting waiting poor_bank
      (record {
        row_from = refl;
        distinct = ground arith;
        has_source = refl;
        has_target = refl;
        has_row = refl;
      })
      refl (omega arith)

execute_twice_example :
    let (r, db') = execute 10 waiting (execute 9 waiting bank).1 in
    (r ≡ ok (mark_completed 10 (mark_completed 9 waiting)))
    × (balance_of 1 db'.accounts + 200 + 200 ≡ 500)
execute_twice_example =
    execute_twice 9 10 1 source target waiting waiting bank posted refl (omega arith) (omega arith)

create-execute_example :
    let (r, after) = execute 9 waiting (create 7 3 1 "r" bank).1 in
    (r ≡ err (app (unprocessable_error account_locked)))
    × (after.accounts ≡ (create 7 3 1 "r" bank).1.accounts)
unfolding create
create-execute_example =
    create-execute 7 3 1 "r" bank lock refl 9 1 source target waiting waiting (inl refl) (record {
      row_from = refl;
      distinct = ground arith;
      has_source = refl;
      has_target = refl;
      has_row = refl;
    })

-- A bank whose target cannot take the amount.
abbrev full_bank : Db
full_bank = record bank {
  accounts = source ∷ record target { balance_cents = bigint_limit - 100 } ∷ [];
}

process_settles_example : ((process 9 12 bank).0 ≡ ok tt) × IsSettled 12 (process 9 12 bank).1
process_settles_example = process_settles 9 1 source target waiting bank posted refl (omega arith)
