-- ===== src/Bank/Ledger/Moves.antt =====
-- What one run of the executor's transaction does to the database and to the ledger.
use express_monorepo_bank_te.Base.{
  ℕ, ◌+◌, ◌-◌, ◌≤◌, ◌≡◌, refl, some, List, arith, ◌==◌, if◌then◌else◌, Option-cases, inl, inr,
  Bool-cases,
}
use express_monorepo_bank_te.Base.Table.{
  find_by, update_by, find_by-update_self, find_by-update_ne, DistinctKeys-update, sum_of-update,
}
use express_monorepo_bank_te.Bank.Schema.{Account, Transfer, pending, Db}
use express_monorepo_bank_te.Bank.Tx.{ok}
use express_monorepo_bank_te.Bank.Transfers.Executor.{mark_completed, move_funds}
use express_monorepo_bank_te.Bank.Ledger.{
  balance_of, credit_of, debit_of, credits, debits, IsReconciled,
}

abbrev pub add_balance : ℕ → Account → Account
add_balance amount a = record a { balance_cents = a.balance_cents + amount }

abbrev pub sub_balance : ℕ → Account → Account
sub_balance amount a = record a { balance_cents = a.balance_cents - amount }

-- The database after a completed transfer.
abbrev pub settled : ℕ → ℕ → ℕ → ℕ → ℕ → Db → Db
settled now id from to amount db = record db {
  accounts =
      update_by Account.id to (add_balance amount)
        (update_by Account.id from (sub_balance amount) db.accounts);
  transfers = update_by Transfer.id id (mark_completed now) db.transfers;
}

module _ (now id from to amount : ℕ) (db : Db) (row : Transfer) where
  pub move_funds-settles :
      (move_funds now id from to amount db).0 ≡ ok row
      → (move_funds now id from to amount db).1 ≡ settled now id from to amount db
  unfolding move_funds
  move_funds-settles h = ground arith

  pub move_funds-covered :
      (move_funds now id from to amount db).0 ≡ ok row
      → (source : Account) × (find_by Account.id from db.accounts ≡ some source)
        × (amount ≤ source.balance_cents)
  unfolding move_funds
  move_funds-covered h = elim (Option-cases (find_by Account.id from db.accounts)) [
    | inl gone ↦ absurd (ground arith)
    | inr (source, e) ↦ (source, e, ground arith)
  ]

  pub move_funds-has_target :
      (move_funds now id from to amount db).0 ≡ ok row
      → (target : Account) × (find_by Account.id to db.accounts ≡ some target)
  unfolding move_funds
  move_funds-has_target h = elim (Option-cases (find_by Account.id to db.accounts)) [
    | inl gone ↦ absurd (ground arith)
    | inr (target, e) ↦ (target, e)
  ]

-- One account's balance after the two updates.
pub balance_of-debit :
    (from a amount : ℕ) (rows : List Account) (source : Account)
    → find_by Account.id from rows ≡ some source
    → balance_of a (update_by Account.id from (sub_balance amount) rows)
      ≡ (if from == a then balance_of a rows - amount else balance_of a rows)
balance_of-debit from a amount rows source e = ground (
  arith,
  find_by-update_self Account.id (sub_balance amount) (λ r. refl) from rows source,
  find_by-update_ne Account.id (sub_balance amount) (λ r. refl) from a rows,
)

pub balance_of-credit :
    (to a amount : ℕ) (rows : List Account) (target : Account)
    → find_by Account.id to rows ≡ some target
    → balance_of a (update_by Account.id to (add_balance amount) rows)
      ≡ (if to == a then balance_of a rows + amount else balance_of a rows)
balance_of-credit to a amount rows target e = ground (
  arith,
  find_by-update_self Account.id (add_balance amount) (λ r. refl) to rows target,
  find_by-update_ne Account.id (add_balance amount) (λ r. refl) to a rows,
)

-- The rows that the transaction found are still there after the debit.
pub find_by-debit :
    (from to amount : ℕ) (rows : List Account) (target : Account)
    → find_by Account.id to rows ≡ some target
    → (target' : Account) × (find_by Account.id to
          (update_by Account.id from (sub_balance amount) rows)
        ≡ some target')
find_by-debit from to amount rows target e = elim (Bool-cases (from == to)) [
  | inl same ↦ (
    sub_balance amount target,
    ground
        (arith, find_by-update_self Account.id (sub_balance amount) (λ r. refl) to rows target e),
  )
  | inr other ↦ (
    target,
    ground (arith, find_by-update_ne Account.id (sub_balance amount) (λ r. refl) from to rows),
  )
]

module _ (now id from to amount : ℕ) (db : Db) (source target : Account) (t : Transfer)
    (has_source : find_by Account.id from db.accounts ≡ some source)
    (covered : amount ≤ source.balance_cents)
    (has_target : find_by Account.id to db.accounts ≡ some target)
    (has_row : find_by Transfer.id id db.transfers ≡ some t) (row_pending : t.status ≡ pending)
    (row_from : t.from_account_id ≡ some from) (row_to : t.to_account_id ≡ to)
    (row_amount : t.amount_cents ≡ amount) where
  settled_balanced :
      (a : ℕ)
      → IsReconciled db
      → balance_of a (settled now id from to amount db).accounts
          + debits a (settled now id from to amount db).transfers
        ≡ credits a (settled now id from to amount db).transfers
  settled_balanced a r =
      let mid = update_by Account.id from (sub_balance amount) db.accounts in
      let found = find_by-debit from to amount db.accounts target has_target in
      ground (
        arith,
        r.balanced a,
        balance_of-debit from a amount db.accounts source has_source,
        balance_of-credit to a amount mid found.0 found.1,
        sum_of-update Transfer.id (debit_of a) (mark_completed now) id db.transfers t
            r.transfers_distinct has_row,
        sum_of-update Transfer.id (credit_of a) (mark_completed now) id db.transfers t
            r.transfers_distinct has_row,
      )

  pub settled-IsReconciled : IsReconciled db → IsReconciled (settled now id from to amount db)
  settled-IsReconciled r = record {
    accounts_distinct =
        DistinctKeys-update Account.id (add_balance amount) (λ x. refl) to _
          (DistinctKeys-update Account.id (sub_balance amount) (λ x. refl) from db.accounts
            r.accounts_distinct);
    transfers_distinct =
        DistinctKeys-update Transfer.id (mark_completed now) (λ x. refl) id db.transfers
          r.transfers_distinct;
    balanced = λ a. settled_balanced a r;
  }
