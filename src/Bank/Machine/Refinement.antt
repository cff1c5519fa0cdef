-- ===== src/Bank/Machine/Refinement.antt =====
-- The machine against an abstract ledger: balances that only openings and covered moves change.
use express_monorepo_bank_te.Base.{
  ℕ, ◌+◌, ◌-◌, ◌≤◌, String, Option, none, some, List, ◌≡◌, refl, ◌==◌, if◌then◌else◌, arith,
}
use express_monorepo_bank_te.Base.Table.{find_by-append_new}
use express_monorepo_bank_te.Bank.Schema.{Account, Transfer, Db}
use express_monorepo_bank_te.Bank.Tx.{Result}
use express_monorepo_bank_te.Bank.Transfers.Executor.{process_row}
use express_monorepo_bank_te.Bank.Api.Validation.{TextTools}
use express_monorepo_bank_te.Bank.Api.Access.{AuthUser}
use express_monorepo_bank_te.Bank.Ledger.{balance_of}
use express_monorepo_bank_te.Bank.Ledger.Moves.{
  move_funds-covered, move_funds-has_target, find_by-debit, balance_of-debit, balance_of-credit,
}
use express_monorepo_bank_te.Bank.Ledger.Processing.{
  Delivery, process_row-Delivery, missing, settled_before, completes, rejects, retries,
}
use express_monorepo_bank_te.Bank.Accounts.Opening.{account_row}
use express_monorepo_bank_te.Bank.Machine.Changes.{Change, kept, added, opens}
use express_monorepo_bank_te.Bank.Machine.Ledgers.{IsCurrent, Reachable-IsSound, request-Change}
use express_monorepo_bank_te.Bank.Machine.{World, Step, request, take, run, Reachable}

-- The abstract ledger: a balance for every account, zero where there is none.
abbrev pub Balances : Type 0
Balances = ℕ → ℕ

abbrev pub withdraw : ℕ → ℕ → Balances → Balances
withdraw from amount b a = if from == a then b a - amount else b a

abbrev pub pay : ℕ → ℕ → Balances → Balances
pay to amount b a = if to == a then b a + amount else b a

-- A step of the abstract ledger.
pub data Move (b b' : Balances) : Type 0 where
  still : ((a : ℕ) → b' a ≡ b a) → Move b b'
  -- an account without money gets its opening deposit
  deposit : (id amount : ℕ) → b id ≡ 0 → ((a : ℕ) → b' a ≡ pay id amount b a) → Move b b'
  -- an amount that the source has goes to the target
  move :
      (from to amount : ℕ)
      → amount ≤ b from
      → ((a : ℕ) → b' a ≡ pay to amount (withdraw from amount b) a)
      → Move b b'

-- The balances of a database.
abbrev pub balances : Db → Balances
balances db a = balance_of a db.accounts

Change-Move : {db db' : Db} → Change db db' → Move (balances db) (balances db')
Change-Move (kept (same, _)) = still (λ a. rw same refl)
Change-Move (added row is_open is_new same _) = still (λ a. rw same refl)
Change-Move {db} (opens id transfer_id now customer amount is_new _ after) =
    deposit id amount (ground (arith, is_new)) (λ a. rw after (
      ground (
        arith,
        is_new,
        find_by-append_new Account.id a (account_row id transfer_id now customer amount db)
            db.accounts,
      )))

Delivery-Move :
    (now id : ℕ) (db : Db) {o : Result (Unit {0}) × Db}
    → Delivery now id db o
    → Move (balances db) (balances o.1)
Delivery-Move now id db (missing h e) = still (λ a. rw e refl)
Delivery-Move now id db (settled_before t h s e) = still (λ a. rw e refl)
Delivery-Move now id db (completes t row from has_row is_open row_from returned e) =
    let (source, has_source, covered) =
      move_funds-covered now id from t.to_account_id t.amount_cents db row returned in
    let (target, has_target) =
      move_funds-has_target now id from t.to_account_id t.amount_cents db row returned in
    let (target', still_there) =
      find_by-debit from t.to_account_id t.amount_cents db.accounts target has_target in
    move from t.to_account_id t.amount_cents (ground (arith, has_source, covered)) (λ a. rw e (
      ground (
        arith,
        balance_of-debit from a t.amount_cents db.accounts source has_source,
        balance_of-credit t.to_account_id a t.amount_cents _ target' still_there,
      )))
Delivery-Move now id db (rejects t reason seqs has_row is_open e) = still (λ a. rw e refl)
Delivery-Move now id db (retries x seqs e) = still (λ a. rw e refl)

process_row-Move :
    (now : ℕ) (held : Option Transfer) (db : Db)
    → IsCurrent held db
    → Move (balances db) (balances (process_row now held db).1)
process_row-Move now none db current = unfold process_row in still (λ a. refl)
process_row-Move now (some t) db current =
    Delivery-Move now t.id db (process_row-Delivery now t db (current t refl))

module _ (tools : TextTools) (digest : ℕ → ℕ → ℕ → String) (verify : List ℕ → Option AuthUser) where
  Step-Move :
      {w w' : World}
      → Step tools digest verify w w'
      → IsCurrent w.held w.system.db
      → Move (balances w.system.db) (balances w'.system.db)
  Step-Move {w} (request path authorization draw r) current =
      Change-Move (request-Change tools digest verify path authorization draw r w.system)
  Step-Move (take id) current = still (λ a. refl)
  Step-Move {w} (run now) current = process_row-Move now w.held w.system.db current

  -- The system refines the abstract ledger: from any reachable state, a step changes no balance, or
  -- pays an opening deposit into an account that had nothing, or moves an amount that the source has
  -- to the target.
  pub Step-refines :
      (w w' : World)
      → Reachable tools digest verify w
      → Step tools digest verify w w'
      → Move (balances w.system.db) (balances w'.system.db)
  Step-refines w w' before step =
      Step-Move step (Reachable-IsSound tools digest verify before).current
