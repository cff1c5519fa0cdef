-- ===== src/Bank/Machine/Ledgers.antt =====
-- The ledger in every state of the machine.
use mathlib.Core.Path.{subst}
use express_monorepo_bank_te.Base.{
  ℕ, String, Option, none, some, List, [], ◌∷◌, ◌++◌, ◌≡◌, refl, sym, if◌then◌else◌, arith, is_some,
  not, ◌&&◌,
}
use express_monorepo_bank_te.Base.Table.{
  find_by, find_by-key, find_by-append_new, sum_of, sum_of-append, sum_of-update,
}
use express_monorepo_bank_te.Bank.Schema.{Account, Transfer, Db, is_completed}
use express_monorepo_bank_te.Bank.Tx.{Result}
use express_monorepo_bank_te.Bank.Transfers.Executor.{process_row, mark_completed, mark_failed}
use express_monorepo_bank_te.Bank.Transfers.Service.{System}
use express_monorepo_bank_te.Bank.Api.Validation.{TextTools}
use express_monorepo_bank_te.Bank.Api.Access.{AuthUser, Verdict, passed, refused}
use express_monorepo_bank_te.Bank.Api.Routes.{
  Request, Message, preflight, unreadable, readable, Draw, Input, admit, run_handler, serve,
  app_handle,
}
use express_monorepo_bank_te.Bank.Ledger.{IsReconciled}
use express_monorepo_bank_te.Bank.Ledger.Creating.{append_pending-IsReconciled}
use express_monorepo_bank_te.Bank.Ledger.Delivery.{
  Delivery-IsReconciled, settled-total, total_cents,
}
use express_monorepo_bank_te.Bank.Ledger.Processing.{
  Delivery, process_row-Delivery, missing, settled_before, completes, rejects, retries,
}
use express_monorepo_bank_te.Bank.Accounts.Opening.{account_row, deposit_row, opened-IsReconciled}
use express_monorepo_bank_te.Bank.Machine.Changes.{
  Change, kept, added, opens, handle-Change, unchanged,
}
use express_monorepo_bank_te.Bank.Machine.{
  World, run_held, Step, request, take, run, Reachable, start, next,
}

same-IsReconciled :
    (db db' : Db)
    → db'.accounts ≡ db.accounts
    → db'.transfers ≡ db.transfers
    → IsReconciled db
    → IsReconciled db'
same-IsReconciled db db' a t r = record {
  accounts_distinct = rw a r.accounts_distinct;
  transfers_distinct = rw t r.transfers_distinct;
  balanced = λ k. rw (a, t) (r.balanced k);
}

Change-IsReconciled : {db db' : Db} → Change db db' → IsReconciled db → IsReconciled db'
Change-IsReconciled {db} {db'} (kept (a, t)) r = same-IsReconciled db db' a t r
Change-IsReconciled {db} {db'} (added row is_open is_new a t) r =
    same-IsReconciled (record db { transfers = db.transfers ++ row ∷ [] }) db' a t
      (append_pending-IsReconciled row db.sequences db is_open is_new r)
Change-IsReconciled {db} {db'}
      (opens id transfer_id now customer amount new_account new_transfer after) r =
    subst IsReconciled (sym after) (
      opened-IsReconciled id transfer_id now customer amount db db'.sequences new_account
        new_transfer r)

-- A request keeps every transfer's row.
Change-keeps :
    (k : ℕ) (t : Transfer) {db db' : Db}
    → Change db db'
    → find_by Transfer.id k db.transfers ≡ some t
    → find_by Transfer.id k db'.transfers ≡ some t
Change-keeps k t (kept (_, same)) found = rw same found
Change-keeps k t {db} (added row is_open is_new a more) found =
    rw more (ground (arith, find_by-append_new Transfer.id k row db.transfers is_new))
Change-keeps k t {db} (opens id transfer_id now customer amount new_account new_transfer after)
      found =
    rw after (
      ground (
        arith,
        new_transfer,
        find_by-append_new Transfer.id k (deposit_row id transfer_id now customer amount db)
            db.transfers,
      ))

-- What an opening deposit has paid in.
abbrev pub paid_in : Transfer → ℕ
paid_in t = if is_completed t.status && not (is_some t.from_account_id) then t.amount_cents else 0

-- All money in the accounts came with an opening deposit.
abbrev pub IsFunded : Db → Type 0
IsFunded db = sum_of Account.balance_cents db.accounts ≡ sum_of paid_in db.transfers

Change-IsFunded : {db db' : Db} → Change db db' → IsFunded db → IsFunded db'
Change-IsFunded (kept (a, t)) f = rw (a, t) f
Change-IsFunded {db} (added row is_open is_new a t) f =
    rw (a, t) (ground (arith, sum_of-append paid_in db.transfers row))
Change-IsFunded {db} (opens id transfer_id now customer amount new_account new_transfer after) f =
    rw after (
      ground (
        arith,
        sum_of-append Account.balance_cents db.accounts
            (account_row id transfer_id now customer amount db),
        sum_of-append paid_in db.transfers (deposit_row id transfer_id now customer amount db),
      ))

Delivery-IsFunded :
    (now id : ℕ) (db : Db) {o : Result (Unit {0}) × Db}
    → IsReconciled db
    → Delivery now id db o
    → IsFunded db
    → IsFunded o.1
Delivery-IsFunded now id db r (missing h e) f = rw e f
Delivery-IsFunded now id db r (settled_before t h s e) f = rw e f
Delivery-IsFunded now id db r (completes t row from has_row is_open row_from returned e) f = rw e (
    ground (
      arith,
      settled-total now id from t.to_account_id t.amount_cents db row r returned,
      sum_of-update Transfer.id paid_in (mark_completed now) id db.transfers t r.transfers_distinct
          has_row,
    ))
Delivery-IsFunded now id db r (rejects t reason seqs has_row is_open e) f = rw e (
    ground (
      arith,
      sum_of-update Transfer.id paid_in (mark_failed now reason) id db.transfers t
          r.transfers_distinct has_row,
    ))
Delivery-IsFunded now id db r (retries x seqs e) f = rw e f

-- The row that the worker holds is still the table's.
abbrev pub IsCurrent : Option Transfer → Db → Type 0
IsCurrent held db = (t : Transfer) → held ≡ some t → find_by Transfer.id t.id db.transfers ≡ some t

process_row-keeps :
    (now : ℕ) (held : Option Transfer) (db : Db)
    → IsCurrent held db
    → IsReconciled db
    → IsFunded db
    → IsReconciled (process_row now held db).1 × IsFunded (process_row now held db).1
process_row-keeps now none db current r f = unfold process_row in (r, f)
process_row-keeps now (some t) db current r f =
    let delivery = process_row-Delivery now t db (current t refl) in
    (Delivery-IsReconciled now t.id db r delivery, Delivery-IsFunded now t.id db r delivery f)

module _ (tools : TextTools) (digest : ℕ → ℕ → ℕ → String) (verify : List ℕ → Option AuthUser) where
  run-Change :
      (draw : Draw) (r : Request) (input : Option Input) (s : System)
      → Change s.db (run_handler tools digest draw r input s).1.db
  run-Change draw r none s = unchanged s.db
  run-Change draw r (some input) s = handle-Change digest draw s input

  admit-Change :
      (draw : Draw) (r : Request) (v : Verdict) (s : System)
      → Change s.db (admit tools digest draw r v s).1.db
  unfolding serve
  admit-Change draw r (passed user) s = run-Change draw r _ s
  admit-Change draw r (refused e) s = unchanged s.db

  pub request-Change :
      (path : List ℕ) (authorization : Option (List ℕ)) (draw : Draw) (m : Message) (s : System)
      → Change s.db (app_handle tools digest verify path authorization draw m s).1.db
  unfolding app_handle
  request-Change path authorization draw preflight s = unchanged s.db
  request-Change path authorization draw unreadable s = unchanged s.db
  request-Change path authorization draw (readable r) s = admit-Change draw r _ s

  pub record IsSound (w : World) : Type 0 where
    pub reconciled : IsReconciled w.system.db
    pub funded : IsFunded w.system.db
    pub current : IsCurrent w.held w.system.db

  run-IsSound : (now : ℕ) (w : World) → IsSound w → IsSound (run_held now w)
  run-IsSound now w s =
      let (r, f) = process_row-keeps now w.held w.system.db s.current s.reconciled s.funded in
      record { reconciled = r; funded = f; current = λ u none_held. absurd (cc none_held) }

  Step-IsSound : {w w' : World} → Step tools digest verify w w' → IsSound w → IsSound w'
  Step-IsSound {w} (request path authorization draw r) s =
      let change = request-Change path authorization draw r w.system in
      record {
        reconciled = Change-IsReconciled change s.reconciled;
        funded = Change-IsFunded change s.funded;
        current = λ t holds. Change-keeps t.id t change (s.current t holds);
      }
  Step-IsSound {w} (take id) s = record {
    reconciled = s.reconciled;
    funded = s.funded;
    current = λ t found. cc (find_by-key Transfer.id id w.system.db.transfers t found, found);
  }
  Step-IsSound {w} (run now) s = run-IsSound now w s

  pub Reachable-IsSound : {w : World} → Reachable tools digest verify w → IsSound w
  Reachable-IsSound start = record {
    reconciled = record { accounts_distinct = tt; transfers_distinct = tt; balanced = λ a. refl };
    funded = refl;
    current = λ t none_held. absurd (cc none_held);
  }
  Reachable-IsSound (next before step) = Step-IsSound step (Reachable-IsSound before)

  -- In every state that the API and its one worker can reach from an empty database, by any requests
  -- and any reads and runs of jobs in any order, ids are unique and each account holds its completed
  -- credits less its completed debits.
  pub Reachable-IsReconciled :
      (w : World) → Reachable tools digest verify w → IsReconciled w.system.db
  Reachable-IsReconciled w r = (Reachable-IsSound r).reconciled

  -- In every state that the API and its one worker can reach from an empty database, the balances add
  -- up to the opening deposits: no request and no job makes money or loses it.
  pub Reachable-total :
      (w : World)
      → Reachable tools digest verify w
      → total_cents w.system.db ≡ sum_of paid_in w.system.db.transfers
  Reachable-total w r = (Reachable-IsSound r).funded
