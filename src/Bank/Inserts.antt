-- ===== src/Bank/Inserts.antt =====
-- The INSERT statements of the services, under the constraints of packages/db/src/schema. Each takes
-- the value that `gen_random_uuid()` gave and the time of the statement. The identity counter moves
-- also where a constraint refuses the row. The result is the row that RETURNING yields.
use express_monorepo_bank_te.Base.{
  ℕ, ◌+◌, String, Bool, false, ◌||◌, not, Option, none, some, List, [], ◌∷◌, ◌++◌, leb, ◌==◌,
  str_eq, if◌then◌else◌, is_some,
}
use express_monorepo_bank_te.Base.Table.{find_by}
use express_monorepo_bank_te.Bank.Errors.{
  SqlState, unique_violation, foreign_key_violation, check_violation, out_of_range, query_error,
}
use express_monorepo_bank_te.Bank.Schema.{
  Customer, Account, TransferStatus, Transfer, AccountLock, AccountComment, Db, bigint_limit,
}
use express_monorepo_bank_te.Bank.Tx.{Result, ok, err, Tx}

-- The first constraint that refuses a row: CHECK, then the unique indexes, then the foreign keys.
abbrev refusal : Bool → Bool → Bool → Option SqlState
refusal bad_check duplicate dangling =
    if bad_check
    then some check_violation
    else if duplicate
    then some unique_violation
    else if dangling
    then some foreign_key_violation
    else none

-- The row is kept, or the statement fails.
abbrev outcome : {A : Type 0} → Option SqlState → A → Db → Db → Result (Option A) × Db
outcome none row kept lost = (ok (some row), kept)
outcome (some s) row kept lost = (err (query_error s), lost)

abbrev pub knows_account : ℕ → Db → Bool
knows_account id db = is_some (find_by Account.id id db.accounts)

unfoldable pub insert_customer : ℕ → ℕ → String → Tx (Option Customer)
insert_customer id now name db =
    let row : Customer = record {
      id = id;
      seq = db.sequences.customers;
      name = name;
      created_at = now;
    } in
    let lost = record db {
      sequences = record db.sequences { customers = db.sequences.customers + 1 };
    } in
    outcome (refusal false (is_some (find_by Customer.id id db.customers)) false) row
      (record lost { customers = db.customers ++ row ∷ [] }) lost

unfoldable pub insert_account : ℕ → ℕ → ℕ → ℕ → Tx (Option Account)
insert_account id now customer_id balance_cents db =
    let row : Account = record {
      id = id;
      seq = db.sequences.accounts;
      customer_id = customer_id;
      balance_cents = balance_cents;
      created_at = now;
    } in
    let lost = record db {
      sequences = record db.sequences { accounts = db.sequences.accounts + 1 };
    } in
    if leb bigint_limit balance_cents
    then (err (query_error out_of_range), db)
    else outcome
        (refusal false (is_some (find_by Account.id id db.accounts))
          (not (is_some (find_by Customer.id customer_id db.customers))))
        row (record lost { accounts = db.accounts ++ row ∷ [] }) lost

-- The values of a new row of `transfers`.
pub record NewTransfer : Type 0 where
  pub idempotency_key : Option String
  pub request_hash : Option String
  pub from_account_id : Option ℕ
  pub to_account_id : ℕ
  pub amount_cents : ℕ
  pub status : TransferStatus
  pub completed_at : Option ℕ

abbrev pub has_key : String → Transfer → Bool
has_key key t = elim t.idempotency_key [ none ↦ false | some k ↦ str_eq k key ]

-- `where eq(idempotencyKey, key)`
abbrev pub find_by_key : String → List Transfer → Option Transfer
find_by_key key [] = none
find_by_key key (t ∷ rows) = if has_key key t then some t else find_by_key key rows

-- The unique index on the keys that are not NULL.
abbrev pub key_taken : Option String → List Transfer → Bool
key_taken none rows = false
key_taken (some key) rows = is_some (find_by_key key rows)

abbrev pub dangling_source : Option ℕ → Db → Bool
dangling_source none db = false
dangling_source (some from) db = not (knows_account from db)

abbrev pub same_account : Option ℕ → ℕ → Bool
same_account none to = false
same_account (some from) to = from == to

abbrev pub transfer_row : ℕ → ℕ → ℕ → NewTransfer → Transfer
transfer_row id seq now v = record {
  id = id;
  seq = seq;
  idempotency_key = v.idempotency_key;
  request_hash = v.request_hash;
  from_account_id = v.from_account_id;
  to_account_id = v.to_account_id;
  amount_cents = v.amount_cents;
  status = v.status;
  failure_reason = none;
  created_at = now;
  completed_at = v.completed_at;
}

unfoldable pub insert_transfer : ℕ → ℕ → NewTransfer → Tx (Option Transfer)
insert_transfer id now v db =
    let row = transfer_row id db.sequences.transfers now v in
    let lost = record db {
      sequences = record db.sequences { transfers = db.sequences.transfers + 1 };
    } in
    if leb bigint_limit v.amount_cents
    then (err (query_error out_of_range), db)
    else outcome
        (refusal (v.amount_cents == 0 || same_account v.from_account_id v.to_account_id)
          (is_some (find_by Transfer.id id db.transfers)
            || key_taken v.idempotency_key db.transfers)
          (dangling_source v.from_account_id db || not (knows_account v.to_account_id db)))
        row (record lost { transfers = db.transfers ++ row ∷ [] }) lost

unfoldable pub insert_lock : ℕ → ℕ → ℕ → String → Tx (Option AccountLock)
insert_lock id now account_id reason db =
    let row : AccountLock = record {
      id = id;
      seq = db.sequences.locks;
      account_id = account_id;
      reason = reason;
      created_at = now;
      released_at = none;
    } in
    let lost = record db { sequences = record db.sequences { locks = db.sequences.locks + 1 } } in
    outcome
      (refusal false (is_some (find_by AccountLock.id id db.locks))
        (not (knows_account account_id db)))
      row (record lost { locks = db.locks ++ row ∷ [] }) lost

unfoldable pub insert_comment : ℕ → ℕ → ℕ → String → Tx (Option AccountComment)
insert_comment id now account_id body db =
    let row : AccountComment = record {
      id = id;
      seq = db.sequences.comments;
      account_id = account_id;
      body = body;
      created_at = now;
    } in
    let lost = record db {
      sequences = record db.sequences { comments = db.sequences.comments + 1 };
    } in
    outcome
      (refusal false (is_some (find_by AccountComment.id id db.comments))
        (not (knows_account account_id db)))
      row (record lost { comments = db.comments ++ row ∷ [] }) lost
