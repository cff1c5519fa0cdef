-- ===== src/Bank/Transfers/Service/Accepting.antt =====
-- What `TransferService.create` does with a request, and with the same request sent again.
use express_monorepo_bank_te.Base.{
  ℕ, ◌+◌, ◌<◌, String, Bool, true, false, ◌||◌, ◌≡◌, ◌≢◌, refl, none, some, List, [], ◌∷◌, ◌++◌,
  map, ◌==◌, is_some, if◌then◌else◌, select, any_of, arith, eq_iff,
}
use express_monorepo_bank_te.Base.Table.{find_by}
use express_monorepo_bank_te.Bank.Errors.{
  idempotency_key_reused, conflict_error, app, plain, query_error, unique_violation,
  is_unique_violation,
}
use express_monorepo_bank_te.Bank.Schema.{Account, Transfer, Db, bigint_limit, is_pending}
use express_monorepo_bank_te.Bank.Tx.{ok, err}
use express_monorepo_bank_te.Bank.Inserts.{
  find_by_key, knows_account, transfer_row, insert_transfer, NewTransfer, key_taken,
}
use express_monorepo_bank_te.Bank.Transfers.Service.{
  System, CreateTransferInput, assert_accounts_exist, hash_request, new_transfer, enqueue_transfer,
  replay, finish_create, create,
}

-- A row that the query selects is found in the result exactly when the table has it.
pub any_of-select :
    (k j l : ℕ) (rows : List Account)
    → (k == j || k == l) ≡ true
    → any_of
        (λ id. id == k)
        (map Account.id (select (λ a. Account.id a == j || Account.id a == l) rows))
      ≡ is_some (find_by Account.id k rows)
any_of-select k j l [] h = refl
any_of-select k j l (a ∷ rows) h = ground (arith, any_of-select k j l rows h)

assert_accounts_exist_lem :
    (input : CreateTransferInput) (db : Db)
    → knows_account input.from_account_id db ≡ true
    → knows_account input.to_account_id db ≡ true
    → assert_accounts_exist input db ≡ (ok tt, db)
unfolding assert_accounts_exist
assert_accounts_exist_lem input db from to = ground (
  arith,
  any_of-select input.from_account_id input.from_account_id input.to_account_id db.accounts,
  any_of-select input.to_account_id input.from_account_id input.to_account_id db.accounts,
)

-- A request that passes the checks before the insert: two different accounts that exist, and an amount
-- that the column takes.
pub record IsAcceptable (input : CreateTransferInput) (db : Db) : Type 0 where
  pub distinct : input.from_account_id ≢ input.to_account_id
  pub has_source : knows_account input.from_account_id db ≡ true
  pub has_target : knows_account input.to_account_id db ≡ true
  pub positive : 0 < input.amount_cents
  pub in_range : input.amount_cents < bigint_limit

-- The counter of the transfers table moves.
abbrev pub bump : Db → Db
bump db = record db { sequences = record db.sequences { transfers = db.sequences.transfers + 1 } }

-- The insert, where every constraint holds, and where only the key or the id is taken.
module _ (id now : ℕ) (v : NewTransfer) (from : ℕ) (db : Db)
    (row_from : v.from_account_id ≡ some from) (distinct : from ≢ v.to_account_id)
    (positive : 0 < v.amount_cents) (in_range : v.amount_cents < bigint_limit) where
  insert_transfer_new :
      knows_account from db ≡ true
      → knows_account v.to_account_id db ≡ true
      → key_taken v.idempotency_key db.transfers ≡ false
      → find_by Transfer.id id db.transfers ≡ none
      → let row = transfer_row id db.sequences.transfers now v in
        insert_transfer id now v db
        ≡ (ok (some row), record (bump db) { transfers = db.transfers ++ row ∷ [] })
  unfolding insert_transfer
  insert_transfer_new has_source has_target new_key new_id = ground arith

  insert_transfer_taken :
      key_taken v.idempotency_key db.transfers ≡ true
      → insert_transfer id now v db ≡ (err (query_error unique_violation), bump db)
  unfolding insert_transfer
  insert_transfer_taken taken = ground arith

module _ (digest : ℕ → ℕ → ℕ → String) (accepts : Bool) (id now : ℕ) (input : CreateTransferInput)
    (s : System) where
  pub create_new :
      IsAcceptable input s.db
      → find_by_key input.idempotency_key s.db.transfers ≡ none
      → find_by Transfer.id id s.db.transfers ≡ none
      → accepts ≡ true
      → let row = transfer_row id s.db.sequences.transfers now (new_transfer digest input) in
        create digest accepts id now input s ≡ (
          ok (record { transfer = row; created = true }),
          record {
            db = record (bump s.db) { transfers = s.db.transfers ++ row ∷ [] };
            jobs = s.jobs ++ record { transfer_id = id; job_id = input.idempotency_key } ∷ [];
          },
        )
  unfolding create finish_create enqueue_transfer
  create_new a new_key new_id up = ground (
    arith,
    assert_accounts_exist_lem input s.db a.has_source a.has_target,
    insert_transfer_new id now (new_transfer digest input) input.from_account_id s.db refl
        a.distinct a.positive a.in_range a.has_source a.has_target,
  )

  -- An acceptable request with a new key and a free id, where the queue refuses the job, fails with an
  -- internal error; the pending row is kept, and no job is queued.
  pub create_unqueued :
      IsAcceptable input s.db
      → find_by_key input.idempotency_key s.db.transfers ≡ none
      → find_by Transfer.id id s.db.transfers ≡ none
      → accepts ≡ false
      → let row = transfer_row id s.db.sequences.transfers now (new_transfer digest input) in
        create digest accepts id now input s ≡ (
          err plain,
          record s { db = record (bump s.db) { transfers = s.db.transfers ++ row ∷ [] } },
        )
  unfolding create finish_create enqueue_transfer
  create_unqueued a new_key new_id down = ground (
    arith,
    assert_accounts_exist_lem input s.db a.has_source a.has_target,
    insert_transfer_new id now (new_transfer digest input) input.from_account_id s.db refl
        a.distinct a.positive a.in_range a.has_source a.has_target,
  )

  pub create_taken :
      (row : Transfer)
      → IsAcceptable input s.db
      → find_by_key input.idempotency_key s.db.transfers ≡ some row
      → create digest accepts id now input s
        ≡ replay accepts input.idempotency_key
            (hash_request digest input)
            (record s { db = bump s.db })
  unfolding create finish_create is_unique_violation
  create_taken row a known = ground (
    arith,
    assert_accounts_exist_lem input s.db a.has_source a.has_target,
    insert_transfer_taken id now (new_transfer digest input) input.from_account_id s.db refl
        a.distinct a.positive a.in_range,
  )

  -- A request whose key is taken by a row with the same payload gets that row as it now is. A row that
  -- is still pending is queued again under the same job id, which the queue must accept.
  pub create_replays :
      (row : Transfer)
      → IsAcceptable input s.db
      → find_by_key input.idempotency_key s.db.transfers ≡ some row
      → row.request_hash ≡ some (hash_request digest input)
      → accepts ≡ true
      → create digest accepts id now input s ≡ (
        ok (record { transfer = row; created = false }),
        record {
          db = bump s.db;
          jobs =
              if is_pending row.status
              then s.jobs ++ record { transfer_id = row.id; job_id = input.idempotency_key } ∷ []
              else s.jobs;
        },
      )
  unfolding replay enqueue_transfer
  create_replays row a known same up = ground (
    arith,
    create_taken row a known,
    eq_iff (hash_request digest input) (hash_request digest input),
  )

  -- A request between two distinct accounts that both exist, for a positive amount within the column's
  -- range, whose key is taken by a row that stores the digest of another payload, is refused with the 409
  -- `IDEMPOTENCY_KEY_REUSED`: no row is added or changed, and nothing is queued.
  pub create_conflicts :
      (row : Transfer) (hash : String)
      → IsAcceptable input s.db
      → find_by_key input.idempotency_key s.db.transfers ≡ some row
      → row.request_hash ≡ some hash
      → hash ≢ hash_request digest input
      → create digest accepts id now input s
        ≡ (err (app (conflict_error idempotency_key_reused)), record s { db = bump s.db })
  unfolding replay
  create_conflicts row hash a known stored differs =
      ground (arith, create_taken row a known, eq_iff hash (hash_request digest input))
