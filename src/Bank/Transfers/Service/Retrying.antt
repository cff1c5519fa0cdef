-- ===== src/Bank/Transfers/Service/Retrying.antt =====
-- A client that sends the same transfer request again, after an answer or after a failure.
use express_monorepo_bank_te.Base.{
  ℕ, String, Bool, true, false, ◌≡◌, refl, none, some, List, [], ◌∷◌, ◌++◌, if◌then◌else◌, arith,
  eq_iff, append_assoc,
}
use express_monorepo_bank_te.Base.Table.{find_by}
use express_monorepo_bank_te.Bank.Schema.{Transfer}
use express_monorepo_bank_te.Bank.Tx.{ok}
use express_monorepo_bank_te.Bank.Inserts.{find_by_key, transfer_row}
use express_monorepo_bank_te.Bank.Transfers.Service.{
  Job, System, CreateTransferInput, new_transfer, create,
}
use express_monorepo_bank_te.Bank.Transfers.Service.Accepting.{
  IsAcceptable, bump, create_new, create_unqueued, create_replays,
}

find_by_key-append :
    (key : String) (row : Transfer) (rows : List Transfer)
    → row.idempotency_key ≡ some key
    → find_by_key key rows ≡ none
    → find_by_key key (rows ++ row ∷ []) ≡ some row
find_by_key-append key row [] keyed h = ground (arith, eq_iff key key)
find_by_key-append key row (t ∷ rows) keyed h = ground (arith, find_by_key-append key row rows)

module _ (digest : ℕ → ℕ → ℕ → String) (id now : ℕ) (input : CreateTransferInput) (s : System)
    (a : IsAcceptable input s.db)
    (new_key : find_by_key input.idempotency_key s.db.transfers ≡ none)
    (new_id : find_by Transfer.id id s.db.transfers ≡ none) where
  abbrev row : Transfer
  row = transfer_row id s.db.sequences.transfers now (new_transfer digest input)

  abbrev job : Job
  job = record { transfer_id = id; job_id = input.idempotency_key }

  abbrev stored : System → System
  stored s' = record s' { db = record (bump s.db) { transfers = s.db.transfers ++ row ∷ [] } }

  stored-replays :
      (id' now' : ℕ) (jobs : List Job)
      → create digest true id' now' input (stored (record s { jobs = jobs })) ≡ (
        ok (record { transfer = row; created = false }),
        record { db = bump (stored s).db; jobs = jobs ++ job ∷ [] },
      )
  stored-replays id' now' jobs =
      create_replays digest true id' now' input (stored (record s { jobs = jobs })) row
        (record {
          distinct = a.distinct;
          has_source = a.has_source;
          has_target = a.has_target;
          positive = a.positive;
          in_range = a.in_range;
        })
        (find_by_key-append input.idempotency_key row s.db.transfers refl new_key) refl refl

  -- An acceptable request with a new key, sent twice: whether or not the queue took the job the first
  -- time, the second call, which it does take, answers with the row of the first call and
  -- `created` false; the table has that one new row; and the job of that row has been queued, once for
  -- each call that the queue took, always under the key as its id.
  pub create_again :
      (up : Bool) (id' now' : ℕ)
      → let (r, s') = create digest true id' now' input (create digest up id now input s).1 in
        (r ≡ ok (record { transfer = row; created = false }))
        × (s'.db.transfers ≡ s.db.transfers ++ row ∷ [])
        × (s'.jobs ≡ s.jobs ++ (if up then job ∷ job ∷ [] else job ∷ []))
  create_again true id' now' = rw (create_new digest true id now input s a new_key new_id refl) (
      rw (stored-replays id' now' (s.jobs ++ job ∷ []))
        (refl, refl, append_assoc s.jobs (job ∷ []) (job ∷ [])))
  create_again false id' now' =
      rw (create_unqueued digest false id now input s a new_key new_id refl)
        (rw (stored-replays id' now' s.jobs) (refl, refl, refl))
