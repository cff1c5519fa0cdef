-- ===== src/Examples/Requests.antt =====
-- The services on the bank of Fixtures.
use mathlib.Core.List.{Perm}
use express_monorepo_bank_te.Base.{
  true, false, ◌≡◌, refl, none, List, [], ◌∷◌, map, select, arith, eq_iff,
}
use express_monorepo_bank_te.Base.Order.{insert_desc, order_desc, IsDescending}
use express_monorepo_bank_te.Bank.Errors.{app, plain, conflict_error, idempotency_key_reused}
use express_monorepo_bank_te.Bank.Schema.{Customer, Transfer, AccountComment}
use express_monorepo_bank_te.Bank.Tx.{ok, err}
use express_monorepo_bank_te.Bank.Inserts.{transfer_row}
use express_monorepo_bank_te.Bank.Transfers.Dto.{to_transfer_dto}
use express_monorepo_bank_te.Bank.Transfers.Service.{create, new_transfer}
use express_monorepo_bank_te.Bank.Transfers.Service.Accepting.{
  IsAcceptable, create_replays, create_conflicts, create_unqueued, bump,
}
use express_monorepo_bank_te.Bank.Transfers.Service.Retrying.{create_again}
use express_monorepo_bank_te.Bank.Accounts.History.{takes_part, follow, history_complete}
use express_monorepo_bank_te.Examples.Fixtures.{
  source, deposit, waiting, bank, system, digest, fresh, reused,
}

fresh-IsAcceptable : IsAcceptable fresh bank
fresh-IsAcceptable = record {
  distinct = ground arith;
  has_source = refl;
  has_target = refl;
  positive = omega arith;
  in_range = omega arith;
}

reused-IsAcceptable : IsAcceptable reused bank
reused-IsAcceptable = record {
  distinct = ground arith;
  has_source = refl;
  has_target = refl;
  positive = omega arith;
  in_range = omega arith;
}

abbrev fresh_row : Transfer
fresh_row = transfer_row 13 3 9 (new_transfer digest fresh)

create_again_example :
    let (r, s') = create digest true 14 10 fresh (create digest false 13 9 fresh system).1 in
    (r ≡ ok (record { transfer = fresh_row; created = false }))
    × (s'.db.transfers ≡ deposit ∷ waiting ∷ fresh_row ∷ [])
    × (s'.jobs ≡ record { transfer_id = 13; job_id = "new" } ∷ [])
create_again_example =
    create_again digest 13 9 fresh system fresh-IsAcceptable refl refl false 14 10

create_replays_example : create (λ from to amount. "other") true 13 9 reused system ≡ (
  ok (record { transfer = waiting; created = false }),
  record { db = bump bank; jobs = record { transfer_id = 12; job_id = "key" } ∷ [] },
)
create_replays_example =
    create_replays (λ from to amount. "other") true 13 9 reused system waiting reused-IsAcceptable
      refl refl refl

create_conflicts_example :
    create digest true 13 9 reused system
    ≡ (err (app (conflict_error idempotency_key_reused)), record system { db = bump bank })
create_conflicts_example =
    create_conflicts digest true 13 9 reused system waiting "other" reused-IsAcceptable refl refl
      (ground (arith, eq_iff "other" "hash"))

create_unqueued_example : create digest false 13 9 fresh system ≡ (
  err plain,
  record system { db = record (bump bank) { transfers = deposit ∷ waiting ∷ fresh_row ∷ [] } },
)
create_unqueued_example =
    create_unqueued digest false 13 9 fresh system fresh-IsAcceptable refl refl refl

abbrev note : AccountComment
note = record { id = 8; seq = 1; account_id = 1; body = "b"; created_at = 9 }

abbrev newcomer : Customer
newcomer = record { id = 6; seq = 2; name = "n"; created_at = 9 }

history_complete_example :
    (rows : List Transfer) × (follow 5 1 1 none bank ≡ map to_transfer_dto rows)
    × IsDescending Transfer.seq rows
    × Perm rows (select (takes_part 1) bank.transfers)
unfolding order_desc insert_desc
history_complete_example =
    history_complete 1 1 5 source bank refl (refl, (refl, tt)) (omega arith) (omega arith)
