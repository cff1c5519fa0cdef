-- ===== src/Examples/Machine.antt =====
-- A day of the bank: a customer, two accounts and a transfer between them, from an empty database.
use express_monorepo_bank_te.Base.{ℕ, ◌+◌, true, Option, none, some, List, [], ◌∷◌, ◌++◌, ◌≡◌, refl}
use express_monorepo_bank_te.Base.Int.{pos}
use express_monorepo_bank_te.Base.Table.{find_by, sum_of}
use express_monorepo_bank_te.Bank.Schema.{Transfer, empty}
use express_monorepo_bank_te.Bank.Errors.{unauthorized, internal_error}
use express_monorepo_bank_te.Bank.Responses.{error_handler}
use express_monorepo_bank_te.Bank.Inserts.{insert_transfer, insert_account}
use express_monorepo_bank_te.Bank.Accounts.{create as create_account, open_account, record_deposit}
use express_monorepo_bank_te.Bank.Customers.{create as create_customer}
use express_monorepo_bank_te.Bank.Transfers.Executor.{process_row, execute}
use express_monorepo_bank_te.Bank.Transfers.Service.{
  create, finish_create, enqueue_transfer, assert_accounts_exist,
}
use express_monorepo_bank_te.Bank.Ledger.{IsReconciled}
use express_monorepo_bank_te.Bank.Ledger.Delivery.{total_cents}
use express_monorepo_bank_te.Bank.Api.Validation.{TextTools, integer}
use express_monorepo_bank_te.Bank.Api.Access.{AuthUser, bearer, require_auth, is_public}
use express_monorepo_bank_te.Bank.Api.Routes.{
  Request, preflight, readable, unreadable, post_customer, post_account, post_transfer, Draw, reply,
  error, no_content, app_handle, serve, handle, parse_request,
}
use express_monorepo_bank_te.Bank.Api.Documented.{app_handle_unauthorized}
use express_monorepo_bank_te.Bank.Machine.{
  World, run_held, request, take, run, Reachable, start, next,
}
use express_monorepo_bank_te.Bank.Machine.Ledgers.{Reachable-IsReconciled, Reachable-total, paid_in}
use express_monorepo_bank_te.Bank.Machine.Refinement.{Move, balances, Step-refines}
use express_monorepo_bank_te.Examples.Fixtures.{digest, system}

abbrev tools : TextTools
tools = record { trim = λ t. t; size = λ t. 3 }

abbrev user : AuthUser
user = record { id = 1 ∷ []; email = 2 ∷ []; name = 3 ∷ [] }

abbrev verify : List ℕ → Option AuthUser
verify token = some user

abbrev header : Option (List ℕ)
header = some (bearer ++ 9 ∷ [])

abbrev draw : ℕ → Draw
draw n = record { id = n; second_id = n + 100; now = n; accepts = true }

abbrev asked : ℕ → Request → World → World
asked n r w = record w {
  system = (app_handle tools digest verify [] header (draw n) (readable r) w.system).1;
}

abbrev opened : World
opened = asked 3 (post_account (some 1) (integer (pos 0))) (
    asked 2 (post_account (some 1) (integer (pos 500))) (
      asked 1 (post_customer (some "ada"))
        (record { system = record { db = empty; jobs = [] }; held = none })))

abbrev submitted : World
submitted = asked 4 (post_transfer (some "key") (some 2) (some 3) (integer (pos 200))) opened

abbrev held : World
held = record submitted { held = find_by Transfer.id 4 submitted.system.db.transfers }

opened-Reachable : Reachable tools digest verify opened
opened-Reachable =
    next
      (next (next start (request [] header (draw 1) (readable (post_customer (some "ada")))))
        (request [] header (draw 2) (readable (post_account (some 1) (integer (pos 500))))))
      (request [] header (draw 3) (readable (post_account (some 1) (integer (pos 0)))))

held-Reachable : Reachable tools digest verify held
held-Reachable =
    next
      (next opened-Reachable (
        request [] header (draw 4)
          (readable (post_transfer (some "key") (some 2) (some 3) (integer (pos 200))))))
      (take 4)

Reachable-IsReconciled_example : IsReconciled (run_held 5 held).system.db
Reachable-IsReconciled_example =
    Reachable-IsReconciled tools digest verify (run_held 5 held) (next held-Reachable (run 5))

Reachable-total_example :
    total_cents (run_held 5 held).system.db ≡ sum_of paid_in (run_held 5 held).system.db.transfers
Reachable-total_example =
    Reachable-total tools digest verify (run_held 5 held) (next held-Reachable (run 5))

Step-refines_example : Move (balances held.system.db) (balances (run_held 5 held).system.db)
Step-refines_example =
    Step-refines tools digest verify held (run_held 5 held) held-Reachable (run 5)

-- The run completes the transfer.
moved :
    (balances (run_held 5 held).system.db 2 ≡ 300) × (balances (run_held 5 held).system.db 3 ≡ 200)
unfolding app_handle require_auth serve parse_request handle create finish_create enqueue_transfer
    assert_accounts_exist process_row execute insert_transfer create_account open_account
    record_deposit insert_account create_customer
moved = (refl, refl)

-- A preflight of a guarded path, and a body that is no JSON, are answered before authentication.
answered_early :
    (app_handle tools digest (λ token. none) [] none (draw 1) preflight system
      ≡ (reply 204 no_content, system))
    × (app_handle tools digest (λ token. none) [] none (draw 1) unreadable system
        ≡ (reply 500 (error internal_error), system))
unfolding app_handle error_handler
answered_early = (refl, refl)

app_handle_unauthorized_example :
    app_handle tools digest
      (λ token. none)
      []
      header
      (draw 1)
      (readable (post_customer (some "ada")))
      system
    ≡ (reply 401 (error unauthorized), system)
unfolding is_public
app_handle_unauthorized_example =
    app_handle_unauthorized tools digest (λ token. none) [] header (draw 1)
      (readable (post_customer (some "ada"))) system refl (λ token e. refl)
