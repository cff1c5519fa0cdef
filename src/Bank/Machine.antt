-- ===== src/Bank/Machine.antt =====
-- The banking system as a machine: the API of apps/app-apis, the transfers queue of packages/queue and the
-- one worker of apps/executor, over one database. The worker handles one job at a time, but requests are
-- handled between its read of a transfer's row and the run of the executor on that row.
pub mod Changes
pub mod Ledgers
pub mod Refinement
use express_monorepo_bank_te.Base.{ℕ, String, Option, none, List, []}
use express_monorepo_bank_te.Base.Table.{find_by}
use express_monorepo_bank_te.Bank.Schema.{Transfer, Db, empty}
use express_monorepo_bank_te.Bank.Transfers.Executor.{process_row}
use express_monorepo_bank_te.Bank.Transfers.Service.{System}
use express_monorepo_bank_te.Bank.Api.Validation.{TextTools}
use express_monorepo_bank_te.Bank.Api.Access.{AuthUser}
use express_monorepo_bank_te.Bank.Api.Routes.{Message, Draw, app_handle}

-- The system, and the row that the worker has read for its job and not yet run.
pub record World : Type 0 where
  pub system : System
  pub held : Option Transfer

-- The worker, with the row it read, runs the rest of the processor.
abbrev pub run_held : ℕ → World → World
run_held now w = record {
  system = record w.system { db = (process_row now w.held w.system.db).1 };
  held = none;
}

-- The tools of the environment: text, the digest of a payload and the token verifier.
module _ (tools : TextTools) (digest : ℕ → ℕ → ℕ → String) (verify : List ℕ → Option AuthUser) where
  pub data Step (w : World) : World → Type 0 where
    -- a request, with its path and its Authorization header
    request :
        (path : List ℕ) (authorization : Option (List ℕ)) (draw : Draw) (m : Message)
        → Step w (record w {
          system = (app_handle tools digest verify path authorization draw m w.system).1;
        })
    -- the worker takes a job of the queue, which may be one that it had before, and reads the row
    take :
        (transfer_id : ℕ)
        → Step w (record w { held = find_by Transfer.id transfer_id w.system.db.transfers })
    -- the worker runs the processor on the row
    run : (now : ℕ) → Step w (run_held now w)

  -- The worlds that steps lead to from an empty database.
  pub data Reachable : World → Type 0 where
    start : Reachable (record { system = record { db = empty; jobs = [] }; held = none })
    next : {w w' : World} → Reachable w → Step w w' → Reachable w'
