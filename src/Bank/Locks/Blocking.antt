-- ===== src/Bank/Locks/Blocking.antt =====
-- A lock and the executor.
use express_monorepo_bank_te.Base.{
  ℕ, String, ◌≡◌, refl, ◌⊎◌, List, [], ◌∷◌, ◌++◌, true, Bool, arith, select, none,
}
use mathlib.Core.Path.{subst}
use express_monorepo_bank_te.Bank.Schema.{AccountLock, Db, Transfer, Account}
use express_monorepo_bank_te.Bank.Errors.{app, unprocessable_error, account_locked}
use express_monorepo_bank_te.Bank.Tx.{ok, err}
use express_monorepo_bank_te.Bank.Transfers.Executor.{blocks, execute}
use express_monorepo_bank_te.Bank.Locks.{create}
use express_monorepo_bank_te.Bank.Ledger.Execution.{IsPosted, IsUnlocked, execute_locked}

select-append_held :
    (p : AccountLock → Bool) (l : AccountLock) (rows : List AccountLock)
    → p l ≡ true
    → ¬ (select p (rows ++ l ∷ []) ≡ [])
select-append_held p l [] h e = ground arith
select-append_held p l (m ∷ rows) h e = ground (arith, select-append_held p l rows h)

module _ (id now account_id : ℕ) (reason : String) (db : Db) (l : AccountLock)
    (created : (create id now account_id reason db).0 ≡ ok l) where
  locks-create : (create id now account_id reason db).1.locks ≡ db.locks ++ l ∷ []
  unfolding create
  locks-create = ground arith

  create_active : (l.account_id ≡ account_id) × (l.released_at ≡ none)
  unfolding create
  create_active = ground arith

  -- Once a lock has been created, no transfer from or to its account is unlocked.
  create_locks :
      (from : ℕ) (t : Transfer)
      → (from ≡ account_id) ⊎ (t.to_account_id ≡ account_id)
      → ¬ IsUnlocked from t (create id now account_id reason db).1
  create_locks from t touches free =
      select-append_held (blocks from t.to_account_id) l db.locks (ground (arith, create_active))
        (subst (λ rows. select (blocks from t.to_account_id) rows ≡ []) locks-create free)

-- Once a lock on an account has been created, a transfer on the books out of that account or into it
-- is rejected by the executor with the 422 `ACCOUNT_LOCKED`, and no balance changes.
pub create-execute :
    (id now account_id : ℕ) (reason : String) (db : Db) (l : AccountLock)
    → (create id now account_id reason db).0 ≡ ok l
    → (later from : ℕ) (source target : Account) (t row : Transfer)
    → (from ≡ account_id) ⊎ (t.to_account_id ≡ account_id)
    → IsPosted from source target t row (create id now account_id reason db).1
    → let (r, after) = execute later t (create id now account_id reason db).1 in
      (r ≡ err (app (unprocessable_error account_locked)))
      × (after.accounts ≡ (create id now account_id reason db).1.accounts)
create-execute id now account_id reason db l created later from source target t row touches posted =
    rw
      (execute_locked later from source target t row (create id now account_id reason db).1 posted
        (create_locks id now account_id reason db l created from t touches))
      (refl, refl)
