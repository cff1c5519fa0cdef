-- ===== src/Bank/Locks/Release.antt =====
-- Releasing a lock.
use express_monorepo_bank_te.Base.{ℕ, ◌≡◌, refl, true, some, List, [], ◌∷◌, is_some, select, arith}
use express_monorepo_bank_te.Base.Table.{find_by}
use express_monorepo_bank_te.Bank.Errors.{app, conflict_error, lock_already_released}
use express_monorepo_bank_te.Bank.Schema.{Account, AccountLock, Db}
use express_monorepo_bank_te.Bank.Tx.{ok, err}
use express_monorepo_bank_te.Bank.Locks.{
  is_releasable, is_lock_of, release_where, first_row, release,
}

module _ (now account_id lock_id : ℕ) where
  -- After the update no row is left that it would take.
  select-released :
      (rows : List AccountLock)
      → select
          (is_releasable account_id lock_id)
          (release_where (is_releasable account_id lock_id) now rows)
        ≡ []
  select-released [] = refl
  select-released (l ∷ rows) = ground (arith, select-released rows)

  release-released :
      (later : ℕ) (rows : List AccountLock)
      → release_where
          (is_releasable account_id lock_id)
          later
          (release_where (is_releasable account_id lock_id) now rows)
        ≡ release_where (is_releasable account_id lock_id) now rows
  release-released later [] = refl
  release-released later (l ∷ rows) = ground (arith, release-released later rows)

  -- A released lock is still a lock of its account.
  released_kept :
      (rows : List AccountLock)
      → is_some (first_row (select (is_releasable account_id lock_id) rows)) ≡ true
      → is_some (
          first_row (
            select
              (is_lock_of account_id lock_id)
              (release_where (is_releasable account_id lock_id) now rows)))
        ≡ true
  released_kept [] h = cc
  released_kept (l ∷ rows) h = ground (arith, released_kept rows)

  module _ (db : Db) (l : AccountLock) (done : (release now account_id lock_id db).0 ≡ ok l) where
    -- A release that succeeds returns the lock with its time of release, and has stamped that lock only.
    pub release_stamps :
        (l.released_at ≡ some now)
        × ((release now account_id lock_id db).1
            ≡ record db { locks = release_where (is_releasable account_id lock_id) now db.locks })
    unfolding release
    release_stamps = ground arith

    release_took :
        (is_some (first_row (select (is_releasable account_id lock_id) db.locks)) ≡ true)
        × (is_some (find_by Account.id account_id db.accounts) ≡ true)
    unfolding release
    release_took = ground arith

    release_again :
        (later : ℕ)
        → let after = record db {
          locks = release_where (is_releasable account_id lock_id) now db.locks;
        } in
          release later account_id lock_id after
          ≡ (err (app (conflict_error lock_already_released)), after)
    unfolding release
    release_again later = ground (
      arith,
      release_took,
      released_kept db.locks,
      select-released db.locks,
      release-released later db.locks,
    )

-- A lock is released once: after a release that succeeded, releasing the same lock of the same account
-- again, at any later time, is refused with the 409 `LOCK_ALREADY_RELEASED` and changes nothing.
pub release-release :
    (now later account_id lock_id : ℕ) (db : Db) (l : AccountLock)
    → (release now account_id lock_id db).0 ≡ ok l
    → release later account_id lock_id (release now account_id lock_id db).1
      ≡ (err (app (conflict_error lock_already_released)), (release now account_id lock_id db).1)
release-release now later account_id lock_id db l done =
    rw (release_stamps now account_id lock_id db l done).1
      (release_again now account_id lock_id db l done later)
