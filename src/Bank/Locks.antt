-- ===== src/Bank/Locks.antt =====
-- apps/app-apis/src/modules/locks/service.ts.
pub mod Blocking
pub mod Release
use express_monorepo_bank_te.Base.{
  ℕ, String, Bool, true, false, ◌&&◌, not, Option, none, some, List, [], ◌∷◌, leb, ◌==◌,
  if◌then◌else◌, is_some, select,
}
use express_monorepo_bank_te.Base.Table.{find_by}
use express_monorepo_bank_te.Base.Order.{order_desc}
use express_monorepo_bank_te.Bank.Errors.{
  account_not_found, lock_not_found, lock_already_released, not_found_error, conflict_error, app,
  plain,
}
use express_monorepo_bank_te.Bank.Schema.{Account, AccountLock, Db}
use express_monorepo_bank_te.Bank.Tx.{Tx, ok, pure, throw, gets, or_throw, ◌>>=◌, ◌>>◌, transaction}
use express_monorepo_bank_te.Bank.Inserts.{insert_lock}

-- `assertAccountExists`
unfoldable pub assert_account_exists : ℕ → Tx (Unit {0})
assert_account_exists account_id = do
  account ← gets (λ db. find_by Account.id account_id db.accounts)
  or_throw account (app (not_found_error account_not_found))
  pure tt

-- `LockService.create`, with the id that the database draws and the time.
unfoldable pub create : ℕ → ℕ → ℕ → String → Tx AccountLock
unfolding insert_lock
create id now account_id reason = transaction (do
  account ← gets (λ db. find_by Account.id account_id db.accounts)
  or_throw account (app (not_found_error account_not_found))
  inserted ← insert_lock id now account_id reason
  or_throw inserted plain)

-- The filters of `list`: `active` is true, false, or absent.
abbrev pub is_listed : ℕ → Option Bool → AccountLock → Bool
is_listed account_id none l = l.account_id == account_id
is_listed account_id (some true) l = l.account_id == account_id && not (is_some l.released_at)
is_listed account_id (some false) l = l.account_id == account_id && is_some l.released_at

-- `LockService.list`
unfoldable pub list : ℕ → Option Bool → Tx (List AccountLock)
unfolding assert_account_exists
list account_id active = do
  assert_account_exists account_id
  gets (λ db. order_desc AccountLock.seq (select (is_listed account_id active) db.locks))

-- The WHERE clause of the release: this lock, of this account, not yet released.
abbrev pub is_releasable : ℕ → ℕ → AccountLock → Bool
is_releasable account_id lock_id l =
    l.id == lock_id && (l.account_id == account_id && not (is_some l.released_at))

abbrev pub mark_released : ℕ → AccountLock → AccountLock
mark_released now l = record l { released_at = some now }

-- `update … set released_at where …`
abbrev pub release_where : (AccountLock → Bool) → ℕ → List AccountLock → List AccountLock
release_where p now [] = []
release_where p now (l ∷ rows) = (if p l then mark_released now l else l) ∷ release_where p now rows

-- The first row that a query yields: `const [row] = …`.
abbrev pub first_row : {A : Type 0} → List A → Option A
first_row [] = none
first_row (x ∷ xs) = some x

abbrev pub returned : ℕ → AccountLock → Option AccountLock
returned now l = some (mark_released now l)

-- RETURNING yields the updated rows.
unfoldable pub update_released : ℕ → ℕ → ℕ → Tx (Option AccountLock)
update_released now account_id lock_id db = (
  ok (elim (first_row (select (is_releasable account_id lock_id) db.locks)) [
    | none ↦ none
    | some l ↦ returned now l
  ]),
  record db { locks = release_where (is_releasable account_id lock_id) now db.locks },
)

abbrev pub is_lock_of : ℕ → ℕ → AccountLock → Bool
is_lock_of account_id lock_id l = l.id == lock_id && l.account_id == account_id

-- What `release` does once the update has returned its first row, or none.
unfoldable pub finish_release : ℕ → ℕ → Option AccountLock → Tx AccountLock
finish_release account_id lock_id (some released) = pure released
finish_release account_id lock_id none = do
  row ← gets (λ db. first_row (select (is_lock_of account_id lock_id) db.locks))
  or_throw row (app (not_found_error lock_not_found))
  throw (app (conflict_error lock_already_released))

-- `LockService.release`
unfoldable pub release : ℕ → ℕ → ℕ → Tx AccountLock
unfolding assert_account_exists update_released finish_release
release now account_id lock_id = do
  assert_account_exists account_id
  released ← update_released now account_id lock_id
  finish_release account_id lock_id released
