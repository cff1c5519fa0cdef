-- ===== src/Bank/Customers.antt =====
-- apps/app-apis/src/modules/customers/service.ts.
use express_monorepo_bank_te.Base.{
  ℕ, ◌<◌, String, ◌≡◌, none, List, [], ◌∷◌, ◌++◌, ◌==◌, arith, select, All,
}
use express_monorepo_bank_te.Base.Table.{find_by, find_by-append_self}
use express_monorepo_bank_te.Base.Order.{order_asc, order_asc-append_top}
use express_monorepo_bank_te.Bank.Errors.{customer_not_found, not_found_error, app, plain}
use express_monorepo_bank_te.Bank.Schema.{Account, Customer, Db}
use express_monorepo_bank_te.Bank.Tx.{Tx, ok, or_throw, gets, ◌>>=◌, ◌>>◌}
use express_monorepo_bank_te.Bank.Inserts.{insert_customer}

-- `CustomerService.list`
unfoldable pub list : Tx (List Customer)
list = gets (λ db. order_asc Customer.seq db.customers)

-- `CustomerService.getById`
unfoldable pub get_by_id : ℕ → Tx Customer
get_by_id customer_id = do
  customer ← gets (λ db. find_by Customer.id customer_id db.customers)
  or_throw customer (app (not_found_error customer_not_found))

-- `CustomerService.create`, with the id that the database draws and the time.
unfoldable pub create : ℕ → ℕ → String → Tx Customer
unfolding insert_customer
create id now name = do inserted ← insert_customer id now name; or_throw inserted plain

-- `CustomerService.listAccounts`
unfoldable pub list_accounts : ℕ → Tx (List Account)
unfolding get_by_id
list_accounts customer_id = do
  get_by_id customer_id
  gets
      (λ db. order_asc Account.seq (select (λ a. Account.customer_id a == customer_id) db.accounts))

-- The identity counter is above the `seq` of every row.
abbrev pub CounterAhead : Db → Type 0
CounterAhead db = All (λ c. Customer.seq c < db.sequences.customers) db.customers

module _ (id now : ℕ) (name : String) (db : Db) (c : Customer)
    (created : (create id now name db).0 ≡ ok c) where
  create_adds :
      (c.id ≡ id)
      × (c.name ≡ name)
      × (c.seq ≡ db.sequences.customers)
      × ((create id now name db).1.customers ≡ db.customers ++ c ∷ [])
      × (find_by Customer.id id db.customers ≡ none)
  unfolding create
  create_adds = ground arith

-- With the identity counter above every `seq`, a customer that has just been created is found by the
-- id and stands last in the list, behind those that the list had already, in their order.
pub list-create_customer :
    (id now : ℕ) (name : String) (db : Db) (c : Customer) (before : List Customer)
    → CounterAhead db
    → (create id now name db).0 ≡ ok c
    → (list db).0 ≡ ok before
    → ((get_by_id id (create id now name db).1).0 ≡ ok c)
      × ((list (create id now name db).1).0 ≡ ok (before ++ c ∷ []))
unfolding list get_by_id
list-create_customer id now name db c before ahead created listed = ground (
  arith,
  create_adds id now name db c created,
  find_by-append_self Customer.id c db.customers,
  order_asc-append_top Customer.seq c db.customers
      (rw (create_adds id now name db c created).2 ahead),
)
