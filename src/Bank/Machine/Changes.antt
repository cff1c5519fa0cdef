-- ===== src/Bank/Machine/Changes.antt =====
-- What a request may do to the accounts and the transfers.
use mathlib.Core.Path.{subst}
use express_monorepo_bank_te.Base.{
  ℕ, String, Bool, true, false, none, [], ◌∷◌, ◌++◌, ◌≡◌, refl, sym, ltb, if◌then◌else◌, arith,
  Bool-cases, inl, inr,
}
use express_monorepo_bank_te.Base.Table.{find_by}
use express_monorepo_bank_te.Bank.Schema.{Account, Transfer, pending, Db}
use express_monorepo_bank_te.Bank.Tx.{is_ok, ok, err, Result, pure, Exec, ◌>>=◌}
use express_monorepo_bank_te.Bank.Api.Routes.{
  Response, Draw, Input, health, all_customers, new_customer, one_customer, accounts_of,
  new_account, one_account, balance_of, history_of, new_transfer, one_transfer, new_lock, locks_of,
  release_of, new_comment, comments_of, handle,
}
use express_monorepo_bank_te.Bank.Inserts.{NewTransfer, insert_transfer, transfer_row}
use express_monorepo_bank_te.Bank.Transfers.Service.{
  System, query, CreateTransferInput, new_transfer as draft, create as submit,
  get_by_id as get_transfer_row,
}
use express_monorepo_bank_te.Bank.Locks.{create as create_lock, list as list_locks, release}
use express_monorepo_bank_te.Bank.Comments.{create as create_comment, list as list_comments}
use express_monorepo_bank_te.Bank.Customers.{
  list as list_customers, create as create_customer, get_by_id as get_customer, list_accounts,
}
use express_monorepo_bank_te.Bank.Accounts.{
  create as open_account, get_detail, get_balance, get_history,
}
use express_monorepo_bank_te.Bank.Accounts.Opening.{
  opened, create_opens, create_refused, deposit_is_new,
}
use express_monorepo_bank_te.Bank.Ledger.Creating.{
  db-create, insert_transfer_kept, insert_transfer_refused,
}

-- The accounts and the transfers are as they were.
abbrev pub Kept : Db → Db → Type 0
Kept db db' = (db'.accounts ≡ db.accounts) × (db'.transfers ≡ db.transfers)

-- A request leaves the ledger as it was; or it adds a pending transfer; or an account, with a deposit
-- where its balance is positive.
pub data Change (db db' : Db) : Type 0 where
  kept : Kept db db' → Change db db'
  added :
      (row : Transfer)
      → row.status ≡ pending
      → find_by Transfer.id row.id db.transfers ≡ none
      → db'.accounts ≡ db.accounts
      → db'.transfers ≡ db.transfers ++ row ∷ []
      → Change db db'
  opens :
      (id transfer_id now customer amount : ℕ)
      → find_by Account.id id db.accounts ≡ none
      → (ltb 0 amount ≡ true → find_by Transfer.id transfer_id db.transfers ≡ none)
      → db' ≡ opened id transfer_id now customer amount db db'.sequences
      → Change db db'

pub unchanged : (db : Db) → Change db db
unchanged db = kept (refl, refl)

module _ (db : Db) where
  lock-Kept :
      (id now account : ℕ) (reason : String) → Kept db (create_lock id now account reason db).1
  unfolding create_lock
  lock-Kept id now account reason = ground arith

  comment-Kept :
      (id now account : ℕ) (body : String) → Kept db (create_comment id now account body db).1
  unfolding create_comment
  comment-Kept id now account body = ground arith

  customer-Kept : (id now : ℕ) (name : String) → Kept db (create_customer id now name db).1
  unfolding create_customer
  customer-Kept id now name = ground arith

  release-Kept : (now account lock : ℕ) → Kept db (release now account lock db).1
  unfolding release
  release-Kept now account lock = ground arith

  open-Change :
      (id transfer_id now customer amount : ℕ)
      → Change db (open_account id transfer_id now customer amount db).1
  open-Change id transfer_id now customer amount =
      elim (Bool-cases (is_ok (open_account id transfer_id now customer amount db).0)) [
        | inl done ↦
            let (_, is_new, after) = create_opens id transfer_id now customer amount db done in
            opens id transfer_id now customer amount is_new
              (deposit_is_new id transfer_id now customer amount db done) after
        | inr refused ↦
            kept (rw (create_refused id transfer_id now customer amount db refused) (refl, refl))
      ]

  insert-Change :
      (id now : ℕ) (v : NewTransfer)
      → v.status ≡ pending
      → Change db (insert_transfer id now v db).1
  insert-Change id now v is_open = elim (Bool-cases (is_ok (insert_transfer id now v db).0)) [
    | inl done ↦
        let (new_id, after) = insert_transfer_kept id now v db done in
        added (transfer_row id db.sequences.transfers now v) is_open new_id (rw after refl)
          (rw after refl)
    | inr refused ↦ kept (rw (insert_transfer_refused id now v db refused) (refl, refl))
  ]

either-Change :
    {db a b : Db} (c : Bool) → Change db a → Change db b → Change db (if c then a else b)
either-Change true x y = x
either-Change false x y = y

module _ (digest : ℕ → ℕ → ℕ → String) (draw : Draw) (s : System) where
  submit-Change :
      (input : CreateTransferInput)
      → Change s.db (submit digest draw.accepts draw.id draw.now input s).1.db
  submit-Change input =
      subst (Change s.db) (sym (db-create digest draw.accepts draw.id draw.now input s)) (
        either-Change _ (unchanged s.db) (
          either-Change _ (insert-Change s.db draw.id draw.now (draft digest input) refl)
            (unchanged s.db)))

  -- A handler that answers with what its query returned.
  answer-Change :
      {A : Type 0} (m : Exec System A) (f : A → Response)
      → Change s.db (m s).1.db
      → Change s.db ((m >>= λ a. pure (f a)) s).1.db
  answer-Change m f = by_outcome f (m s)
    where
      by_outcome :
          {A : Type 0} (f : A → Response) (o : Result A × System)
          → Change s.db o.1.db
          → Change s.db (((λ _. o) >>= λ a. pure (f a)) s).1.db
      by_outcome f (ok a, s') c = c
      by_outcome f (err e, s') c = c

  pub handle-Change : (input : Input) → Change s.db (handle digest draw input s).1.db
  unfolding handle list_customers get_customer list_accounts get_detail get_balance get_history
      get_transfer_row list_locks list_comments
  handle-Change health = unchanged s.db
  handle-Change all_customers = unchanged s.db
  handle-Change (new_customer name) =
      answer-Change (query (create_customer draw.id draw.now name)) _
        (kept (customer-Kept s.db draw.id draw.now name))
  handle-Change (one_customer id) = answer-Change (query (get_customer id)) _ (kept (ground arith))
  handle-Change (accounts_of id) = answer-Change (query (list_accounts id)) _ (kept (ground arith))
  handle-Change (new_account owner cents) =
      answer-Change (query (open_account draw.id draw.second_id draw.now owner cents)) _
        (open-Change s.db draw.id draw.second_id draw.now owner cents)
  handle-Change (one_account id) = answer-Change (query (get_detail id)) _ (kept (ground arith))
  handle-Change (balance_of id) = answer-Change (query (get_balance id)) _ (kept (ground arith))
  handle-Change (history_of id limit cursor) =
      answer-Change (query (get_history id limit cursor)) _ (kept (ground arith))
  handle-Change (new_transfer input) =
      answer-Change (submit digest draw.accepts draw.id draw.now input) _ (submit-Change input)
  handle-Change (one_transfer id) =
      answer-Change (query (get_transfer_row id)) _ (kept (ground arith))
  handle-Change (new_lock id reason) =
      answer-Change (query (create_lock draw.id draw.now id reason)) _
        (kept (lock-Kept s.db draw.id draw.now id reason))
  handle-Change (locks_of id active) =
      answer-Change (query (list_locks id active)) _ (kept (ground arith))
  handle-Change (release_of id lock_id) =
      answer-Change (query (release draw.now id lock_id)) _
        (kept (release-Kept s.db draw.now id lock_id))
  handle-Change (new_comment id body) =
      answer-Change (query (create_comment draw.id draw.now id body)) _
        (kept (comment-Kept s.db draw.id draw.now id body))
  handle-Change (comments_of id) = answer-Change (query (list_comments id)) _ (kept (ground arith))
