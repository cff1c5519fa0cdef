-- ===== src/Bank/Comments.antt =====
-- apps/app-apis/src/modules/comments/service.ts.
use express_monorepo_bank_te.Base.{
  ℕ, ◌<◌, String, ◌≡◌, List, [], ◌∷◌, ◌==◌, arith, select, select-append, All, All-select, is_some,
  true, ap, ◌∙◌, ◌++◌,
}
use express_monorepo_bank_te.Base.Table.{find_by}
use express_monorepo_bank_te.Base.Order.{order_desc, order-append_top}
use express_monorepo_bank_te.Bank.Errors.{plain}
use express_monorepo_bank_te.Bank.Schema.{Account, AccountComment, Db}
use express_monorepo_bank_te.Bank.Tx.{Tx, ok, or_throw, gets, ◌>>=◌, ◌>>◌}
use express_monorepo_bank_te.Bank.Inserts.{insert_comment}
use express_monorepo_bank_te.Bank.Locks.{assert_account_exists}

-- `CommentService.create`, with the id that the database draws and the time.
unfoldable pub create : ℕ → ℕ → ℕ → String → Tx AccountComment
unfolding assert_account_exists insert_comment
create id now account_id body = do
  assert_account_exists account_id
  inserted ← insert_comment id now account_id body
  or_throw inserted plain

-- `CommentService.list`
unfoldable pub list : ℕ → Tx (List AccountComment)
unfolding assert_account_exists
list account_id = do
  assert_account_exists account_id
  gets (λ db.
      order_desc AccountComment.seq
        (select (λ c. AccountComment.account_id c == account_id) db.comments))

-- The identity counter is above the `seq` of every row.
abbrev pub CounterAhead : Db → Type 0
CounterAhead db = All (λ c. AccountComment.seq c < db.sequences.comments) db.comments

module _ (id now account_id : ℕ) (body : String) (db : Db) (c : AccountComment)
    (created : (create id now account_id body db).0 ≡ ok c) where
  create_adds :
      (c.account_id ≡ account_id)
      × (c.seq ≡ db.sequences.comments)
      × ((create id now account_id body db).1.comments ≡ db.comments ++ c ∷ [])
      × ((create id now account_id body db).1.accounts ≡ db.accounts)
      × (is_some (find_by Account.id account_id db.accounts) ≡ true)
  unfolding create
  create_adds = ground arith

  listed_first :
      CounterAhead db
      → order_desc AccountComment.seq
          (select (λ u. AccountComment.account_id u == account_id) (db.comments ++ c ∷ []))
        ≡ c
          ∷ order_desc AccountComment.seq
              (select (λ u. AccountComment.account_id u == account_id) db.comments)
  listed_first ahead =
      let mine = λ (u : AccountComment). u.account_id == account_id in
      ap (order_desc AccountComment.seq)
        (select-append mine db.comments (c ∷ []) ∙ ground (arith, create_adds))
      ∙ order-append_top AccountComment.seq c (select mine db.comments)
          (All-select (λ u. AccountComment.seq u < c.seq) mine db.comments (rw create_adds.1 ahead))

-- With the identity counter above every `seq`, a comment that has just been created stands first in
-- the list of its account's comments, before those that the list had already, in their order.
pub list-create_comment :
    (id now account_id : ℕ) (body : String) (db : Db) (c : AccountComment)
    (before : List AccountComment)
    → CounterAhead db
    → (create id now account_id body db).0 ≡ ok c
    → (list account_id db).0 ≡ ok before
    → (list account_id (create id now account_id body db).1).0 ≡ ok (c ∷ before)
unfolding list
list-create_comment id now account_id body db c before ahead created listed = ground (
  arith,
  create_adds id now account_id body db c created,
  listed_first id now account_id body db c created ahead,
)
