-- ===== src/Bank/Api/Routes.antt =====
-- The routes of apps/app-apis: the router.ts of each module, and `mountRoutes` of packages/shared/src/route.ts.
pub mod Requests
unfoldable pub use Requests.*
use express_monorepo_bank_te.Base.{
  ℕ, String, Bool, true, Option, none, some, List, [], ◌∷◌, if◌then◌else◌,
}
use express_monorepo_bank_te.Bank.Errors.{ErrorCode, AppError, Failure, app, plain}
use express_monorepo_bank_te.Bank.Responses.{
  Thrown, zod_error, failure, not_found_handler, error_handler,
}
use express_monorepo_bank_te.Bank.Schema.{Customer, Account, AccountLock, AccountComment}
use express_monorepo_bank_te.Bank.Tx.{Result, ok, err, Exec, pure, ◌>>=◌}
use express_monorepo_bank_te.Bank.Transfers.Dto.{TransferDto, to_transfer_dto}
use express_monorepo_bank_te.Bank.Transfers.Service.{
  System, query, CreateTransferInput, CreateTransferResult, create as submit,
  get_by_id as get_transfer_row,
}
use express_monorepo_bank_te.Bank.Accounts.{
  AccountDetail, Balance, HistoryPage, create as open_account, get_detail, get_balance, get_history,
}
use express_monorepo_bank_te.Bank.Customers.{
  list as list_customers, create as create_customer, get_by_id as get_customer, list_accounts,
}
use express_monorepo_bank_te.Bank.Locks.{create as create_lock, list as list_locks, release}
use express_monorepo_bank_te.Bank.Comments.{create as create_comment, list as list_comments}
use express_monorepo_bank_te.Bank.Api.Validation.{
  RawNumber, TextTools, positive_cents, non_negative_cents, text_within, trimmed_within,
  history_limit, history_cursor, active_query,
}
use express_monorepo_bank_te.Bank.Api.Access.{
  AuthUser, Verdict, passed, refused, require_auth, public_path_prefixes,
}

pub data Body : Type 0 where
  healthy : Body
  customer : Customer → Body
  customers : List Customer → Body
  account : Account → Body
  accounts : List Account → Body
  detail : AccountDetail → Body
  balance : Balance → Body
  history : HistoryPage → Body
  transfer : TransferDto → Body
  lock : AccountLock → Body
  locks : List AccountLock → Body
  comment : AccountComment → Body
  comments : List AccountComment → Body
  -- the code of an error envelope
  error : ErrorCode → Body
  -- no body
  no_content : Body

-- What a request is to the middleware before authentication. `cors` answers every OPTIONS request, and calls
-- `next` for any other. `express.json` calls `next` with an error, which has a class of its own, for a body that
-- it cannot read: no JSON where the content type says so, or too large.
pub data Message : Type 0 where
  preflight : Message
  unreadable : Message
  readable : Request → Message

pub record Response : Type 0 where
  pub status : ℕ
  pub body : Body

abbrev pub reply : ℕ → Body → Response
reply status body = record { status = status; body = body }

-- What the world gives to a request: ids and a time for new rows, and whether the queue takes a job.
pub record Draw : Type 0 where
  pub id : ℕ
  pub second_id : ℕ
  pub now : ℕ
  pub accepts : Bool

-- `created ? 202 : 200`
abbrev pub submitted : CreateTransferResult → Response
submitted r = reply (if r.created then 202 else 200) (transfer (to_transfer_dto r.transfer))

module _ (digest : ℕ → ℕ → ℕ → String) (draw : Draw) where
  abbrev pub on_get_customers : Exec System Response
  on_get_customers = do rows ← query list_customers; pure (reply 200 (customers rows))

  abbrev pub on_post_customer : String → Exec System Response
  on_post_customer name = do
    row ← query (create_customer draw.id draw.now name)
    pure (reply 201 (customer row))

  abbrev pub on_get_customer : ℕ → Exec System Response
  on_get_customer id = do row ← query (get_customer id); pure (reply 200 (customer row))

  abbrev pub on_get_customer_accounts : ℕ → Exec System Response
  on_get_customer_accounts id = do rows ← query (list_accounts id); pure (reply 200 (accounts rows))

  abbrev pub on_post_account : ℕ → ℕ → Exec System Response
  on_post_account owner cents = do
    row ← query (open_account draw.id draw.second_id draw.now owner cents)
    pure (reply 201 (account row))

  abbrev pub on_get_account : ℕ → Exec System Response
  on_get_account id = do found ← query (get_detail id); pure (reply 200 (detail found))

  abbrev pub on_get_balance : ℕ → Exec System Response
  on_get_balance id = do found ← query (get_balance id); pure (reply 200 (balance found))

  abbrev pub on_get_history : ℕ → ℕ → Option ℕ → Exec System Response
  on_get_history id limit cursor = do
    page ← query (get_history id limit cursor)
    pure (reply 200 (history page))

  abbrev pub on_post_transfer : CreateTransferInput → Exec System Response
  on_post_transfer input = do
    result ← submit digest draw.accepts draw.id draw.now input
    pure (submitted result)

  abbrev pub on_get_transfer : ℕ → Exec System Response
  on_get_transfer id = do
    row ← query (get_transfer_row id)
    pure (reply 200 (transfer (to_transfer_dto row)))

  abbrev pub on_post_lock : ℕ → String → Exec System Response
  on_post_lock id reason = do
    row ← query (create_lock draw.id draw.now id reason)
    pure (reply 201 (lock row))

  abbrev pub on_get_locks : ℕ → Option Bool → Exec System Response
  on_get_locks id active = do rows ← query (list_locks id active); pure (reply 200 (locks rows))

  abbrev pub on_delete_lock : ℕ → ℕ → Exec System Response
  on_delete_lock id lock_id = do
    row ← query (release draw.now id lock_id)
    pure (reply 200 (lock row))

  abbrev pub on_post_comment : ℕ → String → Exec System Response
  on_post_comment id body = do
    row ← query (create_comment draw.id draw.now id body)
    pure (reply 201 (comment row))

  abbrev pub on_get_comments : ℕ → Exec System Response
  on_get_comments id = do rows ← query (list_comments id); pure (reply 200 (comments rows))

  -- The database and the queue answer.
  abbrev pub on_health : Exec System Response
  on_health = pure (reply 200 healthy)

  -- The handlers of the routes.
  unfoldable pub handle : Input → Exec System Response
  handle health = on_health
  handle all_customers = on_get_customers
  handle (new_customer name) = on_post_customer name
  handle (one_customer id) = on_get_customer id
  handle (accounts_of id) = on_get_customer_accounts id
  handle (new_account owner cents) = on_post_account owner cents
  handle (one_account id) = on_get_account id
  handle (balance_of id) = on_get_balance id
  handle (history_of id limit cursor) = on_get_history id limit cursor
  handle (new_transfer input) = on_post_transfer input
  handle (one_transfer id) = on_get_transfer id
  handle (new_lock id reason) = on_post_lock id reason
  handle (locks_of id active) = on_get_locks id active
  handle (release_of id lock_id) = on_delete_lock id lock_id
  handle (new_comment id body) = on_post_comment id body
  handle (comments_of id) = on_get_comments id

-- The response of the error middleware.
unfoldable pub error_response : Thrown → Response
unfolding error_handler
error_response thrown = reply (error_handler thrown).0 (error (error_handler thrown).1)

abbrev pub settled_response : Result Response → Response
settled_response (ok r) = r
settled_response (err e) = error_response (failure e)

abbrev pub thrown_by : Request → Thrown
thrown_by unrouted = not_found_handler
thrown_by _ = zod_error

module _ (tools : TextTools) (digest : ℕ → ℕ → ℕ → String) where
  -- A route mounted by `mountRoutes`, with the error middleware behind it.
  abbrev pub run_handler : Draw → Request → Option Input → System → Response × System
  run_handler draw request none s = (error_response (thrown_by request), s)
  run_handler draw request (some input) s =
      let (r, s') = handle digest draw input s in (settled_response r, s')

  unfoldable pub serve : Draw → Request → System → Response × System
  unfolding error_response
  serve draw request s = run_handler draw request (parse_request tools request) s

  abbrev pub admit : Draw → Request → Verdict → System → Response × System
  admit draw request (passed user) s = serve draw request s
  admit draw request (refused e) s = (error_response (failure (app e)), s)

  -- The application of `createApp`: cors, the JSON body, authentication and the routes. The path and the
  -- Authorization header come beside the message.
  unfoldable pub app_handle :
      (List ℕ → Option AuthUser)
      → List ℕ
      → Option (List ℕ)
      → Draw
      → Message
      → System
      → Response × System
  unfolding error_response
  app_handle verify path authorization draw preflight s = (reply 204 no_content, s)
  app_handle verify path authorization draw unreadable s = (error_response (failure plain), s)
  app_handle verify path authorization draw (readable request) s =
      admit draw request (require_auth verify public_path_prefixes path authorization) s
