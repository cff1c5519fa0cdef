-- ===== src/Bank/Api/Routes/Requests.antt =====
-- Requests and what their schemas make of them: `parseRequest` of packages/shared/src/middleware/validate.ts with the
-- schemas.ts of each module of apps/app-apis/src/modules. Each request comes with what its URL, query, headers and body
-- hold; a path parameter that is no UUID is `none`.
use express_monorepo_bank_te.Base.{ℕ, String, Bool, Option, none, some}
use express_monorepo_bank_te.Bank.Transfers.Service.{CreateTransferInput}
use express_monorepo_bank_te.Bank.Api.Validation.{
  RawNumber, TextTools, positive_cents, non_negative_cents, text_within, trimmed_within,
  history_limit, history_cursor, active_query,
}

-- A request as it comes in.
pub data Request : Type 0 where
  get_health : Request
  get_customers : Request
  post_customer : Option String → Request
  get_customer_by_id : Option ℕ → Request
  get_customer_accounts : Option ℕ → Request
  -- the customer and the opening deposit
  post_account : Option ℕ → RawNumber → Request
  get_account : Option ℕ → Request
  get_account_balance : Option ℕ → Request
  -- the account, the limit and the cursor
  get_account_transfers : Option ℕ → Option RawNumber → Option RawNumber → Request
  -- the Idempotency-Key, the two accounts and the amount
  post_transfer : Option String → Option ℕ → Option ℕ → RawNumber → Request
  get_transfer : Option ℕ → Request
  post_lock : Option ℕ → Option String → Request
  get_locks : Option ℕ → Option String → Request
  -- the account and the lock
  delete_lock : Option ℕ → Option ℕ → Request
  post_comment : Option ℕ → Option String → Request
  get_comments : Option ℕ → Request
  -- a method and path that no route has
  unrouted : Request

-- The input of a handler, once validated.
pub data Input : Type 0 where
  health : Input
  all_customers : Input
  new_customer : String → Input
  one_customer : ℕ → Input
  accounts_of : ℕ → Input
  new_account : ℕ → ℕ → Input
  one_account : ℕ → Input
  balance_of : ℕ → Input
  history_of : ℕ → ℕ → Option ℕ → Input
  new_transfer : CreateTransferInput → Input
  one_transfer : ℕ → Input
  new_lock : ℕ → String → Input
  locks_of : ℕ → Option Bool → Input
  release_of : ℕ → ℕ → Input
  new_comment : ℕ → String → Input
  comments_of : ℕ → Input

infixl 5 ◌>>-◌
abbrev ◌>>-◌ : {A B : Type 0} → Option A → (A → Option B) → Option B
none >>- f = none
some a >>- f = f a

-- The schemas of each module's routes.
module _ (tools : TextTools) where
  abbrev pub parse_customer : Option String → Option Input
  parse_customer name = trimmed_within tools 200 name >>- λ n. some (new_customer n)

  abbrev pub parse_account : Option ℕ → RawNumber → Option Input
  parse_account owner cents =
      owner >>- λ c. non_negative_cents cents >>- λ n. some (new_account c n)

  abbrev pub parse_history : Option ℕ → Option RawNumber → Option RawNumber → Option Input
  parse_history id limit cursor = id >>- λ i.
      history_limit limit >>- λ l. history_cursor cursor >>- λ c. some (history_of i l c)

  abbrev pub parse_transfer : Option String → Option ℕ → Option ℕ → RawNumber → Option Input
  parse_transfer key from to amount = from >>- λ f. to >>- λ t. positive_cents amount >>- λ n.
      text_within tools 255 key >>- λ k. some (
        new_transfer (record {
          idempotency_key = k;
          from_account_id = f;
          to_account_id = t;
          amount_cents = n;
        }))

  abbrev pub parse_lock : Option ℕ → Option String → Option Input
  parse_lock id reason = id >>- λ i. trimmed_within tools 1000 reason >>- λ r. some (new_lock i r)

  abbrev pub parse_lock_list : Option ℕ → Option String → Option Input
  parse_lock_list id active = id >>- λ i. active_query active >>- λ a. some (locks_of i a)

  abbrev pub parse_comment : Option ℕ → Option String → Option Input
  parse_comment id body = id >>- λ i. trimmed_within tools 5000 body >>- λ b. some (new_comment i b)

  -- `parseRequest` with the schemas of the request's route.
  unfoldable pub parse_request : Request → Option Input
  unfolding positive_cents non_negative_cents trimmed_within history_limit history_cursor
      active_query
  parse_request get_health = some health
  parse_request get_customers = some all_customers
  parse_request (post_customer name) = parse_customer name
  parse_request (get_customer_by_id id) = id >>- λ i. some (one_customer i)
  parse_request (get_customer_accounts id) = id >>- λ i. some (accounts_of i)
  parse_request (post_account owner cents) = parse_account owner cents
  parse_request (get_account id) = id >>- λ i. some (one_account i)
  parse_request (get_account_balance id) = id >>- λ i. some (balance_of i)
  parse_request (get_account_transfers id limit cursor) = parse_history id limit cursor
  parse_request (post_transfer key from to amount) = parse_transfer key from to amount
  parse_request (get_transfer id) = id >>- λ i. some (one_transfer i)
  parse_request (post_lock id reason) = parse_lock id reason
  parse_request (get_locks id active) = parse_lock_list id active
  parse_request (delete_lock id lock_id) = id >>- λ i. lock_id >>- λ l. some (release_of i l)
  parse_request (post_comment id body) = parse_comment id body
  parse_request (get_comments id) = id >>- λ i. some (comments_of i)
  parse_request unrouted = none
