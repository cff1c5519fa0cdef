-- ===== src/Auth/Routes.antt =====
-- apps/auth-api/src/modules/auth: router.ts and schemas.ts, behind the middleware of packages/shared/src.
use express_monorepo_bank_te.Base.{
  ℕ, Bool, ◌||◌, ◌&&◌, not, Option, none, some, List, ◌==◌, leb, length, drop, any_of,
  if◌then◌else◌,
}
use express_monorepo_bank_te.Bank.Errors.{ErrorCode}
use express_monorepo_bank_te.Bank.Responses.{
  Thrown, zod_error, failure, not_found_handler, error_handler,
}
use express_monorepo_bank_te.Bank.Tx.{Result, ok, err, Exec, pure, ◌>>=◌}
use express_monorepo_bank_te.Bank.Api.Access.{starts_with, bearer}
use express_monorepo_bank_te.Auth.{
  Text, User, RegisterInput, Tools, register, verify_credentials, get_by_id, TokenConfig, Jose,
  sign_token, verify_token,
}

pub data Request : Type 0 where
  -- the email, the password and the name; `none` is a value that is missing or no text
  post_register : Option Text → Option Text → Option Text → Request
  post_login : Option Text → Option Text → Request
  -- the Authorization header
  get_me : Option Text → Request
  get_jwks : Request
  get_health : Request
  unrouted : Request

pub data Input : Type 0 where
  registration : RegisterInput → Input
  login : Text → Text → Input
  me : Text → Input
  jwks : Input
  health : Input

-- The validity of an email address by `z.email()`, and JavaScript's `trim`.
pub record Checks : Type 0 where
  pub is_email : Text → Bool
  pub trim : Text → Text

infixl 5 ◌>>-◌
abbrev ◌>>-◌ : {A B : Type 0} → Option A → (A → Option B) → Option B
none >>- f = none
some a >>- f = f a

abbrev pub sized : ℕ → ℕ → Text → Option Text
sized low high text = if leb low (length text) && leb (length text) high then some text else none

-- `z.email().max(320)`
abbrev pub email_text : Checks → Text → Option Text
email_text checks text = if checks.is_email text && leb (length text) 320 then some text else none

-- A character that `.` does not match.
abbrev pub ends_line : ℕ → Bool
ends_line c = c == 10 || c == 13 || c == 8232 || c == 8233

-- `/^Bearer .+$/`
abbrev pub bearer_text : Text → Option Text
bearer_text header =
    if starts_with bearer header && leb 8 (length header) && not (any_of ends_line header)
    then some header
    else none

abbrev pub parse_register : Checks → Option Text → Option Text → Option Text → Option Input
parse_register checks email password name = email >>- email_text checks >>- λ e.
    password >>- sized 8 200 >>- λ p. name >>- λ n. sized 1 200 (checks.trim n) >>- λ n.
    some (registration (record { email = e; password = p; name = n }))

abbrev pub parse_login : Checks → Option Text → Option Text → Option Input
parse_login checks email password =
    email >>- email_text checks >>- λ e. password >>- sized 1 200 >>- λ p. some (login e p)

-- `parseRequest` with the schemas of the request's route.
unfoldable pub parse_request : Checks → Request → Option Input
parse_request checks (post_register email password name) = parse_register checks email password name
parse_request checks (post_login email password) = parse_login checks email password
parse_request checks (get_me authorization) = authorization >>- bearer_text >>- λ h. some (me h)
parse_request checks get_jwks = some jwks
parse_request checks get_health = some health
parse_request checks unrouted = none

pub data Body : Type 0 where
  -- the id, the email, the name and the time of creation
  user : ℕ → Text → Text → ℕ → Body
  -- the token and its lifetime in seconds
  token : Text → ℕ → Body
  profile : ℕ → Text → Text → Body
  keys : Body
  healthy : Body
  error : ErrorCode → Body

pub record Response : Type 0 where
  pub status : ℕ
  pub body : Body

abbrev pub reply : ℕ → Body → Response
reply status body = record { status = status; body = body }

-- What the world gives to a request: an id, a salt, and the time in seconds.
pub record Draw : Type 0 where
  pub id : ℕ
  pub salt : ℕ
  pub now : ℕ

module _ (tools : Tools) (jose : Jose) (config : TokenConfig) (draw : Draw) where
  abbrev pub on_register : RegisterInput → Exec (List User) Response
  on_register input = do
    row ← register tools draw.id draw.now draw.salt input
    pure (reply 201 (user row.id row.email row.name row.created_at))

  abbrev pub on_login : Text → Text → Exec (List User) Response
  on_login email password = do
    row ← verify_credentials tools email password
    pure (reply 200 (token (sign_token jose config draw.now row) config.ttl_seconds))

  -- `headers.authorization.slice('Bearer '.length)` is the token.
  abbrev pub on_me : Text → Exec (List User) Response
  on_me header = do
    claims ← verify_token jose config draw.now (drop 7 header)
    row ← get_by_id claims.id
    pure (reply 200 (profile row.id row.email row.name))

  -- The handlers of the routes.
  unfoldable pub handle : Input → Exec (List User) Response
  unfolding register verify_credentials verify_token get_by_id
  handle (registration input) = on_register input
  handle (login email password) = on_login email password
  handle (me header) = on_me header
  handle jwks = pure (reply 200 keys)
  handle health = pure (reply 200 healthy)

abbrev pub error_response : Thrown → Response
error_response thrown = reply (error_handler thrown).0 (error (error_handler thrown).1)

abbrev pub settled_response : Result Response → Response
settled_response (ok r) = r
settled_response (err e) = error_response (failure e)

abbrev pub thrown_by : Request → Thrown
thrown_by unrouted = not_found_handler
thrown_by _ = zod_error

module _ (checks : Checks) (tools : Tools) (jose : Jose) (config : TokenConfig) where
  abbrev pub run_handler : Draw → Request → Option Input → List User → Response × List User
  run_handler draw request none rows = (error_response (thrown_by request), rows)
  run_handler draw request (some input) rows =
      let (r, rows') = handle tools jose config draw input rows in (settled_response r, rows')

  -- The application: a request is parsed, handled, and answered.
  unfoldable pub serve : Draw → Request → List User → Response × List User
  serve draw request rows = run_handler draw request (parse_request checks request) rows
