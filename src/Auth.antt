-- ===== src/Auth.antt =====
-- apps/auth-api: modules/auth/service.ts and lib/tokens.ts, and the table of users of packages/db/src/schema/users.ts.
-- Texts are lists of character codes. bcrypt, jose, JavaScript's `toLowerCase` and PostgreSQL's `lower` are given.
pub mod Routes
pub mod RoundTrip
use express_monorepo_bank_te.Base.{
  ℕ, ◌+◌, Bool, true, false, ◌||◌, ◌&&◌, Option, none, some, List, [], ◌∷◌, ◌++◌, any_of, is_some,
  if◌then◌else◌,
}
use express_monorepo_bank_te.Base.Table.{find_by}
use express_monorepo_bank_te.Bank.Errors.{
  email_taken, invalid_credentials, unauthorized, conflict_error, unauthorized_error,
  unique_violation, Failure, app, plain, query_error, is_unique_violation,
}
use express_monorepo_bank_te.Bank.Tx.{
  Result, ok, err, Exec, pure, throw, gets, or_throw, attempt, ◌>>=◌, ◌>>◌, throw_if,
}
use express_monorepo_bank_te.Bank.Api.Access.{same_text}

abbrev pub Text : Type 0
Text = List ℕ

pub record User : Type 0 where
  pub id : ℕ
  pub email : Text
  pub password_hash : Text
  pub name : Text
  pub created_at : ℕ

pub record RegisterInput : Type 0 where
  pub email : Text
  pub password : Text
  pub name : Text

-- What the service uses of other code. `hash` takes the salt that bcrypt draws.
pub record Tools : Type 0 where
  pub to_lower : Text → Text
  pub sql_lower : Text → Text
  pub hash : ℕ → Text → Text
  pub compare : Text → Text → Bool
  pub dummy_hash : Text

module _ (tools : Tools) where
  -- The unique index on `lower(email)`.
  abbrev pub email_used : Text → List User → Bool
  email_used email rows =
      any_of (λ u. same_text (tools.sql_lower (User.email u)) (tools.sql_lower email)) rows

  -- `insert(users).values(…).returning()`
  unfoldable pub insert_user : User → Exec (List User) (Option User)
  insert_user row rows =
      if email_used row.email rows || is_some (find_by User.id row.id rows)
      then (err (query_error unique_violation), rows)
      else (ok (some row), rows ++ row ∷ [])

  -- The end of `register`, after the `try` around the insert.
  abbrev pub finish_register : Result User → Exec (List User) User
  finish_register (ok user) = pure user
  finish_register (err e) =
      if is_unique_violation e then throw (app (conflict_error email_taken)) else throw e

  -- `AuthService.register`, with the id, the time and the salt that are drawn.
  unfoldable pub register : ℕ → ℕ → ℕ → RegisterInput → Exec (List User) User
  unfolding insert_user
  register id now salt input = do
    inserted ← attempt (do
      row ← insert_user (record {
        id = id;
        email = tools.to_lower input.email;
        password_hash = tools.hash salt input.password;
        name = input.name;
        created_at = now;
      })
      or_throw row plain)
    finish_register inserted

  -- `where eq(lower(email), email.toLowerCase())`
  abbrev pub find_by_email : Text → List User → Option User
  find_by_email email [] = none
  find_by_email email (u ∷ rows) =
      if same_text (tools.sql_lower u.email) email then some u else find_by_email email rows

  abbrev pub matches : Text → Option User → Bool
  matches password none = tools.compare password tools.dummy_hash
  matches password (some user) = tools.compare password user.password_hash

  -- `!user || !matches`
  abbrev pub checked : Option User → Bool → Exec (List User) User
  checked none matched = throw (app (unauthorized_error invalid_credentials))
  checked (some user) true = pure user
  checked (some user) false = throw (app (unauthorized_error invalid_credentials))

  -- `AuthService.verifyCredentials`
  unfoldable pub verify_credentials : Text → Text → Exec (List User) User
  verify_credentials email password = do
    user ← gets (find_by_email (tools.to_lower email))
    checked user (matches password user)

-- `AuthService.getById`
unfoldable pub get_by_id : ℕ → Exec (List User) User
get_by_id user_id = do
  user ← gets (find_by User.id user_id)
  or_throw user (app (unauthorized_error unauthorized))

pub record TokenConfig : Type 0 where
  pub issuer : Text
  pub audience : Text
  pub ttl_seconds : ℕ

-- The claims of a token. The subject is the user's id; times are in seconds.
pub record Claims : Type 0 where
  pub sub : ℕ
  pub email : Text
  pub name : Text
  pub iss : Text
  pub aud : Text
  pub iat : ℕ
  pub exp : ℕ

-- What `signToken` puts in a token.
abbrev pub claims_of : TokenConfig → ℕ → User → Claims
claims_of config now user = record {
  sub = user.id;
  email = user.email;
  name = user.name;
  iss = config.issuer;
  aud = config.audience;
  iat = now;
  exp = now + config.ttl_seconds;
}

pub record TokenUser : Type 0 where
  pub id : ℕ
  pub email : Text
  pub name : Text

abbrev pub token_user : Claims → TokenUser
token_user c = record { id = c.sub; email = c.email; name = c.name }

-- jose, with the service's key pair: `sign`, and `jwtVerify` at a time, for an issuer and an audience.
pub record Jose : Type 0 where
  pub sign : Claims → Text
  pub jwt_verify : ℕ → Text → Text → Text → Option Claims

-- `signToken`
unfoldable pub sign_token : Jose → TokenConfig → ℕ → User → Text
sign_token jose config now user = jose.sign (claims_of config now user)

-- `verifyToken`: whatever goes wrong is a 401.
unfoldable pub verify_token : Jose → TokenConfig → ℕ → Text → Exec (List User) TokenUser
verify_token jose config now token = do
  claims ←
      or_throw (jose.jwt_verify now config.issuer config.audience token)
        (app (unauthorized_error unauthorized))
  pure (token_user claims)
