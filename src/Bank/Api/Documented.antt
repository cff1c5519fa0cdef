-- ===== src/Bank/Api/Documented.antt =====
-- What the routes answer: apps/app-apis/src/app.ts and modules/transfers/router.ts.
use express_monorepo_bank_te.Base.{
  ℕ, ◌<◌, String, Bool, true, false, ◌||◌, Option, none, some, List, [], ◌∷◌, ◌++◌, ◌≡◌, refl, ◌==◌,
  arith, drop, length, ap, Bool-cases, inl, inr,
}
use express_monorepo_bank_te.Bank.Errors.{internal_error, unauthorized, unauthorized_error, status}
use express_monorepo_bank_te.Bank.Responses.{error_handler}
use express_monorepo_bank_te.Bank.Tx.{Result, pure, ◌>>=◌}
use express_monorepo_bank_te.Bank.Schema.{bigint_limit}
use express_monorepo_bank_te.Bank.Transfers.Service.{
  System, CreateTransferInput, CreateTransferResult,
}
use express_monorepo_bank_te.Bank.Api.Validation.{TextTools}
use express_monorepo_bank_te.Bank.Api.Access.{
  AuthUser, refused, starts_with, bearer, is_public, public_path_prefixes, check_header,
  require_auth,
}
use express_monorepo_bank_te.Bank.Api.Routes.{
  Input, Message, preflight, unreadable, readable, no_content, new_transfer as submission, Response,
  reply, error, Draw, error_response, app_handle, settled_response, submitted,
}

-- A text with a prefix is the prefix and the rest.
starts_with_lem :
    (prefix text : List ℕ)
    → starts_with prefix text ≡ true
    → text ≡ prefix ++ drop (length prefix) text
starts_with_lem [] text e = refl
starts_with_lem (p ∷ prefix) [] e = ground arith
starts_with_lem (p ∷ prefix) (c ∷ text) e = ground (arith, starts_with_lem prefix text)

check_header_refused :
    (verify : List ℕ → Option AuthUser) (authorization : Option (List ℕ))
    → ((token : List ℕ) → authorization ≡ some (bearer ++ token) → verify token ≡ none)
    → check_header verify authorization ≡ refused (unauthorized_error unauthorized)
unfolding check_header
check_header_refused verify none untrusted = refl
check_header_refused verify (some header) untrusted =
    elim (Bool-cases (starts_with bearer header)) [
      | inl has ↦
          ground
            (arith, has, untrusted (drop 7 header) (ap some (starts_with_lem bearer header has)))
      | inr lacks ↦ rw lacks refl
    ]

-- The response to a message without an accepted token, on a path that is not public.
abbrev pub refusal : Message → Response
refusal preflight = reply 204 no_content
refusal unreadable = reply 500 (error internal_error)
refusal (readable r) = reply 401 (error unauthorized)

module _ (tools : TextTools) (digest : ℕ → ℕ → ℕ → String) (verify : List ℕ → Option AuthUser) where
  -- Outside the public paths, a message without an Authorization header that is `Bearer` and a token that
  -- the verifier accepts changes nothing: no row, no counter and no job. An OPTIONS request is answered
  -- 204 by cors, a body that express.json cannot read 500 `INTERNAL_ERROR`, and every other request 401
  -- `UNAUTHORIZED`.
  pub app_handle_unauthorized :
      (path : List ℕ) (authorization : Option (List ℕ)) (draw : Draw) (m : Message) (s : System)
      → is_public public_path_prefixes path ≡ false
      → ((token : List ℕ) → authorization ≡ some (bearer ++ token) → verify token ≡ none)
      → app_handle tools digest verify path authorization draw m s ≡ (refusal m, s)
  unfolding app_handle require_auth
  app_handle_unauthorized path authorization draw preflight s guarded untrusted = refl
  app_handle_unauthorized path authorization draw unreadable s guarded untrusted =
      unfold error_handler in refl
  app_handle_unauthorized path authorization draw (readable r) s guarded untrusted =
      rw (guarded, check_header_refused verify authorization untrusted)
        (unfold error_response error_handler status in refl)

-- The statuses that the route's OpenAPI entry lists for POST /transfers.
abbrev pub is_documented : ℕ → Bool
is_documented n = n == 202 || n == 200 || n == 400 || n == 404 || n == 409 || n == 422

-- The response to a submission.
abbrev pub answer : Result CreateTransferResult × System → Response
answer o = settled_response (((λ _. o) >>= λ r. pure (submitted r)) o.1).0

-- What the schema lets through.
data Parsed (r : Option Input) : Type 0 where
  rejected : r ≡ none → Parsed r
  passes :
      (input : CreateTransferInput)
      → r ≡ some (submission input)
      → 0 < input.amount_cents
      → input.amount_cents < bigint_limit
      → Parsed r
