-- ===== src/Bank/Api/Access.antt =====
-- apps/app-apis/src/middleware/auth.ts: `requireAuth`. Paths and headers are lists of character codes.
use express_monorepo_bank_te.Base.{
  ℕ, Bool, true, false, ◌&&◌, ◌||◌, Option, none, some, List, [], ◌∷◌, ◌++◌, ◌==◌, drop, any_of,
  if◌then◌else◌,
}
use express_monorepo_bank_te.Bank.Errors.{AppError, unauthorized_error, unauthorized}

-- `text.startsWith(prefix)`
abbrev pub starts_with : List ℕ → List ℕ → Bool
starts_with [] text = true
starts_with (p ∷ prefix) [] = false
starts_with (p ∷ prefix) (c ∷ text) = (p == c) && starts_with prefix text

abbrev pub same_text : List ℕ → List ℕ → Bool
same_text [] [] = true
same_text (a ∷ s) (b ∷ t) = (a == b) && same_text s t
same_text _ _ = false

-- `req.path === prefix || req.path.startsWith(`${prefix}/`)`
unfoldable pub is_public : List (List ℕ) → List ℕ → Bool
is_public prefixes path =
    any_of (λ prefix. same_text path prefix || starts_with (prefix ++ b'/' ∷ []) path) prefixes

-- `PUBLIC_PATH_PREFIXES` of app.ts: /health and /docs.
abbrev pub public_path_prefixes : List (List ℕ)
public_path_prefixes =
    (b'/' ∷ b'h' ∷ b'e' ∷ b'a' ∷ b'l' ∷ b't' ∷ b'h' ∷ [])
    ∷ (b'/' ∷ b'd' ∷ b'o' ∷ b'c' ∷ b's' ∷ [])
    ∷ []

-- "Bearer "
abbrev pub bearer : List ℕ
bearer = b'B' ∷ b'e' ∷ b'a' ∷ b'r' ∷ b'e' ∷ b'r' ∷ b' ' ∷ []

pub record AuthUser : Type 0 where
  pub id : List ℕ
  pub email : List ℕ
  pub name : List ℕ

-- What the middleware does: it calls `next`, with the user where a token was verified, or it throws.
pub data Verdict : Type 0 where
  passed : Option AuthUser → Verdict
  refused : AppError → Verdict

abbrev pub verified : Option AuthUser → Verdict
verified none = refused (unauthorized_error unauthorized)
verified (some user) = passed (some user)

-- `verify` is the token verifier, which throws an UnauthorizedError for `none`.
unfoldable pub check_header : (List ℕ → Option AuthUser) → Option (List ℕ) → Verdict
check_header verify none = refused (unauthorized_error unauthorized)
check_header verify (some header) =
    if starts_with bearer header
    then verified (verify (drop 7 header))
    else refused (unauthorized_error unauthorized)

-- `requireAuth`
unfoldable pub require_auth :
    (List ℕ → Option AuthUser) → List (List ℕ) → List ℕ → Option (List ℕ) → Verdict
unfolding is_public check_header
require_auth verify prefixes path authorization =
    if is_public prefixes path then passed none else check_header verify authorization
