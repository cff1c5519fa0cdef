-- ===== src/Bank/Api/Validation.antt =====
-- The Zod schemas of requests: money.ts and schemas.ts of packages/shared/src, and the schemas.ts of each module of
-- apps/app-apis/src/modules. A schema is a function that returns what it parses, or `none` for a ZodError.
use express_monorepo_bank_te.Base.{
  ℕ, ◌-◌, ◌^◌, String, Bool, true, false, ◌&&◌, Option, none, some, leb, str_eq, if◌then◌else◌,
}
use express_monorepo_bank_te.Base.Int.{ℤ, pos, negsuc}

-- `Number.MAX_SAFE_INTEGER`
abbrev pub max_safe_integer : ℕ
max_safe_integer = 2 ^ 53 - 1

-- A number of a JSON body, or what a query's text is coerced to: an integer, or anything else.
pub data RawNumber : Type 0 where
  integer : ℤ → RawNumber
  other : RawNumber

-- `z.int().min(low).max(high)`
abbrev pub int_between : ℕ → ℕ → RawNumber → Option ℕ
int_between low high (integer (pos n)) = if leb low n && leb n high then some n else none
int_between low high (integer (negsuc n)) = none
int_between low high other = none

-- `positiveCents`
unfoldable pub positive_cents : RawNumber → Option ℕ
positive_cents = int_between 1 max_safe_integer

-- `nonNegativeCents`
unfoldable pub non_negative_cents : RawNumber → Option ℕ
non_negative_cents = int_between 0 max_safe_integer

-- What the schemas use of text: `trim`, and the length in UTF-16 units.
pub record TextTools : Type 0 where
  pub trim : String → String
  pub size : String → ℕ

-- `z.string().min(1).max(high)`; `none` is a value that is missing or no text.
abbrev pub text_within : TextTools → ℕ → Option String → Option String
text_within tools high none = none
text_within tools high (some text) =
    if leb 1 (tools.size text) && leb (tools.size text) high then some text else none

abbrev pub trimmed : TextTools → Option String → Option String
trimmed tools none = none
trimmed tools (some text) = some (tools.trim text)

-- `z.string().trim().min(1).max(high)`
unfoldable pub trimmed_within : TextTools → ℕ → Option String → Option String
trimmed_within tools high raw = text_within tools high (trimmed tools raw)

-- `historyQuery.limit`; `none` is a parameter that is missing.
unfoldable pub history_limit : Option RawNumber → Option ℕ
history_limit none = some 50
history_limit (some n) = int_between 1 200 n

abbrev pub present : Option ℕ → Option (Option ℕ)
present none = none
present (some n) = some (some n)

-- `historyQuery.cursor`
unfoldable pub history_cursor : Option RawNumber → Option (Option ℕ)
history_cursor none = some none
history_cursor (some n) = present (int_between 1 max_safe_integer n)

-- `lockListQuery.active`
unfoldable pub active_query : Option String → Option (Option Bool)
active_query none = some none
active_query (some text) =
    if str_eq text "true"
    then some (some true)
    else if str_eq text "false"
    then some (some false)
    else none
