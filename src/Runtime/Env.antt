-- ===== src/Runtime/Env.antt =====
-- The environments of the services: `loadEnv` of apps/telemetry-ingest/src/env.ts,
-- apps/telemetry-consumers/src/env.ts, apps/app-apis/src/env.ts, apps/auth-api/src/env.ts and
-- apps/executor/src/env.ts. `integer` and `is_url` are those of the validation library: the whole
-- number that `z.coerce.number().int()` makes of a text, and the texts that `z.url` accepts.
use express_monorepo_bank_te.Base.{
  ℕ, zero, suc, ◌≤◌, String, Bool, true, false, ◌||◌, ◌&&◌, not, Option, none, some, List, [], ◌∷◌,
  ◌++◌, map, select, any_of, str_eq, leb, if◌then◌else◌,
}
use express_monorepo_bank_te.Base.Int.{ℤ, pos, negsuc}
use express_monorepo_bank_te.Runtime.Lists.{has_text, trim, parse_list}
use express_monorepo_bank_te.OpenApi.Json.{inherited}
pub mod Telemetry
pub mod Apis
pub mod Bounds

-- `process.env`
abbrev pub Source : Type 0
Source = String → Option String

-- What `safeParse` gives: the value, or the names with an issue.
pub data Checked (A : Type 0) : Type 0 where
  valid : A → Checked A
  issues : List String → Checked A

-- All fields are parsed, and the issues are those of all of them.
infixl 20 ◌<*>◌
abbrev pub ◌<*>◌ : {A B : Type 0} → Checked (A → B) → Checked A → Checked B
valid f <*> valid a = valid (f a)
valid f <*> issues ks = issues ks
issues js <*> valid a = issues js
issues js <*> issues ks = issues (js ++ ks)

-- A setting's text parsed, or what stands for an absent setting.
abbrev pub given : {A : Type 0} → Option String → (String → Checked A) → Checked A → Checked A
given none parse absent = absent
given (some t) parse absent = parse t

-- A value that passes a test.
abbrev pub check : {A : Type 0} → Bool → String → A → Checked A
check true key a = valid a
check false key a = issues (key ∷ [])

-- `z.string().min(1)`
abbrev pub required : Source → String → Checked String
required source key = given (source key) (λ t. check (has_text t) key t) (issues (key ∷ []))

-- `z.string().min(1).default(fallback)`
abbrev pub filled : Source → String → String → Checked String
filled source key fallback = given (source key) (λ t. check (has_text t) key t) (valid fallback)

-- `z.string().default(fallback)`
abbrev pub text_or : Source → String → String → Checked String
text_or source key fallback = given (source key) valid (valid fallback)

-- `z.string().optional()`
abbrev pub optional : Source → String → Checked (Option String)
optional source key = valid (source key)

-- `z.enum(options).default(fallback)`
abbrev pub one_of : List String → Source → String → String → Checked String
one_of options source key fallback =
    given (source key) (λ t. check (any_of (λ o. str_eq o t) options) key t) (valid fallback)

-- `z.string().default('')` and the transformation into a list
abbrev pub list_of : Source → String → Checked (List String)
list_of source key = given (source key) (λ t. valid (parse_list t)) (valid (parse_list ""))

-- `z.url()`
abbrev pub url : (String → Bool) → Source → String → Checked String
url is_url source key = given (source key) (λ t. check (is_url t) key t) (issues (key ∷ []))

abbrev pub node_envs : List String
node_envs = "development" ∷ "test" ∷ "production" ∷ []

abbrev pub log_levels : List String
log_levels = "fatal" ∷ "error" ∷ "warn" ∷ "info" ∷ "debug" ∷ "trace" ∷ "silent" ∷ []

-- `Object.keys(consumerGroups)`
abbrev pub consumer_names : List String
consumer_names = "locations" ∷ "fuel" ∷ "engine" ∷ "alerting" ∷ []

-- `name in consumerGroups`, of an object with the names of `Object.prototype`
abbrev pub known_consumer : String → Bool
known_consumer name =
    any_of (λ o. str_eq o name) consumer_names
    || any_of (λ o. str_eq o name) ("__proto__" ∷ inherited)

-- The transformation of `CONSUMERS`.
unfoldable pub parse_consumers : String → Checked (List String)
unfolding trim parse_list
parse_consumers value =
    if str_eq (trim value) "all"
    then valid consumer_names
    else check (not (any_of (λ name. not (known_consumer name)) (parse_list value))) "CONSUMERS"
        (parse_list value)

abbrev pub consumers_of : Source → Checked (List String)
consumers_of source = given (source "CONSUMERS") parse_consumers (parse_consumers "all")

-- `.positive()`
abbrev pub positive_of : String → Option ℤ → Checked ℕ
positive_of key (some (pos (suc n))) = valid (suc n)
positive_of key _ = issues (key ∷ [])

-- `.min(0).max(100)`
abbrev pub percent_of : String → Option ℤ → Checked ℕ
percent_of key (some (pos n)) = check (leb n 100) key n
percent_of key _ = issues (key ∷ [])

module _ (integer : String → Option ℤ) where
  -- `z.coerce.number().int().positive().default(fallback)`
  abbrev pub positive : Source → String → ℕ → Checked ℕ
  positive source key fallback =
      given (source key) (λ t. positive_of key (integer t)) (valid fallback)

  -- `z.coerce.number().int().min(0).max(100).default(fallback)`
  abbrev pub percent : Source → String → ℕ → Checked ℕ
  percent source key fallback =
      given (source key) (λ t. percent_of key (integer t)) (valid fallback)
