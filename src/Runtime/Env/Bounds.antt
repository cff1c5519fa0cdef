-- ===== src/Runtime/Env/Bounds.antt =====
-- What the loaded environments are sure to hold.
use mathlib.Core.Path.{subst}
use express_monorepo_bank_te.Base.{
  ℕ, zero, suc, ◌≤◌, ◌<◌, String, Bool, true, false, ◌≡◌, refl, not, Option, none, some, List, [],
  ◌∷◌, any_of, All, leb, leb→le, if◌then◌else◌, arith, str_eq,
}
use express_monorepo_bank_te.Base.Int.{ℤ, pos, negsuc}
use express_monorepo_bank_te.Runtime.Lists.{has_text, trim, parse_list}
use express_monorepo_bank_te.Runtime.Env.{
  Source, Checked, valid, issues, ◌<*>◌, given, check, required, filled, one_of, node_envs,
  log_levels, known_consumer, parse_consumers, consumer_names, positive, positive_of, percent,
  percent_of,
}
use express_monorepo_bank_te.Runtime.Env.Telemetry.{ConsumersEnv, load_consumers}

-- A checked value, if there is one, has the property.
data Holds {A : Type 0} (P : A → Type 0) : Checked A → Type 0 where
  held : (a : A) → P a → Holds P (valid a)
  refused : (keys : List String) → Holds P (issues keys)

holds-<*> :
    {A B : Type 0} {P : B → Type 0} {Q : A → Type 0} {f : Checked (A → B)} {c : Checked A}
    → Holds (λ g. (a : A) → Q a → P (g a)) f
    → Holds Q c
    → Holds P (f <*> c)
holds-<*> (held g h) (held a k) = held (g a) (h a k)
holds-<*> (held g h) (refused keys) = refused keys
holds-<*> (refused keys) (held a k) = refused keys
holds-<*> (refused keys) (refused more) = refused _

valid_injective : {A : Type 0} (a b : A) → valid a ≡ valid b → a ≡ b
valid_injective a b e = cc

holds_at : {A : Type 0} {P : A → Type 0} {c : Checked A} (a : A) → Holds P c → c ≡ valid a → P a
holds_at {P = P} a (held b h) e = subst P (valid_injective b a e) h
holds_at a (refused keys) e = cc

anything : {A : Type 0} (c : Checked A) → Holds (λ a. Unit {0}) c
anything (valid a) = held a tt
anything (issues keys) = refused keys

given-Holds :
    {A : Type 0} {P : A → Type 0} (o : Option String) {parse : String → Checked A}
    {absent : Checked A}
    → ((t : String) → Holds P (parse t))
    → Holds P absent
    → Holds P (given o parse absent)
given-Holds none h k = k
given-Holds (some t) h k = h t

check-Holds :
    {A : Type 0} {P : A → Type 0} (b : Bool) (key : String) (a : A)
    → (b ≡ true → P a)
    → Holds P (check b key a)
check-Holds true key a h = held a (h refl)
check-Holds false key a h = refused (key ∷ [])

abbrev pub IsFilled : String → Type 0
IsFilled t = has_text t ≡ true

required-Holds : (source : Source) (key : String) → Holds IsFilled (required source key)
required-Holds source key =
    given-Holds (source key) (λ t. check-Holds (has_text t) key t (λ h. h)) (refused (key ∷ []))

positive_of-Holds : (key : String) (z : Option ℤ) → Holds (λ n. 0 < n) (positive_of key z)
positive_of-Holds key none = refused (key ∷ [])
positive_of-Holds key (some (pos zero)) = refused (key ∷ [])
positive_of-Holds key (some (pos (suc n))) = held (suc n) (omega arith)
positive_of-Holds key (some (negsuc n)) = refused (key ∷ [])

percent_of-Holds : (key : String) (z : Option ℤ) → Holds (λ n. n ≤ 100) (percent_of key z)
percent_of-Holds key none = refused (key ∷ [])
percent_of-Holds key (some (pos n)) = check-Holds (leb n 100) key n (leb→le n 100)
percent_of-Holds key (some (negsuc n)) = refused (key ∷ [])

-- Names that are keys of `consumerGroups` or of every object.
abbrev pub AreKnown : List String → Type 0
AreKnown names = All (λ name. known_consumer name ≡ true) names

none_fails :
    (p : String → Bool) (names : List String)
    → not (any_of (λ name. not (p name)) names) ≡ true
    → All (λ name. p name ≡ true) names
none_fails p [] h = tt
none_fails p (name ∷ names) h = (ground arith, none_fails p names (ground arith))

if-Holds :
    {A : Type 0} {P : A → Type 0} (b : Bool) {c d : Checked A}
    → Holds P c
    → Holds P d
    → Holds P (if b then c else d)
if-Holds true h k = h
if-Holds false h k = k

parse_consumers-Holds : (value : String) → Holds AreKnown (parse_consumers value)
unfolding parse_consumers
parse_consumers-Holds value =
    if-Holds (str_eq (trim value) "all") (held consumer_names (refl, (refl, (refl, (refl, tt))))) (
      check-Holds (not (any_of (λ name. not (known_consumer name)) (parse_list value))) "CONSUMERS"
        (parse_list value) (none_fails known_consumer (parse_list value)))

module _ (integer : String → Option ℤ) where
  positive-Holds :
      (source : Source) (key : String) (fallback : ℕ)
      → 0 < fallback
      → Holds (λ n. 0 < n) (positive integer source key fallback)
  positive-Holds source key fallback h =
      given-Holds (source key) (λ t. positive_of-Holds key (integer t)) (held fallback h)

  percent-Holds :
      (source : Source) (key : String) (fallback : ℕ)
      → fallback ≤ 100
      → Holds (λ n. n ≤ 100) (percent integer source key fallback)
  percent-Holds source key fallback h =
      given-Holds (source key) (λ t. percent_of-Holds key (integer t)) (held fallback h)

  -- The settings of the telemetry consumers, in their ranges.
  pub record InRange (env : ConsumersEnv) : Type 0 where
    pub port : 0 < env.port
    pub database : IsFilled env.telemetry_database_url
    pub brokers : IsFilled env.kafka_brokers
    pub known : AreKnown env.consumers
    pub low_fuel : env.low_fuel_pct ≤ 100
    pub speed_limit : 0 < env.speed_limit_kph
    pub cooldown : 0 < env.alert_cooldown_ms
    pub max_age : 0 < env.alert_max_age_ms
    pub refresh : 0 < env.geofence_refresh_ms

  load_consumers-Holds : (source : Source) → Holds InRange (load_consumers integer source)
  unfolding load_consumers
  load_consumers-Holds source =
      holds-<*>
        (holds-<*>
          (holds-<*>
            (holds-<*>
              (holds-<*>
                (holds-<*>
                  (holds-<*>
                    (holds-<*>
                      (holds-<*>
                        (holds-<*>
                          (holds-<*>
                            (holds-<*>
                              (held _
                                (λ node_env _ port a log_level _ url b brokers c client _ consumers
                                    d low e speed f cooldown g age h refresh i.
                                  record {
                                    port = a;
                                    database = b;
                                    brokers = c;
                                    known = d;
                                    low_fuel = e;
                                    speed_limit = f;
                                    cooldown = g;
                                    max_age = h;
                                    refresh = i;
                                  }))
                              (anything (one_of node_envs source "NODE_ENV" "development")))
                            (positive-Holds source "PORT" 3004 (omega arith)))
                          (anything (one_of log_levels source "LOG_LEVEL" "info")))
                        (required-Holds source "TELEMETRY_DATABASE_URL"))
                      (required-Holds source "KAFKA_BROKERS"))
                    (anything (filled source "KAFKA_CLIENT_ID" "telemetry-consumers")))
                  (given-Holds (source "CONSUMERS") parse_consumers-Holds
                    (parse_consumers-Holds "all")))
                (percent-Holds source "LOW_FUEL_PCT" 15 (omega arith)))
              (positive-Holds source "SPEED_LIMIT_KPH" 90 (omega arith)))
            (positive-Holds source "ALERT_COOLDOWN_MS" 900000 (omega arith)))
          (positive-Holds source "ALERT_MAX_AGE_MS" 600000 (omega arith)))
        (positive-Holds source "GEOFENCE_REFRESH_MS" 60000 (omega arith))

  -- Whatever the environment and whatever whole numbers its texts are read as: settings that
  -- are loaded have a positive port, speed limit, cooldown, maximal age and refresh interval,
  -- a low-fuel level of at most 100, a database URL and brokers that are not empty texts, and
  -- only consumers whose names pass the test `name in consumerGroups`.
  pub load_consumers_bounds :
      (source : Source) (env : ConsumersEnv)
      → load_consumers integer source ≡ valid env
      → InRange env
  load_consumers_bounds source env h = holds_at env (load_consumers-Holds source) h
