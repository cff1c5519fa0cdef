-- ===== src/Examples/Services.antt =====
-- The Kafka client and the auth API at concrete inputs.
use express_monorepo_bank_te.Base.{
  ℕ, ◌≤◌, ◌+◌, map, replicate, true, false, Option, none, some, List, [], ◌∷◌, ◌++◌, ◌≡◌, ◌⊎◌, refl,
  any_of, select, str_eq, arith, ap, take, drop, length, ltb, lt→ltb, if◌then◌else◌,
}
use express_monorepo_bank_te.Bank.Errors.{
  app, unauthorized_error, invalid_credentials, is_unique_violation,
}
use express_monorepo_bank_te.Bank.Tx.{ok, err, is_ok}
use express_monorepo_bank_te.Bank.Api.Access.{bearer, same_text}
use express_monorepo_bank_te.Teltonika.Avl.{codec8}
use express_monorepo_bank_te.Telemetry.Events.{TelemetryEvent, TelemetryPayload, lls1}
use express_monorepo_bank_te.Telemetry.Vehicles.{resolve_all}
use express_monorepo_bank_te.Alerting.Handler.{
  AlertingConfig, AlertRow, AlertWorld, Clock, check_events, handle_alerts,
}
use express_monorepo_bank_te.Alerting.Freshness.{Extends, handle_alerts-Extends}
use express_monorepo_bank_te.Telemetry.Kafka.{
  PublishOptions, publish_telemetry, telemetry_live_topic, telemetry_backfill_topic,
  default_backfill_threshold_ms, DecodeResult, event, rejected, no_value, Message, each_batch,
}
use express_monorepo_bank_te.Telemetry.Kafka.Publishing.{home, sent, publish_telemetry_lem}
use express_monorepo_bank_te.Telemetry.Kafka.Batches.{decoded, undecoded, each_batch_returned}
use express_monorepo_bank_te.Auth.{
  Text, RegisterInput, Tools, TokenConfig, Claims, Jose, sign_token, register, insert_user,
}
use express_monorepo_bank_te.Auth.Routes.{
  Draw, handle, registration, login, me, reply, token, profile,
}
use express_monorepo_bank_te.Auth.RoundTrip.{IsReliable, same_text_refl, register-login}

abbrev options : PublishOptions
options = record {
  live_topic = telemetry_live_topic;
  backfill_topic = telemetry_backfill_topic;
  threshold_ms = default_backfill_threshold_ms;
}

abbrev reading : ℕ → TelemetryEvent
reading at = record {
  schema_version = 1;
  dedup_key = record { imei = 1 ∷ []; timestamp_ms = at; index = 0 };
  codec = codec8;
  payload = record {
    imei = 1 ∷ [];
    recorded_at = at;
    received_at = 900000;
    priority = 0;
    event_io_id = 0;
    gps = none;
    ignition = none;
    movement = none;
    fuel = [];
    external_voltage_mv = none;
    battery_voltage_mv = none;
    odometer_m = none;
    raw_io = [];
    raw_io_variable = [];
  };
}

publish_telemetry_lem_example :
    sent telemetry_backfill_topic (publish_telemetry options (reading 1 ∷ reading 900000 ∷ []))
    ≡ select
        (λ e. str_eq (home options e) telemetry_backfill_topic)
        (reading 1 ∷ reading 900000 ∷ [])
publish_telemetry_lem_example =
    publish_telemetry_lem options telemetry_backfill_topic (reading 1 ∷ reading 900000 ∷ [])

abbrev decode : Option (List ℕ) → DecodeResult
decode none = rejected no_value
decode (some value) = event (reading 1)

abbrev batch : List Message
batch =
    record { key = none; value = none; offset = 1 }
    ∷ record { key = none; value = some []; offset = 2 }
    ∷ []

each_batch_returned_example :
    let o = each_batch decode (λ m. true) (some (λ l. true)) (λ events. true) "live" batch in
    ((any_of (λ (m : Message). false) batch ≡ false)
      × (o.handled ≡ decoded decode "live" batch)
      × (o.letters ≡ undecoded decode "live" batch))
    ⊎ ((any_of (λ (m : Message). false) batch ≡ true) × (o.handled ≡ []))
unfolding each_batch
each_batch_returned_example =
    each_batch_returned decode (λ m. true) (λ l. true) (λ events. true) "live" batch refl

-- A hash that keeps the password, and tokens that are the numbers of their claims.
abbrev tools : Tools
tools = record {
  to_lower = λ t. t;
  sql_lower = λ t. t;
  hash = λ salt password. password;
  compare = λ password hashed. same_text password hashed;
  dummy_hash = 0 ∷ [];
}

abbrev read_token : ℕ → Text → Text → Text → Option Claims
read_token now iss aud (sub ∷ iat ∷ exp ∷ n ∷ rest) =
    if ltb now exp
    then some (record {
      sub = sub;
      email = take n rest;
      name = drop n rest;
      iss = iss;
      aud = aud;
      iat = iat;
      exp = exp;
    })
    else none
read_token now iss aud _ = none

abbrev jose : Jose
jose = record {
  sign = λ c. c.sub ∷ c.iat ∷ c.exp ∷ length c.email ∷ (c.email ++ c.name);
  jwt_verify = read_token;
}

take_all : (xs ys : Text) → take (length xs) (xs ++ ys) ≡ xs
take_all [] ys = refl
take_all (x ∷ xs) ys = ap (λ l. x ∷ l) (take_all xs ys)

drop_all : (xs ys : Text) → drop (length xs) (xs ++ ys) ≡ ys
drop_all [] ys = refl
drop_all (x ∷ xs) ys = drop_all xs ys

reliable : IsReliable tools jose
reliable = record {
  compare_hash = λ salt password. same_text_refl password;
  lower_again = λ t. refl;
  verify_sign = λ now c began lasts.
      rw (lt→ltb now c.exp lasts, take_all c.email c.name, drop_all c.email c.name) refl;
}

abbrev config : TokenConfig
config = record { issuer = 1 ∷ []; audience = 2 ∷ []; ttl_seconds = 3600 }

abbrev at : ℕ → Draw
at now = record { id = 7; salt = 5; now = now }

abbrev ada : RegisterInput
ada = record { email = 3 ∷ []; password = 4 ∷ []; name = 5 ∷ [] }

registered : is_ok (handle tools jose config (at 10) (registration ada) []).0 ≡ true
registered = unfold handle register insert_user is_unique_violation in refl

register-login_example :
    let (_, after) = handle tools jose config (at 10) (registration ada) [] in
    let issued =
      sign_token jose config 20 (record {
        id = 7;
        email = 3 ∷ [];
        password_hash = 4 ∷ [];
        name = 5 ∷ [];
        created_at = 10;
      }) in
    (handle tools jose config (at 20) (login (3 ∷ []) (4 ∷ [])) after
      ≡ (ok (reply 200 (token issued 3600)), after))
    × (handle tools jose config (at 30) (me (bearer ++ issued)) after
        ≡ (ok (reply 200 (profile 7 (3 ∷ []) (5 ∷ []))), after))
    × (handle tools jose config (at 20) (login (3 ∷ []) (9 ∷ [])) after
        ≡ (err (app (unauthorized_error invalid_credentials)), after))
register-login_example =
    register-login tools jose config (at 10) ada [] (at 20) (at 30) (3 ∷ []) (9 ∷ []) reliable
      registered refl (omega arith) (omega arith) refl

abbrev limits : AlertingConfig
limits = record {
  low_fuel_pct = 20;
  speed_limit_kph = 90;
  cooldown_ms = 1000;
  max_age_ms = 500;
  geofence_refresh_ms = 60000;
}

abbrev clock : Clock
clock = record { cutoff = 900000; checked = 900001; loaded = 900002 }

-- The older of two readings with a low tank, and the newer.
abbrev low : ℕ → TelemetryPayload
low at = record (TelemetryEvent.payload (reading at)) {
  imei = replicate 15 b'1';
  fuel = record { source = lls1; pct = some 5; liters = none } ∷ [];
}

abbrev watch : AlertWorld
watch = record {
  registry = record { cache = []; vehicles = [] };
  cache = none;
  zones = [];
  states = [];
  alerts = [];
}

handle_alerts-Extends_example :
    Extends
      (λ r. 900000 ≤ AlertRow.recorded_at r + 500)
      []
      (handle_alerts 1
        (λ gps g. 0)
        limits
        (λ imei. 8)
        clock
        (low 10 ∷ low 899900 ∷ [])
        watch).1.alerts
handle_alerts-Extends_example =
    handle_alerts-Extends 1 (λ gps g. 0) limits clock (λ imei. 8) (low 10 ∷ low 899900 ∷ []) watch

-- Only the newer raises one.
raised :
    map AlertRow.recorded_at
      (handle_alerts 1
        (λ gps g. 0)
        limits
        (λ imei. 8)
        clock
        (low 10 ∷ low 899900 ∷ [])
        watch).1.alerts
    ≡ 899900 ∷ []
unfolding handle_alerts check_events resolve_all
raised = refl
