-- ===== src/Examples/Operations.antt =====
-- The entry points of the services and the ingest server at concrete inputs.
use express_monorepo_bank_te.Base.{
  ◌+◌, ℕ, List, false, String, ◌≡◌, refl, Option, none, some, [], ◌∷◌, str_eq, if◌then◌else◌, true,
  arith,
}
use express_monorepo_bank_te.Base.Int.{ℤ}
use express_monorepo_bank_te.Teltonika.Framer.{push}
use express_monorepo_bank_te.Teltonika.Avl.{parse_avl_packet, parse_body, read_data}
use express_monorepo_bank_te.Teltonika.Cursor.{read_uint}
use express_monorepo_bank_te.Teltonika.Crc.{crc16ibm}
use express_monorepo_bank_te.Teltonika.Imei.{try_parse_imei_frame}
use express_monorepo_bank_te.Telemetry.Ingest.Server.{
  Server, Arrival, connected, data_from, timed_out, closed, close_called, serve_all,
}
use express_monorepo_bank_te.Telemetry.Ingest.Server.Isolation.{
  view, serve_alone, serve_all_isolates,
}
use express_monorepo_bank_te.Runtime.Lists.{parse_list}
use express_monorepo_bank_te.Runtime.Env.{Source, valid, consumers_of, parse_consumers}
use express_monorepo_bank_te.Runtime.Env.Telemetry.{ConsumersEnv, load_consumers}
use express_monorepo_bank_te.Runtime.Env.Bounds.{InRange, load_consumers_bounds}
use express_monorepo_bank_te.Runtime.Shutdown.{
  telemetry_ingest, signal, task_over, live, started, plan,
}
use express_monorepo_bank_te.Runtime.Shutdown.Orderly.{shutdown_ends}

-- An environment with the two settings that have no default, and a list of two consumers.
abbrev settings : Source
settings key =
    if str_eq key "TELEMETRY_DATABASE_URL"
    then some "postgres://db"
    else if str_eq key "KAFKA_BROKERS"
    then some "kafka:9092"
    else if str_eq key "CONSUMERS"
    then some "fuel, alerting"
    else none

-- Numbers of one digit would do; these settings have none.
abbrev no_number : String → Option ℤ
no_number t = none

abbrev loaded : ConsumersEnv
loaded = record {
  node_env = "development";
  port = 3004;
  log_level = "info";
  telemetry_database_url = "postgres://db";
  kafka_brokers = "kafka:9092";
  kafka_client_id = "telemetry-consumers";
  consumers = "fuel" ∷ "alerting" ∷ [];
  low_fuel_pct = 15;
  speed_limit_kph = 90;
  alert_cooldown_ms = 900000;
  alert_max_age_ms = 600000;
  geofence_refresh_ms = 60000;
}

settings_load : load_consumers no_number settings ≡ valid loaded
unfolding load_consumers parse_consumers
settings_load = refl

load_consumers_bounds_example : InRange no_number loaded
load_consumers_bounds_example = load_consumers_bounds no_number settings loaded settings_load

-- A value with commas only passes the check of its length, and names no broker and no consumer.
empty_lists : (parse_list "," ≡ []) × (consumers_of (λ key. some ",") ≡ valid [])
unfolding parse_list parse_consumers
empty_lists = (refl, refl)

-- The name of a function that every object has is taken for a consumer.
inherited_consumer : consumers_of (λ key. some "toString") ≡ valid ("toString" ∷ [])
unfolding parse_consumers
inherited_consumer = refl

-- Blanks around the values and empty values do not count.
two_brokers : parse_list "a:1, b:2,," ≡ "a:1" ∷ "b:2" ∷ []
unfolding parse_list
two_brokers = refl

shutdown_ends_example :
    ((live telemetry_ingest
        (signal ∷ task_over ∷ signal ∷ task_over ∷ task_over ∷ [])
        started).exited
      ≡ some 0)
    × ((live telemetry_ingest
          (signal ∷ task_over ∷ signal ∷ task_over ∷ task_over ∷ [])
          started).finished
        ≡ plan telemetry_ingest)
unfolding plan
shutdown_ends_example =
    shutdown_ends telemetry_ingest (task_over ∷ signal ∷ task_over ∷ task_over ∷ []) tt
      (omega arith)

-- A server that listens and has no connection.
abbrev idle : Server
idle = record { alive = true; listening = true; connections = [] }

abbrev arrivals : List Arrival
arrivals =
    connected 1
    ∷ connected 2
    ∷ data_from 2 (λ i. 100 + i) (0 ∷ [])
    ∷ timed_out 1
    ∷ closed 2
    ∷ close_called
    ∷ []

serve_all_isolates_example :
    view 1 (serve_all (λ events. true) arrivals idle)
    ≡ serve_alone (λ events. true) 1 arrivals (view 1 idle)
unfolding serve_all push try_parse_imei_frame
serve_all_isolates_example = serve_all_isolates (λ events. true) 1 arrivals idle refl

-- An announced device sends a packet with a record whose time is the largest of eight bytes.
abbrev late_record : List ℕ
late_record =
    0 ∷ 15 ∷ 51 ∷ 53 ∷ 54 ∷ 51 ∷ 48 ∷ 55 ∷ 48 ∷ 52 ∷ 50 ∷ 52 ∷ 52 ∷ 49 ∷ 48 ∷ 49 ∷ 51 ∷ 0 ∷ 0 ∷ 0
    ∷ 0 ∷ 0 ∷ 0 ∷ 0 ∷ 54 ∷ 142 ∷ 1 ∷ 255 ∷ 255 ∷ 255 ∷ 255 ∷ 255 ∷ 255 ∷ 255 ∷ 255 ∷ 1 ∷ 0 ∷ 0 ∷ 0
    ∷ 250 ∷ 255 ∷ 255 ∷ 255 ∷ 246 ∷ 0 ∷ 100 ∷ 0 ∷ 90 ∷ 7 ∷ 0 ∷ 60 ∷ 0 ∷ 239 ∷ 0 ∷ 3 ∷ 0 ∷ 1 ∷ 0
    ∷ 239 ∷ 1 ∷ 0 ∷ 1 ∷ 0 ∷ 66 ∷ 48 ∷ 212 ∷ 0 ∷ 0 ∷ 0 ∷ 0 ∷ 0 ∷ 1 ∷ 1 ∷ 129 ∷ 0 ∷ 2 ∷ 1 ∷ 2 ∷ 1 ∷ 0
    ∷ 0 ∷ 31 ∷ 108 ∷ []

-- The packet's checksum is right, and the process ends, with the connections of all devices.
late_record_ends :
    Server.alive (
      serve_all
        (λ events. true)
        (connected 1 ∷ connected 2 ∷ data_from 2 (λ i. 100 + i) late_record ∷ [])
        idle)
    ≡ false
unfolding serve_all push try_parse_imei_frame parse_avl_packet read_uint parse_body crc16ibm
    read_data
late_record_ends = refl
