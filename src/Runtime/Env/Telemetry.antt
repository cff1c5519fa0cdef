-- ===== src/Runtime/Env/Telemetry.antt =====
-- The environments of apps/telemetry-ingest/src/env.ts and apps/telemetry-consumers/src/env.ts.
use express_monorepo_bank_te.Base.{ℕ, String, Option, List}
use express_monorepo_bank_te.Base.Int.{ℤ}
use express_monorepo_bank_te.Runtime.Env.{
  Source, Checked, valid, ◌<*>◌, required, filled, one_of, node_envs, log_levels, consumers_of,
  positive, percent,
}

pub record IngestEnv : Type 0 where
  pub node_env : String
  pub port : ℕ
  pub tcp_port : ℕ
  pub log_level : String
  pub kafka_brokers : String
  pub kafka_client_id : String
  pub idle_timeout_ms : ℕ
  pub backfill_threshold_ms : ℕ

pub record ConsumersEnv : Type 0 where
  pub node_env : String
  pub port : ℕ
  pub log_level : String
  pub telemetry_database_url : String
  pub kafka_brokers : String
  pub kafka_client_id : String
  pub consumers : List String
  pub low_fuel_pct : ℕ
  pub speed_limit_kph : ℕ
  pub alert_cooldown_ms : ℕ
  pub alert_max_age_ms : ℕ
  pub geofence_refresh_ms : ℕ

module _ (integer : String → Option ℤ) where
  unfoldable pub load_ingest : Source → Checked IngestEnv
  load_ingest source =
      valid
        (λ node_env port tcp_port log_level kafka_brokers kafka_client_id idle_timeout_ms
            backfill_threshold_ms.
          record {
            node_env = node_env;
            port = port;
            tcp_port = tcp_port;
            log_level = log_level;
            kafka_brokers = kafka_brokers;
            kafka_client_id = kafka_client_id;
            idle_timeout_ms = idle_timeout_ms;
            backfill_threshold_ms = backfill_threshold_ms;
          })
      <*> one_of node_envs source "NODE_ENV" "development"
      <*> positive integer source "PORT" 3003
      <*> positive integer source "TCP_PORT" 5027
      <*> one_of log_levels source "LOG_LEVEL" "info"
      <*> required source "KAFKA_BROKERS"
      <*> filled source "KAFKA_CLIENT_ID" "telemetry-ingest"
      <*> positive integer source "IDLE_TIMEOUT_MS" 300000
      <*> positive integer source "BACKFILL_THRESHOLD_MS" 300000

  unfoldable pub load_consumers : Source → Checked ConsumersEnv
  load_consumers source =
      valid
        (λ node_env port log_level telemetry_database_url kafka_brokers kafka_client_id consumers
            low_fuel_pct speed_limit_kph alert_cooldown_ms alert_max_age_ms geofence_refresh_ms.
          record {
            node_env = node_env;
            port = port;
            log_level = log_level;
            telemetry_database_url = telemetry_database_url;
            kafka_brokers = kafka_brokers;
            kafka_client_id = kafka_client_id;
            consumers = consumers;
            low_fuel_pct = low_fuel_pct;
            speed_limit_kph = speed_limit_kph;
            alert_cooldown_ms = alert_cooldown_ms;
            alert_max_age_ms = alert_max_age_ms;
            geofence_refresh_ms = geofence_refresh_ms;
          })
      <*> one_of node_envs source "NODE_ENV" "development"
      <*> positive integer source "PORT" 3004
      <*> one_of log_levels source "LOG_LEVEL" "info"
      <*> required source "TELEMETRY_DATABASE_URL"
      <*> required source "KAFKA_BROKERS"
      <*> filled source "KAFKA_CLIENT_ID" "telemetry-consumers"
      <*> consumers_of source
      <*> percent integer source "LOW_FUEL_PCT" 15
      <*> positive integer source "SPEED_LIMIT_KPH" 90
      <*> positive integer source "ALERT_COOLDOWN_MS" 900000
      <*> positive integer source "ALERT_MAX_AGE_MS" 600000
      <*> positive integer source "GEOFENCE_REFRESH_MS" 60000
