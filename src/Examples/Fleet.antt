-- ===== src/Examples/Fleet.antt =====
-- The vehicle registry, the alert rules and the event schema at concrete inputs.
use express_monorepo_bank_te.Base.{ℕ, List, map, false, ◌≡◌, refl, none, some, [], ◌∷◌, true, arith}
use express_monorepo_bank_te.Telemetry.Schema.{telemetry_event_schema}
use express_monorepo_bank_te.Telemetry.Schema.Accepted.{IsReported, build_accepted}
use express_monorepo_bank_te.Teltonika.Imei.{is_valid_imei}
use express_monorepo_bank_te.Base.Int.{pos, negsuc}
use express_monorepo_bank_te.Teltonika.Avl.{AvlRecord, codec8}
use express_monorepo_bank_te.Telemetry.Vehicles.{Registry, resolve}
use express_monorepo_bank_te.Telemetry.Vehicles.Permanence.{
  ask, restart, insert_elsewhere, use_all, resolve_keeps_id,
}
use express_monorepo_bank_te.Bank.Tx.{ok}
use express_monorepo_bank_te.Telemetry.Events.{TelemetryPayload, build_telemetry_events, lls1}
use express_monorepo_bank_te.Alerting.{low_fuel, speeding, geofence_exit}
use express_monorepo_bank_te.Alerting.Rules.{AlertRuleConfig, evaluate_rules}
use express_monorepo_bank_te.Alerting.Rules.Meaning.{raises, evaluate_rules_lem}

-- Two devices, and a registry that knows none.
abbrev first_imei : List ℕ
first_imei = 51 ∷ 53 ∷ 54 ∷ 51 ∷ 48 ∷ 55 ∷ 48 ∷ 52 ∷ 50 ∷ 52 ∷ 52 ∷ 49 ∷ 48 ∷ 49 ∷ 51 ∷ []

abbrev other_imei : List ℕ
other_imei = 51 ∷ 53 ∷ 54 ∷ 51 ∷ 48 ∷ 55 ∷ 48 ∷ 52 ∷ 50 ∷ 52 ∷ 52 ∷ 49 ∷ 48 ∷ 49 ∷ 52 ∷ []

abbrev unknown : Registry
unknown = record { cache = []; vehicles = [] }

resolve_keeps_id_example :
    (resolve
      (λ imei. 7)
      first_imei
      (use_all
        (λ imei. 7)
        (ask other_imei ∷ restart ∷ insert_elsewhere first_imei ∷ [])
        (resolve (λ imei. 7) first_imei unknown).1)).0
    ≡ ok 7
unfolding resolve
resolve_keeps_id_example =
    resolve_keeps_id (λ imei. 7) first_imei unknown 7
      (ask other_imei ∷ restart ∷ insert_elsewhere first_imei ∷ []) (λ imei id h. cc) refl refl

abbrev rule_config : AlertRuleConfig
rule_config = record { low_fuel_pct = 15; speed_limit_kph = 90; geofences = [] }

-- A reading with one tank at 40 per cent and one at 9.
abbrev low_reading : TelemetryPayload
low_reading = record {
  imei = first_imei;
  recorded_at = 5;
  received_at = 6;
  priority = 0;
  event_io_id = 0;
  gps = none;
  ignition = none;
  movement = none;
  fuel =
      record { source = lls1; pct = some 40; liters = none }
      ∷ record { source = lls1; pct = some 9; liters = none }
      ∷ [];
  external_voltage_mv = none;
  battery_voltage_mv = none;
  odometer_m = none;
  raw_io = [];
  raw_io_variable = [];
}

evaluate_rules_lem_example :
    let alerts = evaluate_rules 1 (λ gps zone. 0) low_reading rule_config in
    (raises low_fuel alerts ≡ true)
    × (raises speeding alerts ≡ false)
    × (raises geofence_exit alerts ≡ false)
evaluate_rules_lem_example = evaluate_rules_lem 1 (λ gps zone. 0) low_reading rule_config

-- A record south of the equator, with one value.
abbrev good_record : AvlRecord
good_record = record {
  timestamp_ms = 1700000000000;
  priority = 0;
  gps = record {
    longitude = pos 250000000;
    latitude = negsuc 299999999;
    altitude_m = pos 12;
    angle_deg = 90;
    satellites = 7;
    speed_kph = 50;
    valid = true;
  };
  event_io_id = 239;
  io = (66, 12500) ∷ [];
  io_variable = [];
}

-- The same record with a latitude of 91 degrees, as a fix.
abbrev lost_record : AvlRecord
lost_record = record good_record {
  gps = record {
    longitude = pos 250000000;
    latitude = pos 910000000;
    altitude_m = pos 12;
    angle_deg = 90;
    satellites = 7;
    speed_kph = 50;
    valid = true;
  };
}

good_record-IsReported : IsReported good_record
good_record-IsReported = record {
  dated = omega arith;
  priority = omega arith;
  event_id = omega arith;
  altitude = omega arith;
  angle = omega arith;
  satellites = omega arith;
  speed = omega arith;
  values = (omega arith, tt);
}

lost_record-IsReported : IsReported lost_record
lost_record-IsReported = record {
  dated = omega arith;
  priority = omega arith;
  event_id = omega arith;
  altitude = omega arith;
  angle = omega arith;
  satellites = omega arith;
  speed = omega arith;
  values = (omega arith, tt);
}

build_accepted_example :
    map telemetry_event_schema
      (build_telemetry_events first_imei codec8 (good_record ∷ lost_record ∷ []) 1700000000500)
    ≡ true ∷ false ∷ []
unfolding is_valid_imei
build_accepted_example =
    build_accepted first_imei codec8 1700000000500 (good_record ∷ lost_record ∷ []) refl
      (omega arith) (good_record-IsReported, (lost_record-IsReported, tt))
