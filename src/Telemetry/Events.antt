-- ===== src/Telemetry/Events.antt =====
-- packages/teltonika/src/normalize.ts and packages/events/src/build.ts. Times are milliseconds since the
-- epoch, fuel volumes are in the device's unit of 0.1 l, and raw elements are kept as the values they print.
use express_monorepo_bank_te.Base.{
  ℕ, suc, Bool, not, Option, none, some, List, [], ◌∷◌, ◌++◌, ◌==◌, ◌≡◌, refl, ap, length,
  if◌then◌else◌,
}
use express_monorepo_bank_te.Telemetry.AvlId
use express_monorepo_bank_te.Teltonika.Avl.{CodecId, GpsElement, AvlRecord}

pub data FuelSource : Type 0 where
  can_pct can_liters obd_pct lls1 lls2 : FuelSource

pub record FuelReading : Type 0 where
  pub source : FuelSource
  pub pct : Option ℕ
  pub liters : Option ℕ

pub record TelemetryPayload : Type 0 where
  pub imei : List ℕ
  pub recorded_at : ℕ
  pub received_at : ℕ
  pub priority : ℕ
  pub event_io_id : ℕ
  pub gps : Option GpsElement
  pub ignition : Option Bool
  pub movement : Option Bool
  pub fuel : List FuelReading
  pub external_voltage_mv : Option ℕ
  pub battery_voltage_mv : Option ℕ
  pub odometer_m : Option ℕ
  pub raw_io : List (ℕ × ℕ)
  pub raw_io_variable : List (ℕ × List ℕ)

-- `readNumber`
unfoldable pub read_number : List (ℕ × ℕ) → ℕ → Option ℕ
read_number [] avl_id = none
read_number ((k, v) ∷ io) avl_id =
    let later = read_number io avl_id in if k == avl_id then some v else later

abbrev pub is_nonzero : Option ℕ → Option Bool
is_nonzero none = none
is_nonzero (some v) = some (not (v == 0))

-- `readBoolean`
abbrev pub read_boolean : List (ℕ × ℕ) → ℕ → Option Bool
read_boolean io avl_id = is_nonzero (read_number io avl_id)

abbrev pub pct_reading : FuelSource → Option ℕ → List FuelReading
pct_reading source none = []
pct_reading source (some v) = record { source = source; pct = some v; liters = none } ∷ []

abbrev pub liters_reading : FuelSource → Option ℕ → List FuelReading
liters_reading source none = []
liters_reading source (some v) = record { source = source; pct = none; liters = some v } ∷ []

-- `readFuel`
unfoldable pub read_fuel : List (ℕ × ℕ) → List FuelReading
unfolding read_number
read_fuel io =
    pct_reading can_pct (read_number io AvlId.fuel_level_can_pct)
    ++ (liters_reading can_liters (read_number io AvlId.fuel_level_can_liters)
        ++ (pct_reading obd_pct (read_number io AvlId.fuel_level_obd_pct)
            ++ (pct_reading lls1 (read_number io AvlId.fuel_level_lls1)
                ++ pct_reading lls2 (read_number io AvlId.fuel_level_lls2))))

-- A device without a fix sends coordinates that mean nothing.
abbrev pub fix_of : GpsElement → Option GpsElement
fix_of gps = if gps.valid then some gps else none

-- `normalizeRecord`
unfoldable pub normalize_record : List ℕ → AvlRecord → ℕ → TelemetryPayload
unfolding read_number read_fuel
normalize_record imei r received_at = record {
  imei = imei;
  recorded_at = r.timestamp_ms;
  received_at = received_at;
  priority = r.priority;
  event_io_id = r.event_io_id;
  gps = fix_of r.gps;
  ignition = read_boolean r.io AvlId.ignition;
  movement = read_boolean r.io AvlId.movement;
  fuel = read_fuel r.io;
  external_voltage_mv = read_number r.io AvlId.external_voltage;
  battery_voltage_mv = read_number r.io AvlId.battery_voltage;
  odometer_m = read_number r.io AvlId.total_odometer;
  raw_io = r.io;
  raw_io_variable = r.io_variable;
}

-- The parts that `dedupKey` prints, with colons between them.
pub record DedupKey : Type 0 where
  pub imei : List ℕ
  pub timestamp_ms : ℕ
  pub index : ℕ

pub record TelemetryEvent : Type 0 where
  pub schema_version : ℕ
  pub dedup_key : DedupKey
  pub codec : CodecId
  pub payload : TelemetryPayload

abbrev pub telemetry_schema_version : ℕ
telemetry_schema_version = 1

-- `buildTelemetryEvents`, from the record at `index` on.
unfoldable pub build_from : ℕ → List ℕ → CodecId → ℕ → List AvlRecord → List TelemetryEvent
build_from index imei codec_id received_at [] = []
build_from index imei codec_id received_at (r ∷ records) =
    record {
      schema_version = telemetry_schema_version;
      dedup_key = record { imei = imei; timestamp_ms = r.timestamp_ms; index = index };
      codec = codec_id;
      payload = normalize_record imei r received_at;
    }
    ∷ build_from (suc index) imei codec_id received_at records

-- `buildTelemetryEvents`, of records whose times are JavaScript dates: of others `toISOString` throws
-- (see Telemetry/Ingest, `is_dated`).
unfoldable pub build_telemetry_events : List ℕ → CodecId → List AvlRecord → ℕ → List TelemetryEvent
unfolding build_from
build_telemetry_events imei codec_id records received_at =
    build_from 0 imei codec_id received_at records

length-build_from :
    (index : ℕ) (imei : List ℕ) (codec_id : CodecId) (received_at : ℕ) (records : List AvlRecord)
    → length (build_from index imei codec_id received_at records) ≡ length records
unfolding build_from
length-build_from index imei codec_id received_at [] = refl
length-build_from index imei codec_id received_at (r ∷ records) =
    ap suc (length-build_from (suc index) imei codec_id received_at records)

pub length-build :
    (imei : List ℕ) (codec_id : CodecId) (records : List AvlRecord) (received_at : ℕ)
    → length (build_telemetry_events imei codec_id records received_at) ≡ length records
unfolding build_telemetry_events
length-build imei codec_id records received_at =
    length-build_from 0 imei codec_id received_at records
