-- ===== src/Telemetry/Schema.antt =====
-- packages/events/src/schemas.ts, `telemetryEventSchema`: the events that a consumer accepts. A field
-- that is an integer by the schema has to be a safe one, and a date has a year of four digits; a
-- coordinate is in units of 1e-7 degrees.
use express_monorepo_bank_te.Base.{
  ℕ, suc, ◌≤◌, Bool, true, false, ◌&&◌, ◌||◌, not, Option, none, some, List, [], ◌∷◌, ◌++◌, ◌≡◌,
  refl, any_of, All, is_some, ◌==◌, leb, if◌then◌else◌, arith,
}
use express_monorepo_bank_te.Base.Int.{ℤ, pos, negsuc}
use express_monorepo_bank_te.Teltonika.Avl.{GpsElement, AvlRecord, CodecId}
use express_monorepo_bank_te.Telemetry.Events.{
  FuelReading, FuelSource, TelemetryPayload, TelemetryEvent, telemetry_schema_version,
}
use express_monorepo_bank_te.Telemetry.Vehicles.{is_imei}
pub mod Accepted

-- `Number.MAX_SAFE_INTEGER`
abbrev pub max_safe : ℕ
max_safe = 9007199254740991

abbrev pub is_safe : ℕ → Bool
is_safe n = leb n max_safe

abbrev pub is_safe_optional : Option ℕ → Bool
is_safe_optional none = true
is_safe_optional (some n) = is_safe n

-- An integer between -bound and bound.
abbrev pub within : ℕ → ℤ → Bool
within bound (pos n) = leb n bound
within bound (negsuc n) = leb (suc n) bound

-- The last millisecond of the year 9999.
abbrev pub last_date_ms : ℕ
last_date_ms = 253402300799999

-- `z.iso.datetime()`, of a date that `toISOString` printed
abbrev pub is_datetime : ℕ → Bool
is_datetime t = leb t last_date_ms

abbrev pub gps_schema : GpsElement → Bool
gps_schema g =
    within 900000000 g.latitude
    && within 1800000000 g.longitude
    && within max_safe g.altitude_m
    && is_safe g.angle_deg
    && is_safe g.satellites
    && is_safe g.speed_kph

abbrev pub gps_nullable : Option GpsElement → Bool
gps_nullable none = true
gps_nullable (some g) = gps_schema g

-- A fuel reading must carry a percentage or a volume.
abbrev pub fuel_reading_schema : FuelReading → Bool
fuel_reading_schema f = is_some f.pct || is_some f.liters

abbrev pub fuel_schema : List FuelReading → Bool
fuel_schema [] = true
fuel_schema (f ∷ readings) = fuel_reading_schema f && fuel_schema readings

abbrev pub payload_schema : TelemetryPayload → Bool
payload_schema p =
    is_imei p.imei
    && is_datetime p.recorded_at
    && is_datetime p.received_at
    && is_safe p.priority
    && is_safe p.event_io_id
    && gps_nullable p.gps
    && fuel_schema p.fuel
    && is_safe_optional p.external_voltage_mv
    && is_safe_optional p.battery_voltage_mv
    && is_safe_optional p.odometer_m

unfoldable pub telemetry_event_schema : TelemetryEvent → Bool
telemetry_event_schema e = e.schema_version == telemetry_schema_version && payload_schema e.payload

-- `safeParse`, of an event that has the types of the fields
unfoldable pub safe_parse : TelemetryEvent → Option TelemetryEvent
unfolding telemetry_event_schema
safe_parse e = if telemetry_event_schema e then some e else none
