-- ===== src/Telemetry/Schema/Accepted.antt =====
-- Which of the events that the ingest server builds pass the schema of the consumers.
use express_monorepo_bank_te.Base.{
  ℕ, suc, ◌≤◌, ◌<◌, Bool, true, false, ◌&&◌, ◌||◌, not, Option, none, some, List, [], ◌∷◌, ◌++◌,
  ◌≡◌, refl, All, ◌==◌, ltb, any_of, map, if◌then◌else◌, arith,
}
use express_monorepo_bank_te.Base.Int.{ℤ, pos, negsuc}
use express_monorepo_bank_te.Teltonika.Avl.{GpsElement, AvlRecord, CodecId}
use express_monorepo_bank_te.Teltonika.Imei.{all_digits, is_valid_imei}
use express_monorepo_bank_te.Telemetry.AvlId
use express_monorepo_bank_te.Telemetry.Events.{
  FuelReading, FuelSource, can_pct, can_liters, obd_pct, lls1, lls2, read_number, pct_reading,
  liters_reading, read_fuel, fix_of, normalize_record, build_from, build_telemetry_events,
}
use express_monorepo_bank_te.Telemetry.Vehicles.{is_imei, is_not_digit}
use express_monorepo_bank_te.Telemetry.Schema.{
  within, is_safe, is_safe_optional, gps_nullable, fuel_schema, payload_schema,
  telemetry_event_schema,
}

-- A number of two bytes, with a sign.
abbrev pub IsShort : ℤ → Type 0
IsShort (pos n) = n < 32768
IsShort (negsuc n) = n < 32768

-- A record as its bytes can hold it, with a time before the year 10000 and values that are safe integers.
pub record IsReported (r : AvlRecord) : Type 0 where
  pub dated : r.timestamp_ms ≤ 253402300799999
  pub priority : r.priority < 256
  pub event_id : r.event_io_id < 65536
  pub altitude : IsShort r.gps.altitude_m
  pub angle : r.gps.angle_deg < 65536
  pub satellites : r.gps.satellites < 256
  pub speed : r.gps.speed_kph < 65536
  pub values : All (λ (entry : ℕ × ℕ). entry.1 ≤ 9007199254740991) r.io

-- At most `bound` from zero, on either side.
abbrev pub is_near : ℕ → ℤ → Bool
is_near bound (pos n) = ltb n (suc bound)
is_near bound (negsuc n) = ltb n bound

-- A position that means nothing, or one on the globe: at most 90 degrees of latitude and 180 of longitude.
abbrev pub is_placed : GpsElement → Bool
is_placed g = not g.valid || (is_near 900000000 g.latitude && is_near 1800000000 g.longitude)

near-within : (bound : ℕ) (z : ℤ) → within bound z ≡ is_near bound z
near-within bound (pos n) = ground arith
near-within bound (negsuc n) = ground arith

short-within : (z : ℤ) → IsShort z → within 9007199254740991 z ≡ true
short-within (pos n) h = ground arith
short-within (negsuc n) h = ground arith

le→safe : (n : ℕ) → n ≤ 9007199254740991 → is_safe n ≡ true
le→safe n h = ground arith

digits-lem : (cs : List ℕ) → all_digits cs ≡ not (any_of is_not_digit cs)
digits-lem [] = refl
digits-lem (c ∷ cs) = ground (arith, digits-lem cs)

valid_imei-imei : (imei : List ℕ) → is_valid_imei imei ≡ true → is_imei imei ≡ true
unfolding is_valid_imei
valid_imei-imei imei h = ground (arith, digits-lem imei)

gps_nullable-placed : (r : AvlRecord) → IsReported r → gps_nullable (fix_of r.gps) ≡ is_placed r.gps
gps_nullable-placed r h = ground (
  arith,
  near-within 900000000 r.gps.latitude,
  near-within 1800000000 r.gps.longitude,
  short-within r.gps.altitude_m h.altitude,
  h.angle,
  h.satellites,
  h.speed,
)

read_number-safe :
    (io : List (ℕ × ℕ)) (id : ℕ)
    → All (λ (entry : ℕ × ℕ). entry.1 ≤ 9007199254740991) io
    → is_safe_optional (read_number io id) ≡ true
unfolding read_number
read_number-safe [] id h = refl
read_number-safe ((k, v) ∷ io) id h =
    elim (k == id) as (λ b. is_safe_optional (if b then some v else read_number io id) ≡ true) [
      | true ↦ le→safe v h.0
      | false ↦ read_number-safe io id h.1
    ]

fuel-append :
    (xs ys : List FuelReading)
    → fuel_schema xs ≡ true
    → fuel_schema ys ≡ true
    → fuel_schema (xs ++ ys) ≡ true
fuel-append [] ys h k = k
fuel-append (x ∷ xs) ys h k = ground (arith, fuel-append xs ys)

pct-fuel : (source : FuelSource) (v : Option ℕ) → fuel_schema (pct_reading source v) ≡ true
pct-fuel source none = refl
pct-fuel source (some v) = refl

liters-fuel : (source : FuelSource) (v : Option ℕ) → fuel_schema (liters_reading source v) ≡ true
liters-fuel source none = refl
liters-fuel source (some v) = refl

parts-fuel :
    (a b c d e : Option ℕ)
    → fuel_schema (
        pct_reading can_pct a
        ++ (liters_reading can_liters b
            ++ (pct_reading obd_pct c ++ (pct_reading lls1 d ++ pct_reading lls2 e))))
      ≡ true
parts-fuel a b c d e =
    let last : List FuelReading = pct_reading lls1 d ++ pct_reading lls2 e in
    fuel-append (pct_reading can_pct a)
      (liters_reading can_liters b ++ (pct_reading obd_pct c ++ last)) (pct-fuel can_pct a)
      (fuel-append (liters_reading can_liters b) (pct_reading obd_pct c ++ last)
        (liters-fuel can_liters b)
        (fuel-append (pct_reading obd_pct c) last (pct-fuel obd_pct c) (
          fuel-append (pct_reading lls1 d) (pct_reading lls2 e) (pct-fuel lls1 d)
            (pct-fuel lls2 e))))

read_fuel-schema : (io : List (ℕ × ℕ)) → fuel_schema (read_fuel io) ≡ true
unfolding read_fuel
read_fuel-schema io =
    parts-fuel (read_number io AvlId.fuel_level_can_pct)
      (read_number io AvlId.fuel_level_can_liters) (read_number io AvlId.fuel_level_obd_pct)
      (read_number io AvlId.fuel_level_lls1) (read_number io AvlId.fuel_level_lls2)

-- A conjunction of which nine parts hold is the tenth.
sixth_of_ten :
    {a b c d e g f x y z : Bool}
    → a ≡ true
    → b ≡ true
    → c ≡ true
    → d ≡ true
    → e ≡ true
    → f ≡ true
    → x ≡ true
    → y ≡ true
    → z ≡ true
    → (a && b && c && d && e && g && f && x && y && z) ≡ g
sixth_of_ten ha hb hc hd he hf hx hy hz = ground arith

module _ (imei : List ℕ) (codec_id : CodecId) (received_at : ℕ) (known : is_valid_imei imei ≡ true)
    (now : received_at ≤ 253402300799999) where
  payload-placed :
      (r : AvlRecord)
      → IsReported r
      → payload_schema (normalize_record imei r received_at) ≡ is_placed r.gps
  unfolding normalize_record
  payload-placed r h = rw (← gps_nullable-placed r h) (
      sixth_of_ten (valid_imei-imei imei known) (ground (arith, h.dated)) (ground arith)
        (le→safe r.priority (omega (arith, h.priority)))
        (le→safe r.event_io_id (omega (arith, h.event_id))) (read_fuel-schema r.io)
        (read_number-safe r.io AvlId.external_voltage h.values)
        (read_number-safe r.io AvlId.battery_voltage h.values)
        (read_number-safe r.io AvlId.total_odometer h.values))

  build_from-placed :
      (index : ℕ) (records : List AvlRecord)
      → All IsReported records
      → map telemetry_event_schema (build_from index imei codec_id received_at records)
        ≡ map (λ r. is_placed r.gps) records
  unfolding build_from telemetry_event_schema
  build_from-placed index [] h = refl
  build_from-placed index (r ∷ records) h =
      rw (payload-placed r h.0, build_from-placed (suc index) records h.1) refl

-- Of the events that are built from the records of a packet, the schema of the consumers accepts exactly
-- those whose record has no valid fix, or a position within 90 degrees of latitude and 180 of longitude.
-- This is for an IMEI that the framer accepts, a clock of the server and times of the records before the
-- year 10000, elements that are safe integers, and other numbers of the sizes that the protocol has for
-- them.
pub build_accepted :
    (imei : List ℕ) (codec_id : CodecId) (received_at : ℕ) (records : List AvlRecord)
    → is_valid_imei imei ≡ true
    → received_at ≤ 253402300799999
    → All IsReported records
    → map telemetry_event_schema (build_telemetry_events imei codec_id records received_at)
      ≡ map (λ r. is_placed r.gps) records
unfolding build_telemetry_events
build_accepted imei codec_id received_at records known now h =
    build_from-placed imei codec_id received_at known now 0 records h
