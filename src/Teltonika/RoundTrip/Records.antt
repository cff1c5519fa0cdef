-- ===== src/Teltonika/RoundTrip/Records.antt =====
-- What the parser makes of an encoded record.
use express_monorepo_bank_te.Base.{
  ℕ, ◌<◌, ◌^◌, String, Bool, true, false, ◌≡◌, refl, sym, All, map, Option, none, some, List, [],
  ◌∷◌, length, or_else, arith, ltb,
}
use express_monorepo_bank_te.Base.Int.{pos, of_signed}
use mathlib.Core.Path.{subst}
use express_monorepo_bank_te.Teltonika.Bytes.{write_uint, be_bytes}
use express_monorepo_bank_te.Teltonika.Cursor.{u8, i16, i32, bytes}
use express_monorepo_bank_te.Teltonika.Avl.{
  GpsElement, AvlRecord, IoWidth, one, two, four, eight, widths, map_set, read_id, read_io_value,
  read_elements, id_field, read_groups, read_variable, read_variable_group, read_gps, read_record,
  read_records,
}
use express_monorepo_bank_te.Teltonika.Testing.{
  EncodableIo, EncodableGps, EncodableVariable, EncodableRecord, byte, write_int, encode_gps,
  encode_io_value, encode_id, encode_elements, group_of, encode_groups, encode_variable,
  encode_variable_group, encode_record, encode_records,
}
use express_monorepo_bank_te.Teltonika.RoundTrip.Reads.{
  Fits, Reads, bind-Fits, map-Fits, pure-Fits, uint-Fits, int-Fits, bytes-Reads,
}

pub id-Fits :
    (extended : Bool) (v : ℕ) (field : String)
    → Fits (encode_id extended v) (read_id extended field) v
unfolding encode_id read_id
id-Fits true v field = uint-Fits 2 v field
id-Fits false v field = uint-Fits 1 v field

io_value-Fits : (v : ℕ) (w : IoWidth) → Fits (encode_io_value v w) (read_io_value w) v
unfolding read_io_value
io_value-Fits v one = uint-Fits 1 v "io value"
io_value-Fits v two = uint-Fits 2 v "io value"
io_value-Fits v four = uint-Fits 4 v "io value"
io_value-Fits v eight = uint-Fits 8 v "io value"

pub byte-Fits : (v : ℕ) (field : String) → v < 256 → Fits (byte v) (u8 field) v
unfolding write_uint be_bytes
byte-Fits v field h = subst (λ w. Fits w (u8 field) v) (ground (arith, h)) (uint-Fits 1 v field)

-- A map, with the elements of a group set in it.
abbrev pub set_elements : List EncodableIo → List (ℕ × ℕ) → List (ℕ × ℕ)
set_elements [] io = io
set_elements (e ∷ group) io = set_elements group (map_set io e.id e.value)

elements-Fits :
    (extended : Bool) (w : IoWidth) (group : List EncodableIo) (io : List (ℕ × ℕ))
    → Fits
        (encode_elements extended w group)
        (read_elements (length group) extended w io)
        (set_elements group io)
unfolding encode_elements read_elements
elements-Fits extended w [] io = pure-Fits io
elements-Fits extended w (e ∷ group) io =
    bind-Fits _ _ _ _ _ _ (id-Fits extended e.id (id_field w)) (
      bind-Fits _ _ _ _ _ _ (io_value-Fits e.value w)
        (elements-Fits extended w group (map_set io e.id e.value)))

abbrev pub set_groups : List IoWidth → List EncodableIo → List (ℕ × ℕ) → List (ℕ × ℕ)
set_groups [] all io = io
set_groups (w ∷ ws) all io = set_groups ws all (set_elements (group_of w all) io)

groups-Fits :
    (extended : Bool) (ws : List IoWidth) (all : List EncodableIo) (io : List (ℕ × ℕ))
    → Fits (encode_groups extended ws all) (read_groups ws extended io) (set_groups ws all io)
unfolding encode_groups read_groups
groups-Fits extended [] all io = pure-Fits io
groups-Fits extended (w ∷ ws) all io =
    bind-Fits _ _ _ _ _ _ (id-Fits extended (length (group_of w all)) _) (
      bind-Fits _ _ _ _ _ _ (elements-Fits extended w (group_of w all) io)
        (groups-Fits extended ws all (set_elements (group_of w all) io)))

bytes-Fits : (xs : List ℕ) (field : String) → Fits (some xs) (bytes (length xs) field) xs
bytes-Fits xs field = record {
  fits = λ ys e.
      subst (λ l. Reads (bytes (length xs) field) l xs) {x = xs} (ground (arith, e))
        (bytes-Reads xs field);
}

abbrev pub set_variable : List EncodableVariable → List (ℕ × List ℕ) → List (ℕ × List ℕ)
set_variable [] io = io
set_variable (e ∷ rest) io = set_variable rest (map_set io e.id e.value)

variable-Fits :
    (elements : List EncodableVariable) (io : List (ℕ × List ℕ))
    → Fits
        (encode_variable elements)
        (read_variable (length elements) io)
        (set_variable elements io)
unfolding encode_variable read_variable
variable-Fits [] io = pure-Fits io
variable-Fits (e ∷ rest) io = bind-Fits _ _ _ _ _ _ (uint-Fits 2 e.id "variable io id") (
    bind-Fits _ _ _ _ _ _ (uint-Fits 2 (length e.value) "variable io length") (
      bind-Fits _ _ _ _ _ _ (bytes-Fits e.value "variable io value")
        (variable-Fits rest (map_set io e.id e.value))))

-- Codec 8 has no elements of variable length: the encoder drops them.
abbrev pub kept_variable : Bool → List EncodableVariable → List (ℕ × List ℕ)
kept_variable true elements = set_variable elements []
kept_variable false elements = []

variable_group-Fits :
    (extended : Bool) (elements : List EncodableVariable)
    → Fits
        (encode_variable_group extended elements)
        (read_variable_group extended)
        (kept_variable extended elements)
unfolding encode_variable_group read_variable_group
variable_group-Fits true elements =
    bind-Fits _ _ _ _ _ _ (id-Fits true (length elements) "variable io count")
      (variable-Fits elements [])
variable_group-Fits false elements = pure-Fits []

-- A record without a fix has an element of zeros.
abbrev pub gps_or_zeros : Option EncodableGps → EncodableGps
gps_or_zeros none = record {
  latitude = pos 0;
  longitude = pos 0;
  altitude_m = pos 0;
  angle_deg = 0;
  satellites = 0;
  speed_kph = 0;
}
gps_or_zeros (some g) = g

abbrev pub decoded_gps : EncodableGps → GpsElement
decoded_gps g = record {
  longitude = g.longitude;
  latitude = g.latitude;
  altitude_m = g.altitude_m;
  angle_deg = g.angle_deg;
  satellites = g.satellites;
  speed_kph = g.speed_kph;
  valid = ltb 0 g.satellites;
}

some_gps-Fits : (g : EncodableGps) → Fits (encode_gps (some g)) read_gps (decoded_gps g)
unfolding encode_gps read_gps i32 i16
some_gps-Fits g = bind-Fits _ _ _ _ _ _ (int-Fits 4 (2 ^ 31) g.longitude "gps longitude" refl) (
    bind-Fits _ _ _ _ _ _ (int-Fits 4 (2 ^ 31) g.latitude "gps latitude" refl) (
      bind-Fits _ _ _ _ _ _ (int-Fits 2 (2 ^ 15) g.altitude_m "gps altitude" refl) (
        bind-Fits _ _ _ _ _ _ (uint-Fits 2 g.angle_deg "gps angle") (
          bind-Fits _ _ _ _ _ _ (uint-Fits 1 g.satellites "gps satellites")
            (map-Fits _ _ _ _ (uint-Fits 2 g.speed_kph "gps speed"))))))

encode_gps-none : encode_gps none ≡ encode_gps (some (gps_or_zeros none))
unfolding encode_gps write_int write_uint of_signed be_bytes
encode_gps-none = refl

gps-Fits : (g : Option EncodableGps) → Fits (encode_gps g) read_gps (decoded_gps (gps_or_zeros g))
gps-Fits none =
    subst (λ w. Fits w read_gps (decoded_gps (gps_or_zeros none))) (sym encode_gps-none)
      (some_gps-Fits (gps_or_zeros none))
gps-Fits (some g) = some_gps-Fits g

-- The record that the parser makes of an encoded one.
abbrev pub decoded : Bool → EncodableRecord → AvlRecord
decoded extended r = record {
  timestamp_ms = r.timestamp_ms;
  priority = or_else r.priority 0;
  gps = decoded_gps (gps_or_zeros r.gps);
  event_io_id = or_else r.event_io_id 0;
  io = set_groups widths (or_else r.io []) [];
  io_variable = kept_variable extended (or_else r.io_variable []);
}

-- `Buffer.from` would cut a larger priority off.
abbrev pub HasBytePriority : EncodableRecord → Type 0
HasBytePriority r = or_else r.priority 0 < 256

record-Fits :
    (extended : Bool) (r : EncodableRecord)
    → HasBytePriority r
    → Fits (encode_record extended r) (read_record extended) (decoded extended r)
unfolding encode_record read_record
record-Fits extended r h = bind-Fits _ _ _ _ _ _ (uint-Fits 8 r.timestamp_ms "record timestamp") (
    bind-Fits _ _ _ _ _ _ (byte-Fits (or_else r.priority 0) "record priority" h) (
      bind-Fits _ _ _ _ _ _ (gps-Fits r.gps) (
        bind-Fits _ _ _ _ _ _ (id-Fits extended (or_else r.event_io_id 0) "event io id") (
          bind-Fits _ _ _ _ _ _ (id-Fits extended _ "total io count") (
            bind-Fits _ _ _ _ _ _ (groups-Fits extended widths (or_else r.io []) [])
              (map-Fits _ _ _ _ (variable_group-Fits extended (or_else r.io_variable []))))))))

pub records-Fits :
    (extended : Bool) (records : List EncodableRecord)
    → All HasBytePriority records
    → Fits
        (encode_records extended records)
        (read_records (length records) extended)
        (map (decoded extended) records)
unfolding encode_records read_records
records-Fits extended [] h = pure-Fits []
records-Fits extended (r ∷ rest) h =
    bind-Fits _ _ _ _ _ _ (record-Fits extended r h.0)
      (map-Fits _ _ _ _ (records-Fits extended rest h.1))
