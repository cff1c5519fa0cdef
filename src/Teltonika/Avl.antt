-- ===== src/Teltonika/Avl.antt =====
-- packages/teltonika/src/avl.ts. Coordinates are kept in the device's unit of 1e-7 degrees.
use express_monorepo_bank_te.Base.{
  ℕ, zero, suc, ◌+◌, ◌-◌, String, Bool, true, false, not, List, [], ◌∷◌, ltb, ◌==◌, length, take,
  drop, if◌then◌else◌,
}
use express_monorepo_bank_te.Base.Int.{ℤ}
use express_monorepo_bank_te.Teltonika.Bytes.{be}
use express_monorepo_bank_te.Teltonika.Crc.{crc16ibm}
use express_monorepo_bank_te.Teltonika.Cursor.{
  unsupported_codec, bad_preamble, short_frame, count_mismatch, Parsed, ok, err, Reader, start,
  pure, ◌>>=◌, Cursor, bytes, read_uint, u8, u16, u32, u64, i16, i32,
}

pub data CodecId : Type 0 where
  codec8 codec8e : CodecId

pub record GpsElement : Type 0 where
  pub longitude : ℤ
  pub latitude : ℤ
  pub altitude_m : ℤ
  pub angle_deg : ℕ
  pub satellites : ℕ
  pub speed_kph : ℕ
  pub valid : Bool

pub record AvlRecord : Type 0 where
  pub timestamp_ms : ℕ
  pub priority : ℕ
  pub gps : GpsElement
  pub event_io_id : ℕ
  pub io : List (ℕ × ℕ)
  pub io_variable : List (ℕ × List ℕ)

pub data AvlPacket : Type 0 where
  packet : CodecId → List AvlRecord → AvlPacket
  -- the declared checksum and the computed one
  corrupt : ℕ → ℕ → AvlPacket

-- `Map.set`: a key that is there keeps its place.
abbrev pub map_set : {V : Type 0} → List (ℕ × V) → ℕ → V → List (ℕ × V)
map_set [] k v = (k, v) ∷ []
map_set ((j, w) ∷ m) k v = if j == k then (k, v) ∷ m else (j, w) ∷ map_set m k v

pub data IoWidth : Type 0 where
  one two four eight : IoWidth

abbrev pub width_bytes : IoWidth → ℕ
width_bytes one = 1
width_bytes two = 2
width_bytes four = 4
width_bytes eight = 8

-- `readIoValue`
unfoldable pub read_io_value : IoWidth → Reader ℕ
unfolding read_uint
read_io_value one = u8 "io value"
read_io_value two = u16 "io value"
read_io_value four = u32 "io value"
read_io_value eight = u64 "io value"

-- `readId` and `readCount`
unfoldable pub read_id : Bool → String → Reader ℕ
unfolding read_uint
read_id extended field = if extended then u16 field else u8 field

-- `${widthBytes}-byte io count` and `${widthBytes}-byte io id`
abbrev pub count_field : IoWidth → String
count_field one = "1-byte io count"
count_field two = "2-byte io count"
count_field four = "4-byte io count"
count_field eight = "8-byte io count"

abbrev pub id_field : IoWidth → String
id_field one = "1-byte io id"
id_field two = "2-byte io id"
id_field four = "4-byte io id"
id_field eight = "8-byte io id"

-- One group of IO elements, all of one width.
unfoldable pub read_elements : ℕ → Bool → IoWidth → List (ℕ × ℕ) → Reader (List (ℕ × ℕ))
unfolding read_id read_io_value
read_elements zero extended w io = pure io
read_elements (suc n) extended w io = do
  avl_id ← read_id extended (id_field w)
  value ← read_io_value w
  read_elements n extended w (map_set io avl_id value)

-- `for (const widthBytes of [1, 2, 4, 8])`
unfoldable pub read_groups : List IoWidth → Bool → List (ℕ × ℕ) → Reader (List (ℕ × ℕ))
unfolding read_id read_elements
read_groups [] extended io = pure io
read_groups (w ∷ ws) extended io = do
  count ← read_id extended (count_field w)
  io' ← read_elements count extended w io
  read_groups ws extended io'

unfoldable pub read_variable : ℕ → List (ℕ × List ℕ) → Reader (List (ℕ × List ℕ))
unfolding read_uint bytes
read_variable zero io = pure io
read_variable (suc n) io = do
  avl_id ← u16 "variable io id"
  length ← u16 "variable io length"
  value ← bytes length "variable io value"
  read_variable n (map_set io avl_id value)

unfoldable pub read_variable_group : Bool → Reader (List (ℕ × List ℕ))
unfolding read_id read_variable
read_variable_group true = do count ← read_id true "variable io count"; read_variable count []
read_variable_group false = pure []

abbrev pub widths : List IoWidth
widths = one ∷ two ∷ four ∷ eight ∷ []

-- The GPS element, in the order of the wire.
unfoldable pub read_gps : Reader GpsElement
unfolding i32 i16 read_uint
read_gps = do
  longitude ← i32 "gps longitude"
  latitude ← i32 "gps latitude"
  altitude_m ← i16 "gps altitude"
  angle_deg ← u16 "gps angle"
  satellites ← u8 "gps satellites"
  speed_kph ← u16 "gps speed"
  pure (record {
    longitude = longitude;
    latitude = latitude;
    altitude_m = altitude_m;
    angle_deg = angle_deg;
    satellites = satellites;
    speed_kph = speed_kph;
    valid = ltb 0 satellites;
  })

-- `readRecord`; the total IO count is read and ignored.
unfoldable pub read_record : Bool → Reader AvlRecord
unfolding read_uint read_gps read_id read_groups read_variable_group
read_record extended = do
  timestamp_ms ← u64 "record timestamp"
  priority ← u8 "record priority"
  gps ← read_gps
  event_io_id ← read_id extended "event io id"
  total_io_count ← read_id extended "total io count"
  io ← read_groups widths extended []
  io_variable ← read_variable_group extended
  pure (record {
    timestamp_ms = timestamp_ms;
    priority = priority;
    gps = gps;
    event_io_id = event_io_id;
    io = io;
    io_variable = io_variable;
  })

-- `toCodecId`
unfoldable pub to_codec_id : ℕ → Reader CodecId
to_codec_id byte c =
    if byte == 0x08
    then ok (codec8, c)
    else if byte == 0x8e
    then ok (codec8e, c)
    else err (unsupported_codec byte)

abbrev pub is_extended : CodecId → Bool
is_extended codec8 = false
is_extended codec8e = true

unfoldable pub read_records : ℕ → Bool → Reader (List AvlRecord)
unfolding read_record
read_records zero extended = pure []
read_records (suc n) extended = do
  r ← read_record extended
  rest ← read_records n extended
  pure (r ∷ rest)

unfoldable pub check_count : ℕ → ℕ → AvlPacket → Reader AvlPacket
check_count declared trailing p c =
    if trailing == declared then ok (p, c) else err (count_mismatch declared trailing)

-- The data field, once its checksum has been found right.
unfoldable pub read_data : Reader AvlPacket
unfolding read_uint to_codec_id read_records check_count
read_data = do
  byte ← u8 "codec id"
  codec ← to_codec_id byte
  declared_count ← u8 "record count"
  records ← read_records declared_count (is_extended codec)
  trailing_count ← u8 "trailing record count"
  check_count declared_count trailing_count (packet codec records)

abbrev pub frame_header_bytes : ℕ
frame_header_bytes = 8

abbrev pub frame_crc_bytes : ℕ
frame_crc_bytes = 4

abbrev pub value_of : Parsed (AvlPacket × Cursor) → Parsed AvlPacket
value_of (ok (p, c)) = ok p
value_of (err e) = err e

-- The end of `parseAvlPacket`, from the two numbers of the header.
unfoldable pub parse_body : List ℕ → ℕ → Parsed AvlPacket
parse_body frame data_length =
    let data_field = take data_length (drop frame_header_bytes frame) in
    let declared_crc = be (take 4 (drop (frame_header_bytes + data_length) frame)) in
    let computed_crc = crc16ibm data_field in
    let parsed = value_of (read_data (start data_field)) in
    if ltb (length frame) (frame_header_bytes + data_length + frame_crc_bytes)
    then err (short_frame data_length (length frame - frame_header_bytes))
    else if not (declared_crc == computed_crc)
    then ok (corrupt declared_crc computed_crc)
    else parsed

-- `parseAvlPacket`
unfoldable pub parse_avl_packet : List ℕ → Parsed AvlPacket
parse_avl_packet frame = elim (u32 "preamble" (start frame)) [
  | err e ↦ err e
  | ok (preamble, c) ↦
      if preamble == 0
      then elim (u32 "data field length" c) [ err e ↦ err e | ok (n, c') ↦ parse_body frame n ]
      else err (bad_preamble preamble)
]
