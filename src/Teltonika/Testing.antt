-- ===== src/Teltonika/Testing.antt =====
-- packages/teltonika/src/testing.ts: the encoder of frames. `none` is the RangeError of a write.
-- Coordinates are in units of 1e-7 degrees, as the encoder has them after rounding.
use express_monorepo_bank_te.Base.{
  ℕ, ◌+◌, ◌%◌, ◌^◌, Bool, true, false, Option, none, some, List, [], ◌∷◌, ◌++◌, length, replicate,
  select, or_else, if◌then◌else◌,
}
use express_monorepo_bank_te.Base.Int.{ℤ, of_signed, in_signed_range}
use express_monorepo_bank_te.Teltonika.Bytes.{be_bytes, write_uint}
use express_monorepo_bank_te.Teltonika.Crc.{crc16ibm}
use express_monorepo_bank_te.Teltonika.Avl.{
  CodecId, codec8, is_extended, IoWidth, one, two, four, eight, width_bytes, widths,
}

-- `Buffer.concat` of what was written before and after; a write that throws ends all.
infixr 60 ◌⊕◌
abbrev pub ◌⊕◌ : Option (List ℕ) → Option (List ℕ) → Option (List ℕ)
none ⊕ b = none
some xs ⊕ none = none
some xs ⊕ some ys = some (xs ++ ys)

pub record EncodableIo : Type 0 where
  pub id : ℕ
  pub value : ℕ
  pub width : IoWidth

pub record EncodableGps : Type 0 where
  pub latitude : ℤ
  pub longitude : ℤ
  pub altitude_m : ℤ
  pub angle_deg : ℕ
  pub satellites : ℕ
  pub speed_kph : ℕ

pub record EncodableVariable : Type 0 where
  pub id : ℕ
  pub value : List ℕ

pub record EncodableRecord : Type 0 where
  pub timestamp_ms : ℕ
  pub priority : Option ℕ
  pub gps : Option EncodableGps
  pub event_io_id : Option ℕ
  pub io : Option (List EncodableIo)
  pub io_variable : Option (List EncodableVariable)

pub record EncodeOptions : Type 0 where
  pub codec : Option CodecId
  pub crc_override : Option ℕ
  pub trailing_count_override : Option ℕ
  pub data_length_override : Option ℕ
  pub preamble_override : Option ℕ

abbrev pub defaults : CodecId → EncodeOptions
defaults codec = record {
  codec = some codec;
  crc_override = none;
  trailing_count_override = none;
  data_length_override = none;
  preamble_override = none;
}

-- `writeInt16BE` and `writeInt32BE`
unfoldable pub write_int : ℕ → ℕ → ℤ → Option (List ℕ)
unfolding of_signed be_bytes
write_int n half v = if in_signed_range half v then some (be_bytes n (of_signed half v)) else none

-- `Buffer.from([value])` keeps the lowest byte.
abbrev pub byte : ℕ → Option (List ℕ)
byte v = some (v % 256 ∷ [])

-- `encodeGps`
unfoldable pub encode_gps : Option EncodableGps → Option (List ℕ)
unfolding write_int write_uint
encode_gps none = some (replicate 15 0)
encode_gps (some g) =
    write_int 4 (2 ^ 31) g.longitude
    ⊕ write_int 4 (2 ^ 31) g.latitude
    ⊕ write_int 2 (2 ^ 15) g.altitude_m
    ⊕ write_uint 2 g.angle_deg
    ⊕ write_uint 1 g.satellites
    ⊕ write_uint 2 g.speed_kph

-- `encodeIoValue`
abbrev pub encode_io_value : ℕ → IoWidth → Option (List ℕ)
encode_io_value value w = write_uint (width_bytes w) value

-- `id`, which is also `count`
unfoldable pub encode_id : Bool → ℕ → Option (List ℕ)
unfolding write_uint
encode_id extended v = if extended then write_uint 2 v else write_uint 1 v

unfoldable pub encode_elements : Bool → IoWidth → List EncodableIo → Option (List ℕ)
unfolding encode_id
encode_elements extended w [] = some []
encode_elements extended w (e ∷ group) =
    encode_id extended e.id ⊕ encode_io_value e.value w ⊕ encode_elements extended w group

abbrev pub same_width : IoWidth → IoWidth → Bool
same_width one one = true
same_width two two = true
same_width four four = true
same_width eight eight = true
same_width _ _ = false

abbrev pub group_of : IoWidth → List EncodableIo → List EncodableIo
group_of w = select (λ e. same_width (EncodableIo.width e) w)

unfoldable pub encode_groups : Bool → List IoWidth → List EncodableIo → Option (List ℕ)
unfolding encode_id encode_elements
encode_groups extended [] io = some []
encode_groups extended (w ∷ ws) io =
    encode_id extended (length (group_of w io))
    ⊕ encode_elements extended w (group_of w io)
    ⊕ encode_groups extended ws io

unfoldable pub encode_variable : List EncodableVariable → Option (List ℕ)
unfolding write_uint
encode_variable [] = some []
encode_variable (e ∷ rest) =
    write_uint 2 e.id ⊕ write_uint 2 (length e.value) ⊕ some e.value ⊕ encode_variable rest

unfoldable pub encode_variable_group : Bool → List EncodableVariable → Option (List ℕ)
unfolding encode_id encode_variable
encode_variable_group true io = encode_id true (length io) ⊕ encode_variable io
encode_variable_group false io = some []

-- `encodeRecord`
unfoldable pub encode_record : Bool → EncodableRecord → Option (List ℕ)
unfolding encode_gps encode_id encode_groups encode_variable_group write_uint
encode_record extended r =
    write_uint 8 r.timestamp_ms
    ⊕ byte (or_else r.priority 0)
    ⊕ encode_gps r.gps
    ⊕ encode_id extended (or_else r.event_io_id 0)
    ⊕ encode_id extended (length (or_else r.io []) + length (or_else r.io_variable []))
    ⊕ encode_groups extended widths (or_else r.io [])
    ⊕ encode_variable_group extended (or_else r.io_variable [])

unfoldable pub encode_records : Bool → List EncodableRecord → Option (List ℕ)
unfolding encode_record
encode_records extended [] = some []
encode_records extended (r ∷ rest) = encode_record extended r ⊕ encode_records extended rest

abbrev pub codec_byte : CodecId → ℕ
codec_byte codec = if is_extended codec then 0x8e else 0x08

unfoldable pub encode_data : List EncodableRecord → EncodeOptions → Option (List ℕ)
unfolding encode_records
encode_data records options =
    let codec = or_else options.codec codec8 in
    byte (codec_byte codec)
    ⊕ byte (length records)
    ⊕ encode_records (is_extended codec) records
    ⊕ byte (or_else options.trailing_count_override (length records))

-- The header and the checksum around a data field.
unfoldable pub frame_data : List ℕ → EncodeOptions → Option (List ℕ)
frame_data data_field options =
    write_uint 4 (or_else options.preamble_override 0)
    ⊕ write_uint 4 (or_else options.data_length_override (length data_field))
    ⊕ some data_field
    ⊕ write_uint 4 (or_else options.crc_override (crc16ibm data_field))

-- `encodeAvlFrame`
unfoldable pub encode_avl_frame : List EncodableRecord → EncodeOptions → Option (List ℕ)
encode_avl_frame records options = elim (encode_data records options) [
  | none ↦ none
  | some data_field ↦ frame_data data_field options
]
