-- ===== src/Teltonika/RoundTrip/Frames.antt =====
-- Whole frames: the parser reads what the encoder writes, and reports a wrong checksum.
use express_monorepo_bank_te.Base.{
  ℕ, suc, ◌+◌, ◌<◌, ◌^◌, ◌==◌, ◌≡◌, ◌≢◌, refl, ap, sym, ◌∙◌, All, map, Option, none, some, List, [],
  ◌++◌, length, take, drop, or_else, arith, if◌then◌else◌, length-append, append-nil, take-append,
  drop-append, take-all, drop-all, true, false,
}
use express_monorepo_bank_te.Teltonika.Bytes.{be_bytes, write_uint, be-be_bytes}
use express_monorepo_bank_te.Teltonika.Crc.{crc16ibm}
use express_monorepo_bank_te.Teltonika.Cursor.{Parsed, ok, err, bad_preamble, Cursor, start, u32}
use express_monorepo_bank_te.Teltonika.Avl.{
  CodecId, codec8, codec8e, is_extended, AvlPacket, packet, corrupt, to_codec_id, check_count,
  read_data, parse_body, parse_avl_packet, value_of,
}
use express_monorepo_bank_te.Teltonika.Testing.{
  EncodableRecord, EncodeOptions, defaults, encode_data, frame_data, encode_avl_frame,
}
use express_monorepo_bank_te.Teltonika.RoundTrip.Reads.{Fits, bind-Fits, check-Fits, uint-Reads}
use express_monorepo_bank_te.Teltonika.RoundTrip.Records.{
  byte-Fits, decoded, HasBytePriority, records-Fits,
}

check_count-same : (n : ℕ) (p : AvlPacket) (c : Cursor) → check_count n n p c ≡ ok (p, c)
unfolding check_count
check_count-same n p c = ground arith

data-Fits :
    (codec_id : CodecId) (records : List EncodableRecord)
    → length records < 256
    → All HasBytePriority records
    → Fits
        (encode_data records (defaults codec_id))
        read_data
        (packet codec_id (map (decoded (is_extended codec_id)) records))
unfolding encode_data read_data to_codec_id
data-Fits codec8 records h all = bind-Fits _ _ _ _ _ _ (byte-Fits 0x08 "codec id" (omega arith)) (
    bind-Fits _ _ _ _ _ _ (byte-Fits (length records) "record count" h) (
      bind-Fits _ _ _ _ _ _ (records-Fits false records all) (
        check-Fits _ _ _ _ _ (byte-Fits (length records) "trailing record count" h)
          (check_count-same (length records) _))))
data-Fits codec8e records h all = bind-Fits _ _ _ _ _ _ (byte-Fits 0x8e "codec id" (omega arith)) (
    bind-Fits _ _ _ _ _ _ (byte-Fits (length records) "record count" h) (
      bind-Fits _ _ _ _ _ _ (records-Fits true records all) (
        check-Fits _ _ _ _ _ (byte-Fits (length records) "trailing record count" h)
          (check_count-same (length records) _))))

-- A frame around a data field, with the checksum that it declares.
frame_of : List ℕ → ℕ → List ℕ
frame_of data_field crc =
    be_bytes 4 0 ++ (be_bytes 4 (length data_field) ++ (data_field ++ be_bytes 4 crc))

frame_written :
    (data_field frame : List ℕ) (options : EncodeOptions)
    → options.preamble_override ≡ none
    → options.data_length_override ≡ none
    → frame_data data_field options ≡ some frame
    → (frame ≡ frame_of data_field (or_else options.crc_override (crc16ibm data_field)))
      × (length data_field < 256 ^ 4)
      × (or_else options.crc_override (crc16ibm data_field) < 256 ^ 4)
unfolding frame_data frame_of write_uint
frame_written data_field frame options p l e =
    (ground (arith, e, p, l), ground (arith, e, p, l), ground (arith, e, p, l))

take-data : (xs ys : List ℕ) → take (length xs) (xs ++ ys) ≡ xs
take-data xs ys = take-append (length xs) xs ys (omega arith) ∙ take-all xs

drop-data : (xs ys : List ℕ) → drop (length xs) (xs ++ ys) ≡ ys
drop-data xs ys = drop-append (length xs) xs ys (omega arith) ∙ ap (λ l. l ++ ys) (drop-all xs)

eight_more : (n : ℕ) → 8 + n ≡ suc (suc (suc (suc (suc (suc (suc (suc n)))))))
eight_more n = omega arith

drop-header :
    (data_field : List ℕ) (crc : ℕ)
    → (drop 8 (frame_of data_field crc) ≡ data_field ++ be_bytes 4 crc)
      × (drop (8 + length data_field) (frame_of data_field crc) ≡ be_bytes 4 crc)
      × (length (frame_of data_field crc) ≡ 12 + length data_field)
      × (take 4 (be_bytes 4 crc) ≡ be_bytes 4 crc)
unfolding frame_of be_bytes
drop-header data_field crc = (
  refl,
  ap (λ n. drop n (frame_of data_field crc)) (eight_more (length data_field))
      ∙ drop-data data_field (be_bytes 4 crc),
  omega (arith, length-append data_field (be_bytes 4 crc)),
  refl,
)

body_of_frame :
    (data_field : List ℕ) (crc : ℕ)
    → crc < 256 ^ 4
    → parse_body (frame_of data_field crc) (length data_field) ≡ (
        if crc == crc16ibm data_field
        then value_of (read_data (start data_field))
        else ok (corrupt crc (crc16ibm data_field)))
unfolding parse_body
body_of_frame data_field crc h =
    ground (
      arith,
      drop-header data_field crc,
      take-data data_field (be_bytes 4 crc),
      be-be_bytes 4 crc h,
    )

header_of_frame :
    (data_field : List ℕ) (crc : ℕ)
    → length data_field < 256 ^ 4
    → parse_avl_packet (frame_of data_field crc)
      ≡ parse_body (frame_of data_field crc) (length data_field)
unfolding parse_avl_packet frame_of be_bytes
header_of_frame data_field crc h =
    ap
      (λ (p : Parsed (ℕ × Cursor)). elim p [
        | err e ↦ err e
        | ok (preamble, c) ↦
            if preamble == 0
            then elim (u32 "data field length" c) [
              | err e ↦ err e
              | ok (n, c') ↦ parse_body frame n
            ]
            else err (bad_preamble preamble)
      ])
      ((uint-Reads 4 0 "preamble" (omega arith)).reads 0 behind)
    ∙ ap (λ (p : Parsed (ℕ × Cursor)). elim p [ err e ↦ err e | ok (n, c') ↦ parse_body frame n ])
        ((uint-Reads 4 (length data_field) "data field length" h).reads 4
          (data_field ++ be_bytes 4 crc))
  where
    behind : List ℕ
    behind = be_bytes 4 (length data_field) ++ (data_field ++ be_bytes 4 crc)

    frame : List ℕ
    frame = frame_of data_field crc

framed :
    (records : List EncodableRecord) (options : EncodeOptions) (d : Option (List ℕ))
    (frame : List ℕ)
    → encode_data records options ≡ d
    → encode_avl_frame records options ≡ some frame
    → elim d [ none ↦ none | some data_field ↦ frame_data data_field options ] ≡ some frame
unfolding encode_avl_frame
framed records options d frame h e =
    ap
      (λ (d : Option (List ℕ)). elim d [
        | none ↦ none
        | some data_field ↦ frame_data data_field options
      ])
      (sym h)
    ∙ e

read_data-value :
    (codec_id : CodecId) (records : List EncodableRecord) (data_field : List ℕ)
    → length records < 256
    → All HasBytePriority records
    → encode_data records (defaults codec_id) ≡ some data_field
    → value_of (read_data (start data_field))
      ≡ ok (packet codec_id (map (decoded (is_extended codec_id)) records))
read_data-value codec_id records data_field h all e = ap value_of (
    ap (λ l. read_data (start l)) (sym (append-nil data_field))
    ∙ ((data-Fits codec_id records h all).fits data_field e).reads 0 [])

parse_data :
    (codec_id : CodecId) (records : List EncodableRecord) (frame : List ℕ) (d : Option (List ℕ))
    → length records < 256
    → All HasBytePriority records
    → encode_data records (defaults codec_id) ≡ d
    → elim d [ none ↦ none | some data_field ↦ frame_data data_field (defaults codec_id) ]
      ≡ some frame
    → parse_avl_packet frame ≡ ok (packet codec_id (map (decoded (is_extended codec_id)) records))
parse_data codec_id records frame none h all e f = absurd (cc f)
parse_data codec_id records frame (some data_field) h all e f =
    let facts = frame_written data_field frame (defaults codec_id) refl refl f in
    ap parse_avl_packet facts.0
    ∙ header_of_frame data_field (crc16ibm data_field) facts.1
    ∙ body_of_frame data_field (crc16ibm data_field) facts.2
    ∙ ground (arith, read_data-value codec_id records data_field h all e)

-- If the encoder, with default options, makes a frame of at most 255 records whose priorities fit a byte,
-- then the parser reads that frame as a packet of the same codec with just these records: times, positions,
-- elements of every width and, in Codec 8 Extended, elements of variable length.
pub parse-encode :
    (codec_id : CodecId) (records : List EncodableRecord) (frame : List ℕ)
    → length records < 256
    → All HasBytePriority records
    → encode_avl_frame records (defaults codec_id) ≡ some frame
    → parse_avl_packet frame ≡ ok (packet codec_id (map (decoded (is_extended codec_id)) records))
parse-encode codec_id records frame h all e =
    parse_data codec_id records frame (encode_data records (defaults codec_id)) h all refl
      (framed records (defaults codec_id) (encode_data records (defaults codec_id)) frame refl e)

-- If the encoder makes a frame with another checksum than its data field has, then the parser returns no
-- records but reports the frame as corrupt, with the declared checksum and the computed one.
pub parse-encode_corrupt :
    (codec_id : CodecId) (records : List EncodableRecord) (data_field frame : List ℕ) (crc : ℕ)
    → crc ≢ crc16ibm data_field
    → encode_data records (defaults codec_id) ≡ some data_field
    → encode_avl_frame records (record (defaults codec_id) { crc_override = some crc }) ≡ some frame
    → parse_avl_packet frame ≡ ok (corrupt crc (crc16ibm data_field))
unfolding encode_data
parse-encode_corrupt codec_id records data_field frame crc h d e =
    let options = record (defaults codec_id) { crc_override = some crc } in
    let facts =
      frame_written data_field frame options refl refl
        (framed records options (some data_field) frame d e) in
    ap parse_avl_packet facts.0
    ∙ header_of_frame data_field crc facts.1
    ∙ body_of_frame data_field crc facts.2
    ∙ ground (arith, h)
