-- ===== src/Teltonika/Imei.antt =====
-- packages/teltonika/src/imei.ts, and `encodeImeiFrame` of testing.ts. An IMEI is the list of its character codes.
use express_monorepo_bank_te.Base.{
  ℕ, ◌+◌, ◌%◌, Bool, true, ◌&&◌, not, Option, some, List, [], ◌∷◌, length, take, drop, ltb, leb,
  ◌==◌, suc, ◌++◌, ◌≡◌, ap, refl, ◌∙◌, arith, take-append, length-append, take-all, if◌then◌else◌,
}
use express_monorepo_bank_te.Teltonika.Bytes.{be, be_bytes, write_uint}
use express_monorepo_bank_te.Teltonika.Testing.{◌⊕◌}

abbrev pub imei_digits : ℕ
imei_digits = 15

abbrev pub length_prefix_bytes : ℕ
length_prefix_bytes = 2

pub data ImeiError : Type 0 where
  -- the declared number of digits
  wrong_length : ℕ → ImeiError
  not_digits : ImeiError

pub data ImeiFrameResult : Type 0 where
  -- the IMEI and the bytes consumed
  ok : List ℕ → ℕ → ImeiFrameResult
  need_more : ImeiFrameResult
  invalid : ImeiError → ImeiFrameResult

-- `\d`
abbrev pub is_digit : ℕ → Bool
is_digit c = leb 48 c && leb c 57

abbrev pub all_digits : List ℕ → Bool
all_digits [] = true
all_digits (c ∷ cs) = is_digit c && all_digits cs

-- `isValidImei`
unfoldable pub is_valid_imei : List ℕ → Bool
is_valid_imei value = (length value == imei_digits) && all_digits value

-- `toString('ascii')` clears the highest bit of each byte.
abbrev pub ascii : List ℕ → List ℕ
ascii [] = []
ascii (b ∷ bytes) = b % 128 ∷ ascii bytes

-- `tryParseImeiFrame`
unfoldable pub try_parse_imei_frame : List ℕ → ImeiFrameResult
unfolding be is_valid_imei
try_parse_imei_frame buf =
    let declared_length = be (take 2 buf) in
    let frame_length = length_prefix_bytes + declared_length in
    let imei = ascii (take declared_length (drop length_prefix_bytes buf)) in
    if ltb (length buf) length_prefix_bytes
    then need_more
    else if not (declared_length == imei_digits)
    then invalid (wrong_length declared_length)
    else if ltb (length buf) frame_length
    then need_more
    else if not (is_valid_imei imei)
    then invalid not_digits
    else ok imei frame_length

-- `Buffer.from(imei, 'ascii')` keeps the lowest byte of each code.
abbrev pub ascii_bytes : List ℕ → List ℕ
ascii_bytes [] = []
ascii_bytes (c ∷ cs) = c % 256 ∷ ascii_bytes cs

-- `encodeImeiFrame`
unfoldable pub encode_imei_frame : List ℕ → Option (List ℕ)
unfolding write_uint
encode_imei_frame imei = write_uint 2 (length imei) ⊕ some (ascii_bytes imei)

length-ascii_bytes : (cs : List ℕ) → length (ascii_bytes cs) ≡ length cs
length-ascii_bytes [] = refl
length-ascii_bytes (c ∷ cs) = ap suc (length-ascii_bytes cs)

-- Digits survive both readings.
ascii-ascii_bytes : (cs : List ℕ) → all_digits cs ≡ true → ascii (ascii_bytes cs) ≡ cs
ascii-ascii_bytes [] h = refl
ascii-ascii_bytes (c ∷ cs) h = ground (arith, h, ascii-ascii_bytes cs)

encode_written :
    (imei frame : List ℕ)
    → length imei ≡ 15
    → encode_imei_frame imei ≡ some frame
    → frame ≡ 0 ∷ 15 ∷ ascii_bytes imei
unfolding encode_imei_frame be_bytes
encode_written imei frame l e = ground (arith, e, l)

announced :
    (imei rest : List ℕ)
    → is_valid_imei imei ≡ true
    → try_parse_imei_frame (0 ∷ 15 ∷ (ascii_bytes imei ++ rest)) ≡ ok imei 17
unfolding is_valid_imei try_parse_imei_frame be
announced imei rest h = ground (
  arith,
  h,
  length-append (ascii_bytes imei) rest,
  length-ascii_bytes imei,
  take-append 15 (ascii_bytes imei) rest,
  take-all (ascii_bytes imei),
  ascii-ascii_bytes imei,
)

-- A device's announcement of a valid IMEI is read as that IMEI, whatever follows it.
pub parse-encode_imei :
    (imei rest frame : List ℕ)
    → is_valid_imei imei ≡ true
    → encode_imei_frame imei ≡ some frame
    → try_parse_imei_frame (frame ++ rest) ≡ ok imei 17
unfolding is_valid_imei
parse-encode_imei imei rest frame h e =
    ap (λ l. try_parse_imei_frame (l ++ rest)) (encode_written imei frame (ground (arith, h)) e)
    ∙ announced imei rest h
