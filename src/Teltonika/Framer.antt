-- ===== src/Teltonika/Framer.antt =====
-- packages/teltonika/src/framer.ts: the bytes of one connection, cut into events.
use express_monorepo_bank_te.Base.{
  ℕ, zero, suc, ◌+◌, Bool, true, false, not, List, [], ◌∷◌, ◌++◌, length, take, drop, ltb, ◌==◌,
  if◌then◌else◌,
}
use express_monorepo_bank_te.Teltonika.Bytes.{be}
use express_monorepo_bank_te.Teltonika.Cursor.{ParseError, Parsed, ok, err}
use express_monorepo_bank_te.Teltonika.Avl.{
  AvlPacket, parse_avl_packet, frame_header_bytes, frame_crc_bytes,
}
use express_monorepo_bank_te.Teltonika.Imei.{
  ImeiError, ok as imei_ok, need_more, invalid, try_parse_imei_frame,
}
pub mod Rounds
pub mod Chunks
pub mod Bounds
pub mod Openings

-- `FramerErrorReason`, with the numbers that its `detail` names.
pub data FramerError : Type 0 where
  invalid_imei : ImeiError → FramerError
  bad_preamble : ℕ → FramerError
  -- the frame's length and the limit
  frame_too_large : ℕ → ℕ → FramerError
  parse_error : ParseError → FramerError

pub data FramerEvent : Type 0 where
  imei : List ℕ → FramerEvent
  packet : AvlPacket → FramerEvent
  error : FramerError → FramerEvent

pub data State : Type 0 where
  awaiting_imei streaming failed : State

pub record Framer : Type 0 where
  pub buffer : List ℕ
  pub state : State
  pub max_frame_bytes : ℕ

-- `new TeltonikaFramer({ maxFrameBytes })`
abbrev pub new_framer : ℕ → Framer
new_framer max = record { buffer = []; state = awaiting_imei; max_frame_bytes = max }

-- `handshakeComplete`
abbrev pub handshake_complete : Framer → Bool
handshake_complete f = elim f.state [ awaiting_imei ↦ false | streaming ↦ true | failed ↦ false ]

-- What one call of `#next` returns, with the state and the buffer after it.
pub data Next : Type 0 where
  waiting : Next
  emit : FramerEvent → State → List ℕ → Next

-- `#nextHandshake`
unfoldable pub next_handshake : List ℕ → Next
next_handshake buffer = elim (try_parse_imei_frame buffer) [
  | need_more ↦ waiting
  | invalid reason ↦ emit (error (invalid_imei reason)) awaiting_imei buffer
  | imei_ok digits bytes_consumed ↦ emit (imei digits) streaming (drop bytes_consumed buffer)
]

abbrev pub packet_event : Parsed AvlPacket → FramerEvent
packet_event (ok p) = packet p
packet_event (err e) = error (parse_error e)

-- `#nextPacket`
unfoldable pub next_packet : ℕ → List ℕ → Next
next_packet max buffer =
    let preamble = be (take 4 buffer) in
    let data_length = be (take 4 (drop 4 buffer)) in
    let frame_length = frame_header_bytes + data_length + frame_crc_bytes in
    let frame = take frame_length buffer in
    if ltb (length buffer) frame_header_bytes
    then waiting
    else if not (preamble == 0)
    then emit (error (bad_preamble preamble)) streaming buffer
    else if ltb max frame_length
    then emit (error (frame_too_large frame_length max)) streaming buffer
    else if ltb (length buffer) frame_length
    then waiting
    else emit (packet_event (parse_avl_packet frame)) streaming (drop frame_length buffer)

-- `#next`
unfoldable pub next : ℕ → State → List ℕ → Next
unfolding next_handshake next_packet
next max awaiting_imei buffer = next_handshake buffer
next max streaming buffer = next_packet max buffer
next max failed buffer = next_packet max buffer

abbrev pub is_error : FramerEvent → Bool
is_error (imei digits) = false
is_error (packet p) = false
is_error (error e) = true

-- The state and the buffer after a call of `push`, and the events it returns.
pub record Pushed : Type 0 where
  pub state : State
  pub buffer : List ℕ
  pub events : List FramerEvent

abbrev pub pushed : State → List ℕ → List FramerEvent → Pushed
pushed s buffer events = record { state = s; buffer = buffer; events = events }

abbrev pub also : FramerEvent → Pushed → Pushed
also event p = pushed p.state p.buffer (event ∷ p.events)

-- The loop of `push`, with a bound on its rounds.
unfoldable pub drain : ℕ → ℕ → State → List ℕ → Pushed
unfolding next
drain zero max s buffer = pushed s buffer []
drain (suc n) max s buffer = elim (next max s buffer) [
  | waiting ↦ pushed s buffer []
  | emit event s' rest ↦
      let later = drain n max s' rest in
      if is_error event then pushed failed [] (event ∷ []) else also event later
]

abbrev pub is_failed : State → Bool
is_failed awaiting_imei = false
is_failed streaming = false
is_failed failed = true

abbrev pub after : Framer → Pushed → Framer × List FramerEvent
after f p = (record f { buffer = p.buffer; state = p.state }, p.events)

-- `push`: each round before the last consumes a byte at least, which bounds their number.
unfoldable pub push : Framer → List ℕ → Framer × List FramerEvent
unfolding drain
push f chunk =
    let buffer = f.buffer ++ chunk in
    let drained = drain (suc (length buffer)) f.max_frame_bytes f.state buffer in
    if is_failed f.state then (f, []) else after f drained
