-- ===== src/Teltonika/Framer/Rounds.antt =====
-- One round of the loop of `push`: what is read stays the same when more bytes come, and is consumed.
use express_monorepo_bank_te.Base.{
  ℕ, suc, ◌+◌, ◌<◌, ◌≤◌, Bool, true, false, ◌≡◌, ◌≢◌, refl, ap, ◌∙◌, List, [], ◌∷◌, ◌++◌, length,
  take, drop, if◌then◌else◌, arith, length-append, take-append, drop-append, length-drop,
}
use express_monorepo_bank_te.Teltonika.Bytes.{be}
use express_monorepo_bank_te.Teltonika.Imei.{
  ImeiFrameResult, ok, need_more, invalid, try_parse_imei_frame,
}
use express_monorepo_bank_te.Teltonika.Framer.{
  FramerEvent, emit, waiting, State, awaiting_imei, streaming, failed, Next, next_handshake,
  next_packet, next, is_error, is_failed, Pushed, pushed, also, drain,
}

-- Bytes behind a frame that is there change nothing.
parse-stable :
    (buffer more : List ℕ) (r : ImeiFrameResult)
    → try_parse_imei_frame buffer ≡ r
    → r ≢ need_more
    → try_parse_imei_frame (buffer ++ more) ≡ r
unfolding try_parse_imei_frame
parse-stable buffer more r e h = ground (
  arith,
  length-append buffer more,
  take-append 2 buffer more,
  drop-append 2 buffer more,
  take-append 15 (drop 2 buffer) more,
  length-drop 2 buffer,
)

parse-consumes :
    (buffer imei : List ℕ) (n : ℕ)
    → try_parse_imei_frame buffer ≡ ok imei n
    → n ≡ 17 × (n ≤ length buffer)
unfolding try_parse_imei_frame
parse-consumes buffer imei n h = (ground arith, ground arith)

handshake-stable :
    (buffer more rest : List ℕ) (event : FramerEvent) (s : State)
    → next_handshake buffer ≡ emit event s rest
    → next_handshake (buffer ++ more) ≡ emit event s (rest ++ more)
unfolding next_handshake
handshake-stable buffer more rest event s e = stable (try_parse_imei_frame buffer) refl
  where
    stable :
        (r : ImeiFrameResult)
        → try_parse_imei_frame buffer ≡ r
        → next_handshake (buffer ++ more) ≡ emit event s (rest ++ more)
    stable (ok imei n) h = ground (
      arith,
      parse-stable buffer more (ok imei n) h,
      parse-consumes buffer imei n h,
      drop-append n buffer more,
    )
    stable need_more h = absurd (cc (h, e))
    stable (invalid reason) h = ground (arith, parse-stable buffer more (invalid reason) h)

header-stable :
    (buffer more : List ℕ)
    → 8 ≤ length buffer
    → (take 4 (buffer ++ more) ≡ take 4 buffer)
      × (take 4 (drop 4 (buffer ++ more)) ≡ take 4 (drop 4 buffer))
header-stable buffer more h = (
  ground (arith, take-append 4 buffer more),
  ground
      (arith, drop-append 4 buffer more, take-append 4 (drop 4 buffer) more, length-drop 4 buffer),
)

packet-stable :
    (max : ℕ) (buffer more rest : List ℕ) (event : FramerEvent) (s : State)
    → next_packet max buffer ≡ emit event s rest
    → next_packet max (buffer ++ more) ≡ emit event s (rest ++ more)
unfolding next_packet
packet-stable max buffer more rest event s e = ground (
  arith,
  length-append buffer more,
  header-stable buffer more,
  take-append (8 + be (take 4 (drop 4 buffer)) + 4) buffer more,
  drop-append (8 + be (take 4 (drop 4 buffer)) + 4) buffer more,
)

packet-shrinks :
    (max : ℕ) (buffer rest : List ℕ) (event : FramerEvent) (s : State)
    → next_packet max buffer ≡ emit event s rest
    → is_error event ≡ false
    → length rest < length buffer
unfolding next_packet
packet-shrinks max buffer rest event s e h =
    ground (arith, length-drop (8 + be (take 4 (drop 4 buffer)) + 4) buffer)

pub next-stable :
    (max : ℕ) (s : State) (buffer more rest : List ℕ) (event : FramerEvent) (s' : State)
    → next max s buffer ≡ emit event s' rest
    → next max s (buffer ++ more) ≡ emit event s' (rest ++ more)
unfolding next
next-stable max awaiting_imei buffer more rest event s' = handshake-stable buffer more rest event s'
next-stable max streaming buffer more rest event s' = packet-stable max buffer more rest event s'
next-stable max failed buffer more rest event s' = packet-stable max buffer more rest event s'

handshake-shrinks :
    (buffer rest : List ℕ) (event : FramerEvent) (s : State)
    → next_handshake buffer ≡ emit event s rest
    → is_error event ≡ false
    → length rest < length buffer
unfolding next_handshake
handshake-shrinks buffer rest event s e h = shrinks (try_parse_imei_frame buffer) refl
  where
    shrinks : (r : ImeiFrameResult) → try_parse_imei_frame buffer ≡ r → length rest < length buffer
    shrinks (ok imei n) r = ground (arith, parse-consumes buffer imei n r, length-drop n buffer)
    shrinks need_more r = absurd (cc (r, e))
    shrinks (invalid reason) r = ground (arith, r)

pub next-shrinks :
    (max : ℕ) (s : State) (buffer rest : List ℕ) (event : FramerEvent) (s' : State)
    → next max s buffer ≡ emit event s' rest
    → is_error event ≡ false
    → length rest < length buffer
unfolding next
next-shrinks max awaiting_imei buffer rest event s' = handshake-shrinks buffer rest event s'
next-shrinks max streaming buffer rest event s' = packet-shrinks max buffer rest event s'
next-shrinks max failed buffer rest event s' = packet-shrinks max buffer rest event s'

pub next-state :
    (max : ℕ) (s : State) (buffer rest : List ℕ) (event : FramerEvent) (s' : State)
    → next max s buffer ≡ emit event s' rest
    → is_failed s' ≡ false
unfolding next next_handshake next_packet
next-state max awaiting_imei buffer rest event s' e = ground (arith, e)
next-state max streaming buffer rest event s' e = ground (arith, e)
next-state max failed buffer rest event s' e = ground (arith, e)

-- How a round of `push` goes.
pub data Round (max : ℕ) (s : State) (buffer : List ℕ) : Type 0 where
  waits : next max s buffer ≡ waiting → Round max s buffer
  fails :
      (event : FramerEvent) (s' : State) (rest : List ℕ)
      → next max s buffer ≡ emit event s' rest
      → is_error event ≡ true
      → Round max s buffer
  goes :
      (event : FramerEvent) (s' : State) (rest : List ℕ)
      → next max s buffer ≡ emit event s' rest
      → is_error event ≡ false
      → Round max s buffer

pub round : (max : ℕ) (s : State) (buffer : List ℕ) → Round max s buffer
round max s buffer = of_next (next max s buffer) refl
  where
    of_event :
        (event : FramerEvent) (s' : State) (rest : List ℕ)
        → next max s buffer ≡ emit event s' rest
        → (b : Bool) → is_error event ≡ b
        → Round max s buffer
    of_event event s' rest e true k = fails event s' rest e k
    of_event event s' rest e false k = goes event s' rest e k

    of_next : (r : Next) → next max s buffer ≡ r → Round max s buffer
    of_next waiting e = waits e
    of_next (emit event s' rest) e = of_event event s' rest e (is_error event) refl

rest_of_drain : ℕ → ℕ → State → List ℕ → Next → Pushed
rest_of_drain n max s buffer waiting = pushed s buffer []
rest_of_drain n max s buffer (emit event s' rest) =
    let later = drain n max s' rest in
    if is_error event then pushed failed [] (event ∷ []) else also event later

drain-rest :
    (n max : ℕ) (s : State) (buffer : List ℕ) (r : Next)
    → next max s buffer ≡ r
    → drain (suc n) max s buffer ≡ rest_of_drain n max s buffer r
unfolding drain rest_of_drain
drain-rest n max s buffer r e =
    ap
      (λ (r : Next). elim r [
        | waiting ↦ pushed s buffer []
        | emit event s' rest ↦
            if is_error event
            then pushed failed [] (event ∷ [])
            else also event (drain n max s' rest)
      ])
      e
    ∙ of_next r
  where
    of_next :
        (r : Next)
        → elim r [
          | waiting ↦ pushed s buffer []
          | emit event s' rest ↦
              if is_error event
              then pushed failed [] (event ∷ [])
              else also event (drain n max s' rest)
        ]
          ≡ rest_of_drain n max s buffer r
    of_next waiting = refl
    of_next (emit event s' rest) = refl

pub drain-waits :
    (n max : ℕ) (s : State) (buffer : List ℕ)
    → next max s buffer ≡ waiting
    → drain (suc n) max s buffer ≡ pushed s buffer []
unfolding rest_of_drain
drain-waits n max s buffer e = drain-rest n max s buffer waiting e

pub drain-fails :
    (n max : ℕ) (s : State) (buffer rest : List ℕ) (event : FramerEvent) (s' : State)
    → next max s buffer ≡ emit event s' rest
    → is_error event ≡ true
    → drain (suc n) max s buffer ≡ pushed failed [] (event ∷ [])
unfolding rest_of_drain
drain-fails n max s buffer rest event s' e k =
    drain-rest n max s buffer (emit event s' rest) e
    ∙ ap (λ b. if b then pushed failed [] (event ∷ []) else also event (drain n max s' rest)) k

pub drain-goes :
    (n max : ℕ) (s : State) (buffer rest : List ℕ) (event : FramerEvent) (s' : State)
    → next max s buffer ≡ emit event s' rest
    → is_error event ≡ false
    → drain (suc n) max s buffer ≡ also event (drain n max s' rest)
unfolding rest_of_drain
drain-goes n max s buffer rest event s' e k =
    drain-rest n max s buffer (emit event s' rest) e
    ∙ ap (λ b. if b then pushed failed [] (event ∷ []) else also event (drain n max s' rest)) k
