-- ===== src/Teltonika/Framer/Bounds.antt =====
-- What `push` leaves for the next chunk.
use express_monorepo_bank_te.Base.{
  ℕ, zero, suc, ◌<◌, ◌≤◌, List, ◌++◌, ◌≡◌, ◌⊎◌, inl, inr, refl, true, false, length, arith,
}
use express_monorepo_bank_te.Teltonika.Imei.{try_parse_imei_frame, need_more}
use express_monorepo_bank_te.Teltonika.Framer.{
  State, awaiting_imei, streaming, failed, Framer, waiting, next, next_handshake, next_packet,
  is_failed, drain, push,
}
use express_monorepo_bank_te.Teltonika.Framer.Rounds.{
  waits, fails, goes, round, drain-waits, drain-fails, drain-goes, next-shrinks, next-state,
}
use express_monorepo_bank_te.Teltonika.Framer.Chunks.{push-live}

-- Nothing more can be read, and what is kept is shorter than a frame may be.
abbrev pub IsDrained : ℕ → State → List ℕ → Type 0
IsDrained max s buffer = (next max s buffer ≡ waiting) × (length buffer < max)

parse-waits : (buffer : List ℕ) → try_parse_imei_frame buffer ≡ need_more → length buffer < 17
unfolding try_parse_imei_frame
parse-waits buffer e = ground (arith, e)

handshake-waits : (buffer : List ℕ) → next_handshake buffer ≡ waiting → length buffer < 17
unfolding next_handshake
handshake-waits buffer e = ground (arith, e, parse-waits buffer)

packet-waits :
    (max : ℕ) (buffer : List ℕ) → 17 ≤ max → next_packet max buffer ≡ waiting → length buffer < max
unfolding next_packet
packet-waits max buffer room e = ground (arith, e)

next-waits :
    (max : ℕ) (s : State) (buffer : List ℕ)
    → 17 ≤ max
    → next max s buffer ≡ waiting
    → length buffer < max
unfolding next
next-waits max awaiting_imei buffer room e = omega (arith, room, handshake-waits buffer e)
next-waits max streaming buffer room e = packet-waits max buffer room e
next-waits max failed buffer room e = packet-waits max buffer room e

-- With one round more than the buffer has bytes, the loop ends in an error or with nothing left to read.
drain-IsDrained :
    (n max : ℕ) (s : State) (buffer : List ℕ)
    → 17 ≤ max
    → length buffer < n
    → is_failed s ≡ false
    → let p = drain n max s buffer in (is_failed p.state ≡ true) ⊎ IsDrained max p.state p.buffer
drain-IsDrained zero max s buffer room h live = absurd (omega (arith, h))
drain-IsDrained (suc n) max s buffer room h live = elim (round max s buffer) [
  | waits e ↦ rw (drain-waits n max s buffer e) (inr (e, next-waits max s buffer room e))
  | fails event s' rest e bad ↦ rw (drain-fails n max s buffer rest event s' e bad) (inl refl)
  | goes event s' rest e good ↦ rw (drain-goes n max s buffer rest event s' e good) (
      drain-IsDrained n max s' rest room
        (omega (arith, h, next-shrinks max s buffer rest event s' e good))
        (next-state max s buffer rest event s' e))
]

-- A call of `push` on a framer that has not failed ends, and leaves it failed, or with nothing more to read
-- in what it keeps and less than `max_frame_bytes` kept; the bound must have room for the handshake.
pub push-IsDrained :
    (f : Framer) (chunk : List ℕ)
    → 17 ≤ f.max_frame_bytes
    → is_failed f.state ≡ false
    → let (f', _) = push f chunk in
      (is_failed f'.state ≡ true) ⊎ IsDrained f.max_frame_bytes f'.state f'.buffer
push-IsDrained f chunk room live = rw (push-live f chunk live) (
    drain-IsDrained (suc (length (f.buffer ++ chunk))) f.max_frame_bytes f.state (f.buffer ++ chunk)
      room (omega arith) live)
