-- ===== src/Telemetry/Ingest/Handshake.antt =====
-- A packet never comes before the handshake: the framer announces the device first.
use express_monorepo_bank_te.Base.{
  ℕ, suc, Bool, true, false, Option, none, some, List, [], ◌∷◌, ◌++◌, ◌≡◌, refl, length, All,
  is_some, if◌then◌else◌, ap,
}
use express_monorepo_bank_te.Teltonika.Avl.{AvlPacket, packet as decoded, corrupt}
use express_monorepo_bank_te.Teltonika.Framer.{
  FramerEvent, imei, packet, error, FramerError, invalid_imei, bad_preamble, frame_too_large,
  parse_error, Pushed, drain, push,
}
use express_monorepo_bank_te.Teltonika.Framer.Chunks.{push-live}
use express_monorepo_bank_te.Telemetry.Events.{TelemetryEvent, build_telemetry_events}
use express_monorepo_bank_te.Telemetry.Ingest.{
  Effect, record_ack, stored, publish_failed, dropped, packet_before_handshake, Connection, connect,
  is_dated, publish_dated, publish_events, handle_error, handle_packet_of, handle_event,
  handle_events, handle_chunk,
}
use express_monorepo_bank_te.Teltonika.Framer.Openings.{
  is_awaiting, Opening, silent, breaks, announces, drain-Opening, awaiting-is,
}

abbrev is_early : Effect → Bool
is_early (dropped packet_before_handshake) = true
is_early _ = false

-- No packet was dropped for want of a handshake.
abbrev pub IsOrderly : List Effect → Type 0
IsOrderly effects = All (λ e. is_early e ≡ false) effects

module _ (publish : List TelemetryEvent → Bool) where
  -- Once a device has announced itself, every event is in order.
  abbrev Announced : Connection → Type 0
  Announced c = (is_some c.imei ≡ true) × IsOrderly c.effects

  publish-Announced :
      (events : List TelemetryEvent) (n : ℕ) (c : Connection)
      → Announced c
      → Announced (publish_events publish events n c)
  publish-Announced events n c h =
      elim (publish events)
        as (λ b. Announced (
          if b
          then record c { effects = record_ack n ∷ stored events ∷ c.effects }
          else record c { destroyed = true; effects = publish_failed ∷ c.effects })) [
            | true ↦ (h.0, (refl, (refl, h.1)))
            | false ↦ (h.0, (refl, h.1))
          ]

  dated-Announced :
      (dated : Bool) (events : List TelemetryEvent) (n : ℕ) (c : Connection)
      → Announced c
      → Announced (publish_dated publish dated events n c)
  dated-Announced true events n c h = publish-Announced events n c h
  dated-Announced false events n c h = (h.0, (refl, h.1))

  packet-Announced :
      (i : Option (List ℕ)) (now : ℕ) (p : AvlPacket) (c : Connection)
      → is_some i ≡ true
      → Announced c
      → Announced (handle_packet_of publish i now p c)
  unfolding handle_packet_of
  packet-Announced none now p c known h = absurd (cc known)
  packet-Announced (some i) now (corrupt declared computed) c known h = (h.0, (refl, h.1))
  packet-Announced (some i) now (decoded codec_id records) c known h =
      dated-Announced (is_dated records) (build_telemetry_events i codec_id records now)
        (length records) c h

  error-IsOrderly :
      (e : FramerError) (c : Connection)
      → IsOrderly c.effects
      → IsOrderly (Connection.effects (handle_error publish e c))
  error-IsOrderly (invalid_imei e) c h = (refl, (refl, h))
  error-IsOrderly (bad_preamble n) c h = (refl, h)
  error-IsOrderly (frame_too_large n max) c h = (refl, h)
  error-IsOrderly (parse_error e) c h = (refl, h)

  error-imei :
      (e : FramerError) (c : Connection) → Connection.imei (handle_error publish e c) ≡ c.imei
  error-imei (invalid_imei e) c = refl
  error-imei (bad_preamble n) c = refl
  error-imei (frame_too_large n max) c = refl
  error-imei (parse_error e) c = refl

  event-Announced :
      (now : ℕ) (e : FramerEvent) (c : Connection)
      → Announced c
      → Announced (handle_event publish now e c)
  unfolding handle_event
  event-Announced now (imei digits) c h = (refl, (refl, h.1))
  event-Announced now (packet p) c h = packet-Announced c.imei now p c h.0 h
  event-Announced now (error e) c h = (rw (error-imei e c) h.0, error-IsOrderly e c h.1)

  events-Announced :
      (now : ℕ → ℕ) (events : List FramerEvent) (c : Connection)
      → Announced c
      → Announced (handle_events publish now events c)
  unfolding handle_events
  events-Announced now [] c h = h
  events-Announced now (e ∷ events) c h =
      elim c.destroyed
        as (λ b. Announced (
          if b
          then c
          else handle_events publish (λ i. now (suc i)) events
              (handle_event publish (now 0) e c))) [
                | true ↦ h
                | false ↦
                    events-Announced (λ i. now (suc i)) events (handle_event publish (now 0) e c)
                      (event-Announced (now 0) e c h)
              ]

  -- A connection that has announced its device, waits for it, or is done for.
  pub data IsInOrder (c : Connection) : Type 0 where
    known : is_some c.imei ≡ true → IsOrderly c.effects → IsInOrder c
    expects : is_awaiting c.framer.state ≡ true → IsOrderly c.effects → IsInOrder c
    closed : c.destroyed ≡ true → IsOrderly c.effects → IsInOrder c

  IsInOrder-effects : (c : Connection) → IsInOrder c → IsOrderly c.effects
  IsInOrder-effects c (known h k) = k
  IsInOrder-effects c (expects h k) = k
  IsInOrder-effects c (closed h k) = k

  events-closed :
      (now : ℕ → ℕ) (events : List FramerEvent) (c : Connection)
      → c.destroyed ≡ true
      → handle_events publish now events c ≡ c
  unfolding handle_events
  events-closed now [] c h = refl
  events-closed now (e ∷ events) c h =
      ap
        (λ b.
          if b
          then c
          else handle_events publish (λ i. now (suc i)) events (handle_event publish (now 0) e c))
        h

  error-closed :
      (e : FramerError) (c : Connection) → Connection.destroyed (handle_error publish e c) ≡ true
  error-closed (invalid_imei e) c = refl
  error-closed (bad_preamble n) c = refl
  error-closed (frame_too_large n max) c = refl
  error-closed (parse_error e) c = refl

  first_events-IsInOrder :
      (now : ℕ → ℕ) (p : Pushed) (c : Connection)
      → IsOrderly c.effects
      → c.framer.state ≡ p.state
      → Opening p
      → IsInOrder (handle_events publish now p.events c)
  unfolding handle_events handle_event
  first_events-IsInOrder now p c h at (silent nil still) = rw nil (expects (rw at still) h)
  first_events-IsInOrder now p c h at (breaks e one) = rw one (
      elim c.destroyed
          as (λ b. c.destroyed ≡ b → IsInOrder (if b then c else handle_error publish e c)) [
            | true ↦ λ d. closed d h
            | false ↦ λ d. closed (error-closed e c) (error-IsOrderly e c h)
          ]
        refl)
  first_events-IsInOrder now p c h at (announces digits rest more) = rw more (
      elim c.destroyed
          as (λ b.
            c.destroyed ≡ b
            → IsInOrder (
                if b
                then c
                else handle_events publish (λ i. now (suc i)) rest
                    (handle_event publish (now 0) (imei digits) c))) [
                      | true ↦ λ d. closed d h
                      | false ↦ λ d.
                          let (named, orderly) =
                            events-Announced (λ i. now (suc i)) rest
                              (handle_event publish (now 0) (imei digits) c) (refl, (refl, h)) in
                          known named orderly
                    ]
        refl)

  chunk-IsInOrder :
      (now : ℕ → ℕ) (chunk : List ℕ) (c : Connection)
      → IsInOrder c
      → IsInOrder (handle_chunk publish now chunk c)
  unfolding handle_chunk
  chunk-IsInOrder now chunk c (known named h) =
      let (n, o) =
        events-Announced now (push c.framer chunk).1 (record c { framer = (push c.framer chunk).0 })
          (named, h) in
      known n o
  chunk-IsInOrder now chunk c (closed d h) =
      rw
        (events-closed now (push c.framer chunk).1 (record c { framer = (push c.framer chunk).0 })
          d)
        (closed d h)
  chunk-IsInOrder now chunk c (expects held h) =
      let state = awaiting-is c.framer.state held in
      let all = c.framer.buffer ++ chunk in
      let p = drain (suc (length all)) c.framer.max_frame_bytes c.framer.state all in
      rw (push-live c.framer chunk (rw state refl)) (
        first_events-IsInOrder now p
          (record c { framer = record c.framer { buffer = p.buffer; state = p.state } }) h refl
          (rw state (drain-Opening (suc (length all)) c.framer.max_frame_bytes all)))

  -- A connection's chunks one after another, each with the times at its events.
  abbrev pub handle_chunks : List ((ℕ → ℕ) × List ℕ) → Connection → Connection
  handle_chunks [] c = c
  handle_chunks ((now, chunk) ∷ chunks) c = handle_chunks chunks (handle_chunk publish now chunk c)

  chunks-IsInOrder :
      (chunks : List ((ℕ → ℕ) × List ℕ)) (c : Connection)
      → IsInOrder c
      → IsInOrder (handle_chunks chunks c)
  chunks-IsInOrder [] c h = h
  chunks-IsInOrder ((now, chunk) ∷ chunks) c h =
      chunks-IsInOrder chunks (handle_chunk publish now chunk c) (chunk-IsInOrder now chunk c h)

  -- Whatever a device sends, in whatever chunks and at whatever times, its connection is never dropped for a
  -- packet before the handshake: the framer announces the device before it returns any packet.
  pub handle_chunks-IsOrderly :
      (chunks : List ((ℕ → ℕ) × List ℕ))
      → IsOrderly (Connection.effects (handle_chunks chunks connect))
  handle_chunks-IsOrderly chunks =
      IsInOrder-effects (handle_chunks chunks connect)
        (chunks-IsInOrder chunks connect (expects refl tt))
