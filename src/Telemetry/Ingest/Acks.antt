-- ===== src/Telemetry/Ingest/Acks.antt =====
-- An acknowledgement promises that the records are stored.
use express_monorepo_bank_te.Base.{
  ℕ, suc, Bool, true, false, ◌≡◌, Option, none, some, List, [], ◌∷◌, length, if◌then◌else◌,
}
use express_monorepo_bank_te.Teltonika.Avl.{AvlPacket, packet as decoded, corrupt}
use express_monorepo_bank_te.Teltonika.Framer.{
  push, FramerEvent, imei, packet, error, FramerError, invalid_imei, bad_preamble, frame_too_large,
  parse_error,
}
use express_monorepo_bank_te.Telemetry.Events.{TelemetryEvent, build_telemetry_events, length-build}
use express_monorepo_bank_te.Telemetry.Ingest.{
  Effect, imei_ack, record_ack, stored, publish_failed, dropped, threw, DropReason, Connection,
  is_dated, publish_dated, publish_events, handle_error, handle_packet_of, handle_event,
  handle_events, handle_chunk,
}

-- Each acknowledgement of records comes right after the events of just so many were stored.
pub data IsDurable : List Effect → Type 0 where
  nothing : IsDurable []
  resend : {effects : List Effect} → IsDurable effects → IsDurable (record_ack 0 ∷ effects)
  after_store :
      {effects : List Effect} (events : List TelemetryEvent) (n : ℕ)
      → length events ≡ n
      → IsDurable effects
      → IsDurable (record_ack n ∷ stored events ∷ effects)
  handshake :
      {effects : List Effect} (b : Bool) → IsDurable effects → IsDurable (imei_ack b ∷ effects)
  unpublished : {effects : List Effect} → IsDurable effects → IsDurable (publish_failed ∷ effects)
  ended :
      {effects : List Effect} (reason : DropReason)
      → IsDurable effects
      → IsDurable (dropped reason ∷ effects)
  died : {effects : List Effect} → IsDurable effects → IsDurable (threw ∷ effects)

module _ (publish : List TelemetryEvent → Bool) where
  publish_events-IsDurable :
      (events : List TelemetryEvent) (count : ℕ) (c : Connection)
      → length events ≡ count
      → IsDurable c.effects
      → IsDurable (Connection.effects (publish_events publish events count c))
  publish_events-IsDurable events count c h d =
      elim (publish events)
        as (λ b. IsDurable (
          Connection.effects (
            if b
            then record c { effects = record_ack count ∷ stored events ∷ c.effects }
            else record c { destroyed = true; effects = publish_failed ∷ c.effects }))) [
              | true ↦ after_store events count h d
              | false ↦ unpublished d
            ]

  publish_dated-IsDurable :
      (dated : Bool) (events : List TelemetryEvent) (count : ℕ) (c : Connection)
      → length events ≡ count
      → IsDurable c.effects
      → IsDurable (Connection.effects (publish_dated publish dated events count c))
  publish_dated-IsDurable true events count c h d = publish_events-IsDurable events count c h d
  publish_dated-IsDurable false events count c h d = died d

  handle_packet-IsDurable :
      (i : Option (List ℕ)) (now : ℕ) (p : AvlPacket) (c : Connection)
      → IsDurable c.effects
      → IsDurable (Connection.effects (handle_packet_of publish i now p c))
  unfolding handle_packet_of
  handle_packet-IsDurable none now p c h = ended _ h
  handle_packet-IsDurable (some digits) now (corrupt declared computed) c h = resend h
  handle_packet-IsDurable (some digits) now (decoded codec_id records) c h =
      publish_dated-IsDurable (is_dated records)
        (build_telemetry_events digits codec_id records now) (length records) c
        (length-build digits codec_id records now) h

  handle_error-IsDurable :
      (e : FramerError) (c : Connection)
      → IsDurable c.effects
      → IsDurable (Connection.effects (handle_error publish e c))
  handle_error-IsDurable (invalid_imei e) c h = ended _ (handshake false h)
  handle_error-IsDurable (bad_preamble n) c h = ended _ h
  handle_error-IsDurable (frame_too_large n max) c h = ended _ h
  handle_error-IsDurable (parse_error e) c h = ended _ h

  handle_event-IsDurable :
      (now : ℕ) (e : FramerEvent) (c : Connection)
      → IsDurable c.effects
      → IsDurable (Connection.effects (handle_event publish now e c))
  unfolding handle_event
  handle_event-IsDurable now (imei digits) c h = handshake true h
  handle_event-IsDurable now (packet p) c h = handle_packet-IsDurable c.imei now p c h
  handle_event-IsDurable now (error e) c h = handle_error-IsDurable e c h

  handle_events-IsDurable :
      (now : ℕ → ℕ) (events : List FramerEvent) (c : Connection)
      → IsDurable c.effects
      → IsDurable (Connection.effects (handle_events publish now events c))
  unfolding handle_events
  handle_events-IsDurable now [] c h = h
  handle_events-IsDurable now (e ∷ events) c h =
      elim c.destroyed
        as (λ b. IsDurable (
          Connection.effects (
            if b
            then c
            else handle_events publish (λ i. now (suc i)) events
                (handle_event publish (now 0) e c)))) [
                  | true ↦ h
                  | false ↦
                      handle_events-IsDurable (λ i. now (suc i)) events
                        (handle_event publish (now 0) e c) (handle_event-IsDurable (now 0) e c h)
                ]

  -- If every acknowledgement of records that a connection has sent was for none, or came right after just
  -- as many events were stored, the same holds after any chunk of bytes, at whatever times its packets are handled and whichever publishes fail.
  pub handle_chunk-IsDurable :
      (now : ℕ → ℕ) (chunk : List ℕ) (c : Connection)
      → IsDurable c.effects
      → IsDurable (Connection.effects (handle_chunk publish now chunk c))
  unfolding handle_chunk
  handle_chunk-IsDurable now chunk c h =
      handle_events-IsDurable now (push c.framer chunk).1
        (record c { framer = (push c.framer chunk).0 }) h
