-- ===== src/Telemetry/Ingest.antt =====
-- apps/telemetry-ingest/src/server.ts: one device's connection. `publish` is the client of Kafka that the server is
-- given: whether the call for a list of events resolves, which it does only once they are stored.
use express_monorepo_bank_te.Base.{
  ℕ, suc, Bool, true, false, Option, none, some, List, [], ◌∷◌, length, any_of, ltb, not,
  if◌then◌else◌,
}
use express_monorepo_bank_te.Teltonika.Avl.{AvlRecord, AvlPacket, packet as decoded, corrupt}
use express_monorepo_bank_te.Teltonika.Framer.{
  Framer, new_framer, FramerEvent, imei, packet, error, FramerError, invalid_imei, bad_preamble,
  frame_too_large, parse_error, push,
}
use express_monorepo_bank_te.Telemetry.Events.{TelemetryEvent, build_telemetry_events}
pub mod Acks
pub mod Handshake
pub mod Server

pub data DropReason : Type 0 where
  packet_before_handshake : DropReason
  framer_error : FramerError → DropReason
  idle_timeout : DropReason

-- What a connection does to the outside.
pub data Effect : Type 0 where
  -- `socket.write(buildImeiAck(accepted))`
  imei_ack : Bool → Effect
  -- `socket.write(buildRecordAck(count))`
  record_ack : ℕ → Effect
  -- events that `publish` has stored
  stored : List TelemetryEvent → Effect
  -- a call of `publish` that was rejected
  publish_failed : Effect
  dropped : DropReason → Effect
  -- a throw outside every `try`: the rejection is unhandled, and ends the process
  threw : Effect

-- `effects` has the newest first.
pub record Connection : Type 0 where
  pub framer : Framer
  pub imei : Option (List ℕ)
  pub destroyed : Bool
  pub effects : List Effect

abbrev pub default_max_frame_bytes : ℕ
default_max_frame_bytes = 1048576

abbrev pub connect : Connection
connect = record {
  framer = new_framer default_max_frame_bytes;
  imei = none;
  destroyed = false;
  effects = [];
}

abbrev pub emit : Effect → Connection → Connection
emit e c = record c { effects = e ∷ c.effects }

-- `drop`
abbrev pub drop : DropReason → Connection → Connection
drop reason c = record c { destroyed = true; effects = dropped reason ∷ c.effects }

-- The last time of a JavaScript date, after which `toISOString` throws a RangeError.
abbrev pub max_time_ms : ℕ
max_time_ms = 8640000000000000

abbrev pub is_dated : List AvlRecord → Bool
is_dated records = not (any_of (λ r. ltb max_time_ms r.timestamp_ms) records)

abbrev pub crash : Connection → Connection
crash c = record c { destroyed = true; effects = threw ∷ c.effects }

module _ (publish : List TelemetryEvent → Bool) where
  -- The end of `handlePacket`, once the events are built.
  abbrev pub publish_events : List TelemetryEvent → ℕ → Connection → Connection
  publish_events events count c =
      if publish events
      then record c { effects = record_ack count ∷ stored events ∷ c.effects }
      else record c { destroyed = true; effects = publish_failed ∷ c.effects }

  -- The events are built before the `try`.
  abbrev pub publish_dated : Bool → List TelemetryEvent → ℕ → Connection → Connection
  publish_dated true events count c = publish_events events count c
  publish_dated false events count c = crash c

  -- `handlePacket`, by the IMEI that the handshake gave.
  unfoldable pub handle_packet_of : Option (List ℕ) → ℕ → AvlPacket → Connection → Connection
  handle_packet_of none now p c = drop packet_before_handshake c
  handle_packet_of (some digits) now (corrupt declared computed) c = emit (record_ack 0) c
  handle_packet_of (some digits) now (decoded codec_id records) c =
      publish_dated (is_dated records) (build_telemetry_events digits codec_id records now)
        (length records) c

  abbrev pub handle_packet : ℕ → AvlPacket → Connection → Connection
  handle_packet now p c = handle_packet_of c.imei now p c

  -- `case 'error'`
  abbrev pub handle_error : FramerError → Connection → Connection
  handle_error (invalid_imei e) c = drop (framer_error (invalid_imei e)) (emit (imei_ack false) c)
  handle_error (bad_preamble n) c = drop (framer_error (bad_preamble n)) c
  handle_error (frame_too_large n max) c = drop (framer_error (frame_too_large n max)) c
  handle_error (parse_error e) c = drop (framer_error (parse_error e)) c

  unfoldable pub handle_event : ℕ → FramerEvent → Connection → Connection
  unfolding handle_packet_of
  handle_event now (imei digits) c = emit (imei_ack true) (record c { imei = some digits })
  handle_event now (packet p) c = handle_packet now p c
  handle_event now (error e) c = handle_error e c

  -- The loop of `handleChunk`, which a destroyed socket ends. `now` is the time at each of the events, by
  -- their order.
  unfoldable pub handle_events : (ℕ → ℕ) → List FramerEvent → Connection → Connection
  unfolding handle_event
  handle_events now [] c = c
  handle_events now (e ∷ events) c =
      let rest = handle_events (λ i. now (suc i)) events (handle_event (now 0) e c) in
      if c.destroyed then c else rest

  -- `handleChunk`; the server is paused meanwhile, so that no two of them overlap.
  unfoldable pub handle_chunk : (ℕ → ℕ) → List ℕ → Connection → Connection
  unfolding handle_events
  handle_chunk now chunk c =
      let pushed = push c.framer chunk in
      handle_events now pushed.1 (record c { framer = pushed.0 })
