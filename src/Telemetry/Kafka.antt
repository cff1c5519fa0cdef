-- ===== src/Telemetry/Kafka.antt =====
-- packages/events/src/client.ts, topics.ts and `decodeTelemetryEvent` of schemas.ts. The broker and its client are
-- the functions given to the definitions: whether a send resolves, and whether a batch may still go on.
pub mod Publishing
pub mod Batches
use express_monorepo_bank_te.Base.{
  ℕ, ◌+◌, ◌*◌, String, Bool, true, false, Option, none, some, List, [], ◌∷◌, ◌++◌, ltb, str_eq,
  if◌then◌else◌,
}
use express_monorepo_bank_te.Telemetry.Events.{TelemetryEvent}

abbrev pub telemetry_live_topic : String
telemetry_live_topic = "vehicle.telemetry.live"

abbrev pub telemetry_backfill_topic : String
telemetry_backfill_topic = "vehicle.telemetry.backfill"

abbrev pub telemetry_topics : List String
telemetry_topics = telemetry_live_topic ∷ telemetry_backfill_topic ∷ []

-- `DEFAULT_BACKFILL_THRESHOLD_MS`
abbrev pub default_backfill_threshold_ms : ℕ
default_backfill_threshold_ms = 5 * 60 * 1000

pub data Freshness : Type 0 where
  live backfill : Freshness

-- `classifyFreshness`: the lag of a clock that runs ahead is negative, and no more than the threshold.
unfoldable pub classify_freshness : ℕ → TelemetryEvent → Freshness
classify_freshness threshold e =
    if ltb (e.payload.recorded_at + threshold) e.payload.received_at then backfill else live

-- The options of `publishTelemetry`, with the defaults filled in.
pub record PublishOptions : Type 0 where
  pub live_topic : String
  pub backfill_topic : String
  pub threshold_ms : ℕ

abbrev pub topic_by : PublishOptions → Freshness → String
topic_by o live = o.live_topic
topic_by o backfill = o.backfill_topic

abbrev pub topic_of : PublishOptions → TelemetryEvent → String
topic_of o e = topic_by o (classify_freshness o.threshold_ms e)

-- `TopicMessages`; a message is the event, under its IMEI.
pub record TopicMessages : Type 0 where
  pub topic : String
  pub messages : List TelemetryEvent

-- `byTopic`: a new topic comes last.
abbrev pub add_message : String → TelemetryEvent → List TopicMessages → List TopicMessages
add_message topic e [] = record { topic = topic; messages = e ∷ [] } ∷ []
add_message topic e (b ∷ batches) =
    let later = add_message topic e batches in
    if str_eq b.topic topic
    then record b { messages = b.messages ++ e ∷ [] } ∷ batches
    else b ∷ later

unfoldable pub group_from :
    PublishOptions → List TopicMessages → List TelemetryEvent → List TopicMessages
group_from o by_topic [] = by_topic
group_from o by_topic (e ∷ events) = group_from o (add_message (topic_of o e) e by_topic) events

-- `publishTelemetry`: the one call of `sendBatch`, where there is anything to send.
unfoldable pub publish_telemetry :
    PublishOptions → List TelemetryEvent → Option (List TopicMessages)
publish_telemetry o [] = none
publish_telemetry o (e ∷ events) = some (group_from o [] (e ∷ events))

pub data Reason : Type 0 where
  no_value invalid_json schema_mismatch : Reason

pub data DecodeResult : Type 0 where
  event : TelemetryEvent → DecodeResult
  rejected : Reason → DecodeResult

abbrev pub by_schema : Option TelemetryEvent → DecodeResult
by_schema none = rejected schema_mismatch
by_schema (some e) = event e

abbrev pub by_json : {Json : Type 0} → (Json → Option TelemetryEvent) → Option Json → DecodeResult
by_json schema none = rejected invalid_json
by_json schema (some json) = by_schema (schema json)

-- `decodeTelemetryEvent`, over `JSON.parse` and the check of the Zod schema.
unfoldable pub decode_telemetry_event :
    {Json : Type 0}
    → (List ℕ → Option Json)
    → (Json → Option TelemetryEvent)
    → Option (List ℕ)
    → DecodeResult
decode_telemetry_event parse schema none = rejected no_value
decode_telemetry_event parse schema (some value) = by_json schema (parse value)

pub record Message : Type 0 where
  pub key : Option (List ℕ)
  pub value : Option (List ℕ)
  pub offset : ℕ

pub record DeadLetter : Type 0 where
  pub message : Message
  pub reason : Reason
  pub source : String

-- What the loop over a batch's messages comes to: it returned, it threw, or it got through.
pub data Progress : Type 0 where
  stopped threw through : Progress

-- The events for the handler, and the letters that the dead-letter topic has stored.
pub record Collected : Type 0 where
  pub progress : Progress
  pub events : List TelemetryEvent
  pub dead : List DeadLetter

abbrev pub halt : Progress → Collected
halt p = record { progress = p; events = []; dead = [] }

-- How a call of `eachBatch` ends, with what it gave to the handler.
pub record BatchOutcome : Type 0 where
  pub returned : Bool
  pub handled : List TelemetryEvent
  pub letters : List DeadLetter

-- `decode` is the decoder; `alive` is `isRunning() && !isStale()` as it stands before a message; `dlq` says whether
-- the producer of the dead-letter topic stores a letter, where there is one; `handler` whether the handler resolves.
module _ (decode : Option (List ℕ) → DecodeResult) (alive : Message → Bool)
    (dlq : Option (DeadLetter → Bool)) (handler : List TelemetryEvent → Bool) (topic : String) where
  abbrev pub letter : Message → Reason → DeadLetter
  letter m reason = record { message = m; reason = reason; source = topic }

  -- `deadLetter`: without a producer the message is logged and dropped.
  abbrev pub dead_letter : Option (DeadLetter → Bool) → DeadLetter → Collected → Collected
  dead_letter none l rest = rest
  dead_letter (some send) l rest =
      if send l then record rest { dead = l ∷ rest.dead } else halt threw

  abbrev pub sort_message : Message → DecodeResult → Collected → Collected
  sort_message m (event e) rest = record rest { events = e ∷ rest.events }
  sort_message m (rejected reason) rest = dead_letter dlq (letter m reason) rest

  -- The loop over the messages.
  unfoldable pub collect : List Message → Collected
  collect [] = halt through
  collect (m ∷ messages) =
      let rest = collect messages in
      if alive m then sort_message m (decode m.value) rest else halt stopped

  abbrev pub call_handler : List TelemetryEvent → List DeadLetter → BatchOutcome
  call_handler [] dead = record { returned = true; handled = []; letters = dead }
  call_handler (e ∷ events) dead = record {
    returned = handler (e ∷ events);
    handled = e ∷ events;
    letters = dead;
  }

  abbrev pub finish_batch : Progress → Collected → BatchOutcome
  finish_batch stopped c = record { returned = true; handled = []; letters = c.dead }
  finish_batch threw c = record { returned = false; handled = []; letters = c.dead }
  finish_batch through c = call_handler c.events c.dead

  -- `eachBatch`
  unfoldable pub each_batch : List Message → BatchOutcome
  unfolding collect
  each_batch messages = finish_batch (collect messages).progress (collect messages)
