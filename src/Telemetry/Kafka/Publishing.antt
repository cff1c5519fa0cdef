-- ===== src/Telemetry/Kafka/Publishing.antt =====
-- What `publishTelemetry` sends.
use mathlib.Core.Path.{subst}
use express_monorepo_bank_te.Base.{
  String, Bool, true, false, Option, none, some, List, [], ◌∷◌, ◌++◌, ◌≡◌, refl, sym, ◌∙◌, ap, ◌+◌,
  leb, str_eq, eq_iff, select-same, if◌then◌else◌, select, arith, any_of, append-nil, append_assoc,
}
use express_monorepo_bank_te.Telemetry.Events.{TelemetryEvent}
use express_monorepo_bank_te.Telemetry.Kafka.{
  classify_freshness, PublishOptions, topic_of, TopicMessages, add_message, group_from,
  publish_telemetry,
}

-- What a request sends to a topic.
abbrev pub sent_to : String → List TopicMessages → List TelemetryEvent
sent_to topic [] = []
sent_to topic (b ∷ batches) =
    let later = sent_to topic batches in if str_eq b.topic topic then b.messages ++ later else later

abbrev pub sent : String → Option (List TopicMessages) → List TelemetryEvent
sent topic none = []
sent topic (some batches) = sent_to topic batches

abbrev has_topic : String → List TopicMessages → Bool
has_topic topic bs = any_of (λ b. str_eq (TopicMessages.topic b) topic) bs

-- No topic has two batches.
abbrev Unique : List TopicMessages → Type 0
Unique [] = Unit {0}
Unique (b ∷ batches) = (has_topic b.topic batches ≡ false) × Unique batches

sent_to-absent :
    (topic : String) (bs : List TopicMessages) → has_topic topic bs ≡ false → sent_to topic bs ≡ []
sent_to-absent topic [] h = refl
sent_to-absent topic (b ∷ bs) h = ground (arith, sent_to-absent topic bs)

has_topic-add :
    (t u : String) (e : TelemetryEvent) (bs : List TopicMessages)
    → has_topic t bs ≡ false
    → str_eq u t ≡ false
    → has_topic t (add_message u e bs) ≡ false
has_topic-add t u e [] h ne = ground arith
has_topic-add t u e (b ∷ bs) h ne = ground (arith, has_topic-add t u e bs)

Unique-add :
    (u : String) (e : TelemetryEvent) (bs : List TopicMessages)
    → Unique bs
    → Unique (add_message u e bs)
Unique-add u e [] h = (refl, tt)
Unique-add u e (b ∷ bs) h =
    elim (str_eq b.topic u)
        as (λ c.
          str_eq b.topic u ≡ c
          → Unique (
              if c
              then record b { messages = b.messages ++ e ∷ [] } ∷ bs
              else b ∷ add_message u e bs)) [
                | true ↦ λ same. h
                | false ↦ λ ne. (
                  has_topic-add b.topic u e bs h.0
                      (ground (arith, eq_iff u b.topic, eq_iff b.topic u)),
                  Unique-add u e bs h.1,
                )
              ]
      refl

sent_to-add :
    (t u : String) (e : TelemetryEvent) (bs : List TopicMessages)
    → Unique bs
    → sent_to t (add_message u e bs) ≡ sent_to t bs ++ (if str_eq u t then e ∷ [] else [])
sent_to-add t u e [] h = ground arith
sent_to-add t u e (b ∷ bs) h =
    by_head (sent_to-add t u e bs h.1) (str_eq b.topic u) (str_eq b.topic t) (str_eq u t) refl refl
      refl
  where
    by_head :
        sent_to t (add_message u e bs) ≡ sent_to t bs ++ (if str_eq u t then e ∷ [] else [])
        → (same here mine : Bool) → str_eq b.topic u ≡ same
        → str_eq b.topic t ≡ here
        → str_eq u t ≡ mine
        → sent_to t (
            if same
            then record b { messages = b.messages ++ e ∷ [] } ∷ bs
            else b ∷ add_message u e bs)
          ≡ (if here then b.messages ++ sent_to t bs else sent_to t bs)
            ++ (if mine then e ∷ [] else [])
    by_head ih true true true p q r =
        let gone : sent_to t bs ≡ [] =
          subst (λ x. sent_to x bs ≡ []) ((eq_iff b.topic t).0 q) (sent_to-absent b.topic bs h.0) in
        rw (q, gone)
          (append-nil (b.messages ++ e ∷ []) ∙ sym (ap (λ l. l ++ e ∷ []) (append-nil b.messages)))
    by_head ih true false false p q r = rw q (sym (append-nil _))
    by_head ih true true false p q r =
        absurd (ground (arith, p, q, r, eq_iff b.topic u, eq_iff u t, eq_iff b.topic t))
    by_head ih true false true p q r =
        absurd (ground (arith, p, q, r, eq_iff b.topic u, eq_iff u t, eq_iff b.topic t))
    by_head ih false true mine p q r =
        rw (q, ← r) (rw ih (sym (append_assoc b.messages (sent_to t bs) _)))
    by_head ih false false mine p q r = rw (q, ← r) ih

pick :
    (c : Bool) (e : TelemetryEvent) (rest : List TelemetryEvent)
    → (if c then e ∷ [] else []) ++ rest ≡ (if c then e ∷ rest else rest)
pick true e rest = refl
pick false e rest = refl

sent_to-group :
    (o : PublishOptions) (t : String) (by_topic : List TopicMessages) (events : List TelemetryEvent)
    → Unique by_topic
    → sent_to t (group_from o by_topic events)
      ≡ sent_to t by_topic ++ select (λ e. str_eq (topic_of o e) t) events
unfolding group_from
sent_to-group o t by_topic [] h = sym (append-nil _)
sent_to-group o t by_topic (e ∷ events) h =
    sent_to-group o t (add_message (topic_of o e) e by_topic) events (Unique-add _ e by_topic h)
    ∙ ap (λ l. l ++ select (λ e. str_eq (topic_of o e) t) events)
        (sent_to-add t (topic_of o e) e by_topic h)
    ∙ append_assoc (sent_to t by_topic) _ _
    ∙ ap (λ l. sent_to t by_topic ++ l) (pick (str_eq (topic_of o e) t) e _)

-- The topic of an event: live if it was received at most the threshold after it was recorded.
abbrev pub home : PublishOptions → TelemetryEvent → String
home o e =
    if leb e.payload.received_at (e.payload.recorded_at + o.threshold_ms)
    then o.live_topic
    else o.backfill_topic

topic_of-home : (o : PublishOptions) (e : TelemetryEvent) → topic_of o e ≡ home o e
unfolding classify_freshness
topic_of-home o e = ground arith

-- What is sent to a topic is the events that belong to it, in their order and each once; an event belongs
-- to the live topic if it was received no later than the threshold after it was recorded, and to the backlog
-- topic if not. So every event of a packet goes to exactly one topic.
pub publish_telemetry_lem :
    (o : PublishOptions) (t : String) (events : List TelemetryEvent)
    → sent t (publish_telemetry o events) ≡ select (λ e. str_eq (home o e) t) events
unfolding publish_telemetry
publish_telemetry_lem o t [] = refl
publish_telemetry_lem o t (e ∷ events) =
    sent_to-group o t [] (e ∷ events) tt
    ∙ select-same (λ e. str_eq (topic_of o e) t) (λ e. str_eq (home o e) t)
        (λ e. ap (λ topic. str_eq topic t) (topic_of-home o e)) (e ∷ events)
