-- ===== src/Telemetry/Kafka/Batches.antt =====
-- What a call of `eachBatch` does with the messages of its batch.
use express_monorepo_bank_te.Base.{
  ℕ, String, Bool, true, false, Option, some, List, [], ◌∷◌, ◌≡◌, ◌⊎◌, inl, inr, refl, any_of, not,
  arith,
}
use express_monorepo_bank_te.Telemetry.Events.{TelemetryEvent}
use express_monorepo_bank_te.Telemetry.Kafka.{
  DecodeResult, event, rejected, Message, DeadLetter, Progress, stopped, threw, through, Collected,
  collect, finish_batch, each_batch,
}

-- The events of the messages that decode, in order.
module _ (decode : Option (List ℕ) → DecodeResult) (topic : String) where
  abbrev pub event_of : DecodeResult → List TelemetryEvent → List TelemetryEvent
  event_of (event e) rest = e ∷ rest
  event_of (rejected reason) rest = rest

  abbrev pub decoded : List Message → List TelemetryEvent
  decoded [] = []
  decoded (m ∷ messages) = event_of (decode m.value) (decoded messages)

  abbrev pub letter_of : Message → DecodeResult → List DeadLetter → List DeadLetter
  letter_of m (event e) rest = rest
  letter_of m (rejected reason) rest =
      record { message = m; reason = reason; source = topic } ∷ rest

  -- The letters of the messages that do not decode, in order.
  abbrev pub undecoded : List Message → List DeadLetter
  undecoded [] = []
  undecoded (m ∷ messages) = letter_of m (decode m.value) (undecoded messages)

module _ (decode : Option (List ℕ) → DecodeResult) (alive : Message → Bool)
    (send : DeadLetter → Bool) (handler : List TelemetryEvent → Bool) (topic : String) where
  abbrev run : List Message → Collected
  run = collect decode alive (some send) handler topic

  -- A loop that got through has sorted every message, and none was interrupted.
  abbrev IsSorted : List Message → Collected → Type 0
  IsSorted messages c =
      c.progress ≡ through
      → (any_of (λ m. not (alive m)) messages ≡ false)
        × (c.events ≡ decoded decode topic messages)
        × (c.dead ≡ undecoded decode topic messages)

  collect-sorts : (messages : List Message) → IsSorted messages (run messages)
  unfolding collect
  collect-sorts [] h = (refl, refl, refl)
  collect-sorts (m ∷ messages) h = ground (arith, h, collect-sorts messages)

  -- A loop that returned early was interrupted at some message.
  collect-stops :
      (messages : List Message)
      → (run messages).progress ≡ stopped
      → any_of (λ m. not (alive m)) messages ≡ true
  unfolding collect
  collect-stops [] h = ground arith
  collect-stops (m ∷ messages) h = ground (arith, h, collect-stops messages)

  -- With a dead-letter topic, a call of `eachBatch` that returns either has given the handler,
  -- where there is one to handle, the events of all messages that decode, in order, and has stored a letter for each of the
  -- others, in order; or it was interrupted at some message, and has given the handler nothing.
  pub each_batch_returned :
      (messages : List Message)
      → let o = each_batch decode alive (some send) handler topic messages in
        o.returned ≡ true
        → ((any_of (λ m. not (alive m)) messages ≡ false)
            × (o.handled ≡ decoded decode topic messages)
            × (o.letters ≡ undecoded decode topic messages))
          ⊎ ((any_of (λ m. not (alive m)) messages ≡ true) × (o.handled ≡ []))
  unfolding each_batch
  each_batch_returned messages = by_progress (run messages).progress refl
    where
      by_progress :
          (p : Progress)
          → (run messages).progress ≡ p
          → let o = finish_batch decode alive (some send) handler topic p (run messages) in
            o.returned ≡ true
            → ((any_of (λ m. not (alive m)) messages ≡ false)
                × (o.handled ≡ decoded decode topic messages)
                × (o.letters ≡ undecoded decode topic messages))
              ⊎ ((any_of (λ m. not (alive m)) messages ≡ true) × (o.handled ≡ []))
      by_progress stopped e h = inr (collect-stops messages e, refl)
      by_progress threw e h = absurd (cc h)
      by_progress through e h = inl (ground (arith, collect-sorts messages e))
