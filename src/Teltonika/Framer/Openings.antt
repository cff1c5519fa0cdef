-- ===== src/Teltonika/Framer/Openings.antt =====
-- What the framer returns before it has seen the handshake.
use express_monorepo_bank_te.Base.{ℕ, zero, suc, Bool, true, false, List, [], ◌∷◌, ◌≡◌, refl, arith}
use express_monorepo_bank_te.Teltonika.Framer.{
  State, awaiting_imei, streaming, failed, FramerEvent, imei, packet, error, FramerError, emit,
  next, next_handshake, is_error, Pushed, pushed, also, drain,
}
use express_monorepo_bank_te.Teltonika.Framer.Rounds.{
  waits, fails, goes, round, drain-waits, drain-fails, drain-goes,
}

abbrev pub is_awaiting : State → Bool
is_awaiting awaiting_imei = true
is_awaiting streaming = false
is_awaiting failed = false

abbrev is_imei : FramerEvent → Bool
is_imei (imei digits) = true
is_imei (packet p) = false
is_imei (error e) = false

-- What the framer returns while it waits for the handshake.
pub data Opening (p : Pushed) : Type 0 where
  silent : p.events ≡ [] → is_awaiting p.state ≡ true → Opening p
  breaks : (e : FramerError) → p.events ≡ error e ∷ [] → Opening p
  announces :
      (digits : List ℕ) (rest : List FramerEvent) → p.events ≡ imei digits ∷ rest → Opening p

next-announces :
    (max : ℕ) (buffer rest : List ℕ) (event : FramerEvent) (s' : State)
    → next max awaiting_imei buffer ≡ emit event s' rest
    → is_error event ≡ false
    → is_imei event ≡ true
unfolding next next_handshake
next-announces max buffer rest event s' e good = ground (arith, e, good)

pub drain-Opening : (n max : ℕ) (buffer : List ℕ) → Opening (drain n max awaiting_imei buffer)
drain-Opening zero max buffer = unfold drain in silent refl refl
drain-Opening (suc n) max buffer = elim (round max awaiting_imei buffer) [
  | waits e ↦ rw (drain-waits n max awaiting_imei buffer e) (silent refl refl)
  | fails event s' rest e bad ↦
      rw (drain-fails n max awaiting_imei buffer rest event s' e bad) (broken event bad)
  | goes event s' rest e good ↦
      rw (drain-goes n max awaiting_imei buffer rest event s' e good)
        (announced event (drain n max s' rest) (next-announces max buffer rest event s' e good))
]
  where
    broken : (event : FramerEvent) → is_error event ≡ true → Opening (pushed failed [] (event ∷ []))
    broken (imei digits) h = absurd (cc h)
    broken (packet p) h = absurd (cc h)
    broken (error e) h = breaks e refl

    announced : (event : FramerEvent) (p : Pushed) → is_imei event ≡ true → Opening (also event p)
    announced (imei digits) p h = announces digits p.events refl
    announced (packet q) p h = absurd (cc h)
    announced (error e) p h = absurd (cc h)

pub awaiting-is : (s : State) → is_awaiting s ≡ true → s ≡ awaiting_imei
awaiting-is awaiting_imei h = refl
awaiting-is streaming h = absurd (cc h)
awaiting-is failed h = absurd (cc h)
