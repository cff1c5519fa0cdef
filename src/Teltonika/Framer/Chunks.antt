-- ===== src/Teltonika/Framer/Chunks.antt =====
-- The events of a connection do not depend on how its bytes arrive in chunks.
use express_monorepo_bank_te.Base.{
  ℕ, zero, suc, ◌<◌, Bool, true, false, ◌≡◌, refl, ap, sym, ◌∙◌, List, [], ◌∷◌, ◌++◌, length,
  if◌then◌else◌, arith, length-append, append_assoc, append-nil,
}
use express_monorepo_bank_te.Teltonika.Framer.{
  FramerEvent, State, awaiting_imei, streaming, failed, Framer, is_failed, Pushed, pushed, also,
  drain, push, after,
}
use express_monorepo_bank_te.Teltonika.Framer.Rounds.{
  waits, fails, goes, round, drain-waits, drain-fails, drain-goes, next-shrinks, next-state,
  next-stable,
}

-- A bound above the buffer's length is never reached.
drain-enough :
    (n m max : ℕ) (s : State) (buffer : List ℕ)
    → length buffer < n
    → length buffer < m
    → drain n max s buffer ≡ drain m max s buffer
drain-enough zero m max s buffer h k = absurd (omega (arith, h))
drain-enough (suc n) zero max s buffer h k = absurd (omega (arith, k))
drain-enough (suc n) (suc m) max s buffer h k = elim (round max s buffer) [
  | waits e ↦ drain-waits n max s buffer e ∙ sym (drain-waits m max s buffer e)
  | fails event s' rest e b ↦
      drain-fails n max s buffer rest event s' e b
      ∙ sym (drain-fails m max s buffer rest event s' e b)
  | goes event s' rest e b ↦
      drain-goes n max s buffer rest event s' e b
      ∙ ap (also event) (
          drain-enough n m max s' rest
            (omega (arith, h, next-shrinks max s buffer rest event s' e b))
            (omega (arith, k, next-shrinks max s buffer rest event s' e b)))
      ∙ sym (drain-goes m max s buffer rest event s' e b)
]

-- What a call of `push` makes of more bytes, after one that ended with `p`.
resume : ℕ → List ℕ → Pushed → Pushed
resume max more p =
    let buffer = p.buffer ++ more in
    let later = drain (suc (length buffer)) max p.state buffer in
    if is_failed p.state then p else pushed later.state later.buffer (p.events ++ later.events)

resume-also :
    (max : ℕ) (more : List ℕ) (event : FramerEvent) (p : Pushed)
    → resume max more (also event p) ≡ also event (resume max more p)
unfolding resume
resume-also max more event p =
    elim p.state
      as (λ s.
        resume max more (pushed s p.buffer (event ∷ p.events))
        ≡ also event (resume max more (pushed s p.buffer p.events))) [
          | awaiting_imei ↦ refl
          | streaming ↦ refl
          | failed ↦ refl
        ]

resume-live :
    (max : ℕ) (more buffer : List ℕ) (s : State)
    → is_failed s ≡ false
    → resume max more (pushed s buffer [])
      ≡ drain (suc (length (buffer ++ more))) max s (buffer ++ more)
unfolding resume
resume-live max more buffer awaiting_imei h = refl
resume-live max more buffer streaming h = refl
resume-live max more buffer failed h = absurd (cc h)

resume-failed :
    (max : ℕ) (more : List ℕ) (events : List FramerEvent)
    → resume max more (pushed failed [] events) ≡ pushed failed [] events
unfolding resume
resume-failed max more events = refl

drain-append :
    (n max : ℕ) (s : State) (buffer more : List ℕ)
    → length (buffer ++ more) < n
    → is_failed s ≡ false
    → drain n max s (buffer ++ more) ≡ resume max more (drain n max s buffer)
drain-append zero max s buffer more h live = absurd (omega (arith, h))
drain-append (suc n) max s buffer more h live = elim (round max s buffer) [
  | waits e ↦
      drain-enough (suc n) (suc (length (buffer ++ more))) max s (buffer ++ more) h (omega arith)
      ∙ sym (resume-live max more buffer s live)
      ∙ ap (resume max more) (sym (drain-waits n max s buffer e))
  | fails event s' rest e b ↦
      drain-fails n max s (buffer ++ more) (rest ++ more) event s'
        (next-stable max s buffer more rest event s' e) b
      ∙ sym (resume-failed max more (event ∷ []))
      ∙ ap (resume max more) (sym (drain-fails n max s buffer rest event s' e b))
  | goes event s' rest e b ↦
      drain-goes n max s (buffer ++ more) (rest ++ more) event s'
        (next-stable max s buffer more rest event s' e) b
      ∙ ap (also event) (
          drain-append n max s' rest more
            (omega (
              arith,
              h,
              length-append rest more,
              length-append buffer more,
              next-shrinks max s buffer rest event s' e b,
            ))
            (next-state max s buffer rest event s' e))
      ∙ sym (resume-also max more event (drain n max s' rest))
      ∙ ap (resume max more) (sym (drain-goes n max s buffer rest event s' e b))
]

pub push-live :
    (f : Framer) (chunk : List ℕ)
    → is_failed f.state ≡ false
    → push f chunk
      ≡ after f
          (drain (suc (length (f.buffer ++ chunk))) f.max_frame_bytes f.state (f.buffer ++ chunk))
unfolding push
push-live f chunk h =
    ap
      (λ b.
        if b
        then (f, [])
        else after f (
            drain (suc (length (f.buffer ++ chunk))) f.max_frame_bytes f.state (f.buffer ++ chunk)))
      h

-- A framer that has failed ignores what follows.
push-spent : (f : Framer) (chunk : List ℕ) → is_failed f.state ≡ true → push f chunk ≡ (f, [])
unfolding push
push-spent f chunk h =
    ap
      (λ b.
        if b
        then (f, [])
        else after f (
            drain (suc (length (f.buffer ++ chunk))) f.max_frame_bytes f.state (f.buffer ++ chunk)))
      h

-- The next call of `push` does what `resume` says.
push-resume :
    (f : Framer) (p : Pushed) (second : List ℕ)
    → after f (resume f.max_frame_bytes second p)
      ≡ ((push (after f p).0 second).0, p.events ++ (push (after f p).0 second).1)
unfolding push resume
push-resume f p second =
    elim p.state
      as (λ s. after f (resume f.max_frame_bytes second (pushed s p.buffer p.events)) ≡ (
        (push (after f (pushed s p.buffer p.events)).0 second).0,
        p.events ++ (push (after f (pushed s p.buffer p.events)).0 second).1,
      )) [
        | awaiting_imei ↦ refl
        | streaming ↦ refl
        | failed ↦
            ap (λ events. ((after f (pushed failed p.buffer p.events)).0, events))
              (sym (append-nil p.events))
      ]

push-push_live :
    (f : Framer) (first second : List ℕ)
    → is_failed f.state ≡ false
    → push f (first ++ second)
      ≡ ((push (push f first).0 second).0, (push f first).1 ++ (push (push f first).0 second).1)
push-push_live f first second h =
    let before = f.buffer ++ first in
    let max = f.max_frame_bytes in
    let p = drain (suc (length before)) max f.state before in
    let assoc = append_assoc f.buffer first second in
    push-live f (first ++ second) h
    ∙ ap (λ b. after f (drain (suc (length b)) max f.state b)) (sym assoc)
    ∙ ap (after f)
        (drain-append (suc (length (before ++ second))) max f.state before second (omega arith) h)
    ∙ ap (λ q. after f (resume max second q))
        (drain-enough (suc (length (before ++ second))) (suc (length before)) max f.state before
          (omega (arith, length-append before second)) (omega arith))
    ∙ push-resume f p second
    ∙ ap (λ q. ((push q.0 second).0, q.1 ++ (push q.0 second).1)) (sym (push-live f first h))

-- Whatever state a framer is in, pushing two chunks one after the other leaves it as pushing all their
-- bytes at once does, and returns the same events in the same order.
pub push-push :
    (f : Framer) (first second : List ℕ)
    → push f (first ++ second)
      ≡ ((push (push f first).0 second).0, (push f first).1 ++ (push (push f first).0 second).1)
push-push f first second = split (is_failed f.state) refl
  where
    split :
        (b : Bool)
        → is_failed f.state ≡ b
        → push f (first ++ second)
          ≡ ((push (push f first).0 second).0, (push f first).1 ++ (push (push f first).0 second).1)
    split false h = push-push_live f first second h
    split true h =
        push-spent f (first ++ second) h
        ∙ ap (λ q. (q.0, q.1)) (sym (push-spent f second h))
        ∙ ap (λ q. ((push q.0 second).0, q.1 ++ (push q.0 second).1)) (sym (push-spent f first h))
