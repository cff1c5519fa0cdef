-- ===== src/Alerting/Edges.antt =====
-- Alerts are edge-triggered: what one call of `shouldFire` leaves for the next.
use express_monorepo_bank_te.Base.{
  ℕ, ◌+◌, Bool, true, false, ◌||◌, not, ◌≡◌, refl, ap, ◌∙◌, Option, none, some, List, [], ◌∷◌, leb,
  arith,
}
use express_monorepo_bank_te.Alerting.{
  VehicleAlertType, same_type, low_fuel, geofence_exit, speeding, AlertState, is_of, find_state,
  update_state, is_active, cooled_down, cleared, held, inserted, upsert, should_fire,
}

same_type_refl : (t : VehicleAlertType) → same_type t t ≡ true
same_type_refl low_fuel = refl
same_type_refl geofence_exit = refl
same_type_refl speeding = refl

abbrev mapped : (AlertState → AlertState) → Option AlertState → Option AlertState
mapped f none = none
mapped f (some s) = some (f s)

-- An update that keeps keys is seen by the next lookup.
find-update :
    (v : ℕ) (t : VehicleAlertType) (f : AlertState → AlertState) (states : List AlertState)
    → ((s : AlertState) → is_of v t (f s) ≡ is_of v t s)
    → find_state v t (update_state v t f states) ≡ mapped f (find_state v t states)
unfolding find_state update_state
find-update v t f [] keeps = refl
find-update v t f (s ∷ rest) keeps = ground (arith, keeps s, find-update v t f rest keeps)

-- The row after a reading that holds.
abbrev upserted_row : ℕ → VehicleAlertType → Bool → ℕ → Option AlertState → AlertState
upserted_row v t fire at none = inserted v t at
upserted_row v t fire at (some s) = held fire at s

find-upsert :
    (v : ℕ) (t : VehicleAlertType) (fire : Bool) (at : ℕ) (states : List AlertState)
    (e : Option AlertState)
    → find_state v t states ≡ e
    → find_state v t (upsert v t fire at e states) ≡ some (upserted_row v t fire at e)
unfolding find_state
find-upsert v t fire at states none h = ground (arith, same_type_refl t)
find-upsert v t fire at states (some s) h =
    find-update v t (held fire at) states (λ r. ground arith) ∙ ap (mapped (held fire at)) h

find-clear :
    (v : ℕ) (t : VehicleAlertType) (at : ℕ) (states : List AlertState)
    → find_state v t (update_state v t (cleared at) states)
      ≡ mapped (cleared at) (find_state v t states)
find-clear v t at states = find-update v t (cleared at) states (λ r. refl)

-- After a call, the condition counts as active just where it was holding.
pub should_fire-tracks :
    (cooldown v : ℕ) (t : VehicleAlertType) (holding : Bool) (at : ℕ) (states : List AlertState)
    → is_active (find_state v t (should_fire cooldown v t holding at states).1) ≡ holding
unfolding should_fire
should_fire-tracks cooldown v t holding at states = ground (
  arith,
  find-clear v t at states,
  find-upsert v t
      (not (is_active (find_state v t states)) || cooled_down cooldown at (find_state v t states))
      at states (find_state v t states) refl,
)

-- Once a condition has been found not to hold, the next reading that holds fires.
pub should_fire_after_clear :
    (cooldown v : ℕ) (t : VehicleAlertType) (at later : ℕ) (states : List AlertState)
    → (should_fire cooldown v t true later (should_fire cooldown v t false at states).1).0 ≡ true
unfolding should_fire
should_fire_after_clear cooldown v t at later states = ground (arith, find-clear v t at states)

-- Right after a reading that fired, one that holds fires again only after the cooldown.
pub should_fire_again :
    (cooldown v : ℕ) (t : VehicleAlertType) (at later : ℕ) (states : List AlertState)
    → (should_fire cooldown v t true at states).0 ≡ true
    → (should_fire cooldown v t true later (should_fire cooldown v t true at states).1).0
      ≡ leb (at + cooldown) later
unfolding should_fire
should_fire_again cooldown v t at later states h = ground (
  arith,
  h,
  find-upsert v t
      (not (is_active (find_state v t states)) || cooled_down cooldown at (find_state v t states))
      at states (find_state v t states) refl,
)
