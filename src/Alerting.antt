-- ===== src/Alerting.antt =====
-- apps/telemetry-consumers/src/alerting/consumer.ts: when a condition is worth an alert.
use express_monorepo_bank_te.Base.{
  ℕ, ◌+◌, Bool, true, false, ◌&&◌, ◌||◌, not, Option, none, some, List, [], ◌∷◌, leb, ◌==◌,
  if◌then◌else◌,
}
pub mod Edges
pub mod Rules
pub mod Handler
pub mod Freshness

pub data VehicleAlertType : Type 0 where
  low_fuel geofence_exit speeding : VehicleAlertType

abbrev pub same_type : VehicleAlertType → VehicleAlertType → Bool
same_type low_fuel low_fuel = true
same_type geofence_exit geofence_exit = true
same_type speeding speeding = true
same_type _ _ = false

-- A row of `vehicle_alert_states`; its key is the vehicle and the type. Times are in milliseconds.
pub record AlertState : Type 0 where
  pub vehicle_id : ℕ
  pub alert_type : VehicleAlertType
  pub active : Bool
  pub last_fired_at : Option ℕ
  pub updated_at : ℕ

abbrev pub is_of : ℕ → VehicleAlertType → AlertState → Bool
is_of vehicle_id alert_type s = (s.vehicle_id == vehicle_id) && same_type s.alert_type alert_type

unfoldable pub find_state : ℕ → VehicleAlertType → List AlertState → Option AlertState
find_state vehicle_id alert_type [] = none
find_state vehicle_id alert_type (s ∷ rest) =
    let found = find_state vehicle_id alert_type rest in
    if is_of vehicle_id alert_type s then some s else found

-- An UPDATE of the rows of a vehicle and a type.
unfoldable pub update_state :
    ℕ → VehicleAlertType → (AlertState → AlertState) → List AlertState → List AlertState
update_state vehicle_id alert_type f [] = []
update_state vehicle_id alert_type f (s ∷ rest) =
    let updated = update_state vehicle_id alert_type f rest in
    if is_of vehicle_id alert_type s then f s ∷ updated else s ∷ updated

abbrev pub is_active : Option AlertState → Bool
is_active none = false
is_active (some s) = s.active

abbrev pub is_since : ℕ → ℕ → Option ℕ → Bool
is_since cooldown_ms at none = false
is_since cooldown_ms at (some fired) = leb (fired + cooldown_ms) at

abbrev pub cooled_down : ℕ → ℕ → Option AlertState → Bool
cooled_down cooldown_ms at none = false
cooled_down cooldown_ms at (some s) = is_since cooldown_ms at s.last_fired_at

abbrev pub cleared : ℕ → AlertState → AlertState
cleared at s = record s { active = false; updated_at = at }

-- The row that `onConflictDoUpdate` leaves.
abbrev pub held : Bool → ℕ → AlertState → AlertState
held fire at s =
    if fire
    then record s { active = true; last_fired_at = some at; updated_at = at }
    else record s { active = true; updated_at = at }

abbrev pub inserted : ℕ → VehicleAlertType → ℕ → AlertState
inserted vehicle_id alert_type at = record {
  vehicle_id = vehicle_id;
  alert_type = alert_type;
  active = true;
  last_fired_at = some at;
  updated_at = at;
}

-- The upsert: a row that is not there is inserted, and then it fires.
abbrev pub upsert :
    ℕ → VehicleAlertType → Bool → ℕ → Option AlertState → List AlertState → List AlertState
upsert vehicle_id alert_type fire at none states = inserted vehicle_id alert_type at ∷ states
upsert vehicle_id alert_type fire at (some s) states =
    update_state vehicle_id alert_type (held fire at) states

-- `shouldFire`, with the new table: `holding` is whether the rule matched.
unfoldable pub should_fire :
    ℕ → ℕ → VehicleAlertType → Bool → ℕ → List AlertState → Bool × List AlertState
unfolding find_state update_state
should_fire cooldown_ms vehicle_id alert_type holding at states =
    let existing = find_state vehicle_id alert_type states in
    let fire = not (is_active existing) || cooled_down cooldown_ms at existing in
    let quiet =
      if is_active existing
      then update_state vehicle_id alert_type (cleared at) states
      else states in
    let upserted = upsert vehicle_id alert_type fire at existing states in
    if holding then (fire, upserted) else (false, quiet)
