-- ===== src/Telemetry/EngineWriter.antt =====
-- `createEngineHandler` of apps/telemetry-consumers/src/consumers/engine.ts: a batch of readings, the states it
-- keeps per vehicle, and the transitions it stores. `writable` is whether the database takes the insert.
use express_monorepo_bank_te.Base.{
  ℕ, Bool, true, false, ◌&&◌, ◌||◌, Option, none, some, List, [], ◌∷◌, ◌++◌, ◌==◌, map, select,
  is_some, if◌then◌else◌,
}
use express_monorepo_bank_te.Base.Order.{order_desc}
use express_monorepo_bank_te.Bank.Errors.{plain}
use express_monorepo_bank_te.Bank.Tx.{Result, ok, err}
use express_monorepo_bank_te.Telemetry.Events.{TelemetryPayload}
use express_monorepo_bank_te.Telemetry.Engine.{
  EngineEventType, ignition_on, ignition_off, movement_start, movement_stop, VehicleState,
  transitions_for,
}
use express_monorepo_bank_te.Telemetry.Vehicles.{Registry, lookup, resolve_all}
use express_monorepo_bank_te.Telemetry.Writers.{insert_rows}

pub record EngineRow : Type 0 where
  pub vehicle_id : ℕ
  pub recorded_at : ℕ
  pub received_at : ℕ
  pub event_type : EngineEventType

abbrev pub same_event : EngineEventType → EngineEventType → Bool
same_event ignition_on ignition_on = true
same_event ignition_off ignition_off = true
same_event movement_start movement_start = true
same_event movement_stop movement_stop = true
same_event _ _ = false

-- The unique index of the table.
abbrev pub same_row : EngineRow → EngineRow → Bool
same_row r s =
    (r.vehicle_id == s.vehicle_id)
    && ((r.recorded_at == s.recorded_at) && same_event r.event_type s.event_type)

-- The handler's `states`, and the table.
pub record EngineWorld : Type 0 where
  pub registry : Registry
  pub states : List (ℕ × VehicleState)
  pub rows : List EngineRow

-- `IGNITION_EVENTS`; the others are `MOVEMENT_EVENTS`.
abbrev pub is_ignition : EngineEventType → Bool
is_ignition ignition_on = true
is_ignition ignition_off = true
is_ignition _ = false

abbrev pub is_movement : EngineEventType → Bool
is_movement movement_start = true
is_movement movement_stop = true
is_movement _ = false

abbrev pub first_type : List EngineRow → Option EngineEventType
first_type [] = none
first_type (r ∷ rows) = some r.event_type

-- `lastTransition`
unfoldable pub last_transition :
    ℕ → (EngineEventType → Bool) → List EngineRow → Option EngineEventType
last_transition vehicle_id types rows = first_type (
    order_desc EngineRow.recorded_at
      (select (λ r. EngineRow.vehicle_id r == vehicle_id && types (EngineRow.event_type r)) rows))

abbrev pub is_event : EngineEventType → Option EngineEventType → Option Bool
is_event t none = none
is_event t (some latest) = some (same_event latest t)

abbrev pub stored_state : ℕ → List EngineRow → VehicleState
stored_state vehicle_id rows = record {
  ignition = is_event ignition_on (last_transition vehicle_id is_ignition rows);
  movement = is_event movement_start (last_transition vehicle_id is_movement rows);
}

abbrev pub cached_state : ℕ → List (ℕ × VehicleState) → Option VehicleState
cached_state vehicle_id [] = none
cached_state vehicle_id ((k, s) ∷ states) =
    let later = cached_state vehicle_id states in if k == vehicle_id then some s else later

-- `loadState`
unfoldable pub load_state : ℕ → List (ℕ × VehicleState) → List EngineRow → VehicleState
unfolding last_transition
load_state vehicle_id states rows = elim (cached_state vehicle_id states) [
  | none ↦ stored_state vehicle_id rows
  | some s ↦ s
]

abbrev pub row_of : ℕ → TelemetryPayload → EngineEventType → EngineRow
row_of vehicle_id e t = record {
  vehicle_id = vehicle_id;
  recorded_at = e.recorded_at;
  received_at = e.received_at;
  event_type = t;
}

-- `event.ignition !== undefined || event.movement !== undefined`
abbrev pub is_relevant : TelemetryPayload → Bool
is_relevant e = is_some e.ignition || is_some e.movement

module _ (ids : List (List ℕ × ℕ)) (is_live : Bool) (stored : List EngineRow) where
  -- One reading, and the states after it: `transitionsFor` writes to the state object that the map holds.
  abbrev pub read_event :
      TelemetryPayload
      → Option ℕ
      → List (ℕ × VehicleState)
      → List EngineRow × List (ℕ × VehicleState)
  read_event e none states = ([], states)
  read_event e (some vehicle_id) states =
      let (events, state) = transitions_for e (load_state vehicle_id states stored) is_live in
      (map (row_of vehicle_id e) events, (vehicle_id, state) ∷ states)

  -- The loop over the readings.
  unfoldable pub read_events :
      List TelemetryPayload → List (ℕ × VehicleState) → List EngineRow × List (ℕ × VehicleState)
  unfolding transitions_for load_state
  read_events [] states = ([], states)
  read_events (e ∷ events) states =
      let (rows, after) = read_event e (lookup e.imei ids) states in
      let (more, last) = read_events events after in (rows ++ more, last)

-- The insert of the rows, where there are any.
unfoldable pub store_rows : Bool → List EngineRow → EngineWorld → Result (Unit {0}) × EngineWorld
store_rows writable [] w = (ok tt, w)
store_rows writable (r ∷ rows) w =
    if writable
    then (ok tt, record w { rows = insert_rows same_row (r ∷ rows) w.rows })
    else (err plain, w)

-- The handler after the registry has answered.
unfoldable pub write_resolved :
    Bool
    → Bool
    → List TelemetryPayload
    → Result (List (List ℕ × ℕ)) × Registry
    → EngineWorld
    → Result (Unit {0}) × EngineWorld
unfolding read_events store_rows
write_resolved writable is_live events (err e, registry) w =
    (err e, record w { registry = registry })
write_resolved writable is_live events (ok ids, registry) w =
    let (rows, states) = read_events ids is_live w.rows events w.states in
    store_rows writable rows (record w { registry = registry; states = states })

abbrev pub write_relevant :
    (List ℕ → ℕ)
    → Bool
    → Bool
    → List TelemetryPayload
    → EngineWorld
    → Result (Unit {0}) × EngineWorld
write_relevant draw writable is_live [] w = (ok tt, w)
write_relevant draw writable is_live (e ∷ events) w =
    write_resolved writable is_live (e ∷ events)
      (resolve_all draw (map TelemetryPayload.imei (e ∷ events)) w.registry) w

-- The handler that `createEngineHandler` returns.
unfoldable pub write_engine :
    (List ℕ → ℕ)
    → Bool
    → Bool
    → List TelemetryPayload
    → EngineWorld
    → Result (Unit {0}) × EngineWorld
unfolding write_resolved
write_engine draw writable is_live events w =
    write_relevant draw writable is_live (select is_relevant events) w
