-- ===== src/Telemetry/Engine.antt =====
-- `transitionsFor` of apps/telemetry-consumers/src/consumers/engine.ts.
use express_monorepo_bank_te.Base.{
  Bool, true, false, ◌&&◌, ◌||◌, not, Option, none, some, List, [], ◌∷◌, ◌++◌, ◌==◌, ◌≡◌, ◌≢◌,
  arith, if◌then◌else◌,
}
use express_monorepo_bank_te.Telemetry.AvlId
use express_monorepo_bank_te.Telemetry.Events.{TelemetryPayload}

pub data EngineEventType : Type 0 where
  ignition_on ignition_off movement_start movement_stop : EngineEventType

pub record VehicleState : Type 0 where
  pub ignition : Option Bool
  pub movement : Option Bool

abbrev pub same_bool : Bool → Bool → Bool
same_bool true b = b
same_bool false b = not b

-- `known !== undefined && known !== value`
abbrev pub differs_from_known : Option Bool → Bool → Bool
differs_from_known none value = false
differs_from_known (some known) value = not (same_bool known value)

-- One of the two inputs: whether the device reported the change, and the events for true and false.
unfoldable pub input_transitions :
    Bool
    → Bool
    → EngineEventType
    → EngineEventType
    → Option Bool
    → Option Bool
    → List EngineEventType
input_transitions is_live reported on off known none = []
input_transitions is_live reported on off known (some value) =
    let event = if value then on else off in
    if reported || (is_live && differs_from_known known value) then event ∷ [] else []

-- The state after a reading, which only live ones change.
abbrev pub kept : Bool → Option Bool → Option Bool → Option Bool
kept is_live known none = known
kept is_live known (some value) = if is_live then some value else known

unfoldable pub transitions_for :
    TelemetryPayload → VehicleState → Bool → List EngineEventType × VehicleState
unfolding input_transitions
transitions_for event state is_live = (
  input_transitions is_live (event.event_io_id == AvlId.ignition) ignition_on ignition_off
        state.ignition event.ignition
      ++ input_transitions is_live (event.event_io_id == AvlId.movement) movement_start
          movement_stop state.movement event.movement,
  record {
    ignition = kept is_live state.ignition event.ignition;
    movement = kept is_live state.movement event.movement;
  },
)

input_again :
    (on off : EngineEventType) (known value : Option Bool)
    → input_transitions true false on off (kept true known value) value ≡ []
unfolding input_transitions
input_again on off known none = ground arith
input_again on off known (some true) = ground arith
input_again on off known (some false) = ground arith

-- A live reading that the device does not report as a change of ignition or movement, seen again right
-- after itself, is no transition.
pub transitions_again :
    (event : TelemetryPayload) (state : VehicleState)
    → event.event_io_id ≢ 239
    → event.event_io_id ≢ 240
    → (transitions_for event (transitions_for event state true).1 true).0 ≡ []
unfolding transitions_for
transitions_again event state ne_ignition ne_movement = ground (
  arith,
  input_again ignition_on ignition_off state.ignition event.ignition,
  input_again movement_start movement_stop state.movement event.movement,
)
