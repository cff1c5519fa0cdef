-- ===== src/Alerting/Handler.antt =====
-- The handler of `createAlertingHandler`, apps/telemetry-consumers/src/alerting/consumer.ts: a batch of readings, the
-- cache of zones, the states of conditions and the alerts that are written.
use express_monorepo_bank_te.Base.{
  ℕ, ◌+◌, Bool, Option, none, some, List, [], ◌∷◌, ◌++◌, map, select, is_some, ltb, leb,
  if◌then◌else◌,
}
use express_monorepo_bank_te.Bank.Tx.{Result, ok, err}
use express_monorepo_bank_te.Teltonika.Avl.{GpsElement}
use express_monorepo_bank_te.Telemetry.Events.{TelemetryPayload}
use express_monorepo_bank_te.Telemetry.Vehicles.{Registry, lookup, resolve_all}
use express_monorepo_bank_te.Alerting.{
  VehicleAlertType, same_type, low_fuel, geofence_exit, speeding, AlertState, should_fire,
}
use express_monorepo_bank_te.Alerting.Rules.{Geofence, AlertCandidate, alert_type, evaluate_rules}

pub record AlertingConfig : Type 0 where
  pub low_fuel_pct : ℕ
  pub speed_limit_kph : ℕ
  pub cooldown_ms : ℕ
  pub max_age_ms : ℕ
  pub geofence_refresh_ms : ℕ

-- A row of `vehicle_alerts`; the details are the candidate.
pub record AlertRow : Type 0 where
  pub vehicle_id : ℕ
  pub recorded_at : ℕ
  pub candidate : AlertCandidate

pub record Cache : Type 0 where
  pub geofences : List Geofence
  pub loaded_at : ℕ

-- `zones` are the rows of `geofences`, with whether each is active.
pub record AlertWorld : Type 0 where
  pub registry : Registry
  pub cache : Option Cache
  pub zones : List (Geofence × Bool)
  pub states : List AlertState
  pub alerts : List AlertRow

-- What `now()` gives at its three calls: for the cutoff, for the age of the cache, and for a load.
pub record Clock : Type 0 where
  pub cutoff : ℕ
  pub checked : ℕ
  pub loaded : ℕ

-- `where(eq(geofences.active, true))`
unfoldable pub active_zones : List (Geofence × Bool) → List Geofence
active_zones [] = []
active_zones ((g, active) ∷ zones) =
    let rest = active_zones zones in if active then g ∷ rest else rest

abbrev pub load_zones : Clock → AlertWorld → List Geofence × AlertWorld
load_zones clock w =
    let rows = active_zones w.zones in
    (rows, record w { cache = some (record { geofences = rows; loaded_at = clock.loaded }) })

abbrev pub cached_zones :
    AlertingConfig → Clock → Option Cache → AlertWorld → List Geofence × AlertWorld
cached_zones config clock none w = load_zones clock w
cached_zones config clock (some cache) w =
    if ltb clock.checked (cache.loaded_at + config.geofence_refresh_ms)
    then (cache.geofences, w)
    else load_zones clock w

-- `activeGeofences`
unfoldable pub active_geofences : AlertingConfig → Clock → AlertWorld → List Geofence × AlertWorld
unfolding active_zones
active_geofences config clock w = cached_zones config clock w.cache w

-- `byType.get(alertType)`: the last candidate of the type.
abbrev pub candidate_of : VehicleAlertType → List AlertCandidate → Option AlertCandidate
candidate_of t [] = none
candidate_of t (c ∷ candidates) =
    let later = candidate_of t candidates in
    elim later [ some d ↦ some d | none ↦ if same_type (alert_type c) t then some c else none ]

-- `raise`
abbrev pub raise : ℕ → ℕ → Option AlertCandidate → List AlertRow → List AlertRow
raise vehicle_id at none alerts = alerts
raise vehicle_id at (some c) alerts =
    alerts ++ record { vehicle_id = vehicle_id; recorded_at = at; candidate = c } ∷ []

-- `Date.parse(event.recordedAt) >= cutoff`
abbrev pub is_fresh : AlertingConfig → Clock → TelemetryPayload → Bool
is_fresh config clock e = leb clock.cutoff (e.recorded_at + config.max_age_ms)

-- One type of a reading: the state is recorded, and the alert raised where it is worth it.
unfoldable pub check_type :
    AlertingConfig → ℕ → ℕ → List AlertCandidate → VehicleAlertType → AlertWorld → AlertWorld
unfolding should_fire
check_type config vehicle_id at candidates t w =
    let candidate = candidate_of t candidates in
    let (fire, states) =
      should_fire config.cooldown_ms vehicle_id t (is_some candidate) at w.states in
    let raised = raise vehicle_id at candidate w.alerts in
    if fire then record w { states = states; alerts = raised } else record w { states = states }

-- The loop over `ALERT_TYPES`.
abbrev pub check_types : AlertingConfig → ℕ → ℕ → List AlertCandidate → AlertWorld → AlertWorld
check_types config vehicle_id at candidates w =
    check_type config vehicle_id at candidates speeding (
      check_type config vehicle_id at candidates geofence_exit
        (check_type config vehicle_id at candidates low_fuel w))

module _ (unit : ℕ) (distance : GpsElement → Geofence → ℕ) (config : AlertingConfig) where
  abbrev pub check_event : List Geofence → TelemetryPayload → Option ℕ → AlertWorld → AlertWorld
  check_event zones e none w = w
  check_event zones e (some vehicle_id) w =
      check_types config vehicle_id e.recorded_at
        (evaluate_rules unit distance e (record {
          low_fuel_pct = config.low_fuel_pct;
          speed_limit_kph = config.speed_limit_kph;
          geofences = zones;
        }))
        w

  -- The loop over the fresh readings.
  unfoldable pub check_events :
      List (List ℕ × ℕ) → List Geofence → List TelemetryPayload → AlertWorld → AlertWorld
  unfolding check_type evaluate_rules
  check_events ids zones [] w = w
  check_events ids zones (e ∷ events) w =
      check_events ids zones events (check_event zones e (lookup e.imei ids) w)

  abbrev pub check_resolved :
      List Geofence
      → List TelemetryPayload
      → Result (List (List ℕ × ℕ)) × Registry
      → AlertWorld
      → Result (Unit {0}) × AlertWorld
  check_resolved zones events (err x, registry) w = (err x, record w { registry = registry })
  check_resolved zones events (ok ids, registry) w =
      (ok tt, check_events ids zones events (record w { registry = registry }))

  abbrev pub check_fresh :
      (List ℕ → ℕ) → Clock → List TelemetryPayload → AlertWorld → Result (Unit {0}) × AlertWorld
  check_fresh draw clock [] w = (ok tt, w)
  check_fresh draw clock (e ∷ events) w =
      let (zones, w') = active_geofences config clock w in
      check_resolved zones (e ∷ events)
        (resolve_all draw (map TelemetryPayload.imei (e ∷ events)) w'.registry) w'

  -- The handler that `createAlertingHandler` returns.
  unfoldable pub handle_alerts :
      (List ℕ → ℕ) → Clock → List TelemetryPayload → AlertWorld → Result (Unit {0}) × AlertWorld
  unfolding check_events active_geofences
  handle_alerts draw clock events w =
      check_fresh draw clock (select (is_fresh config clock) events) w
