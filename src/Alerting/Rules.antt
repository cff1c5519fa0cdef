-- ===== src/Alerting/Rules.antt =====
-- apps/telemetry-consumers/src/alerting/rules.ts: `evaluateRules`. `distance` is `haversineMeters`, whose result is
-- told in whole units, `unit` of them to the metre; each double is a whole number of 2^-1074.
use express_monorepo_bank_te.Base.{
  ℕ, ◌+◌, ◌*◌, ◌/◌, Bool, Option, none, some, List, [], ◌∷◌, ◌++◌, any_of, ltb, leb, if◌then◌else◌,
}
use express_monorepo_bank_te.Base.Int.{ℤ}
use express_monorepo_bank_te.Teltonika.Avl.{GpsElement}
use express_monorepo_bank_te.Telemetry.Events.{FuelSource, FuelReading, TelemetryPayload}
use express_monorepo_bank_te.Alerting.{VehicleAlertType, low_fuel, geofence_exit, speeding}
pub mod Meaning

-- The centre is in units of 1e-7 degrees.
pub record Geofence : Type 0 where
  pub id : ℕ
  pub name : List ℕ
  pub center_latitude : ℤ
  pub center_longitude : ℤ
  pub radius_m : ℕ

pub record AlertRuleConfig : Type 0 where
  pub low_fuel_pct : ℕ
  pub speed_limit_kph : ℕ
  pub geofences : List Geofence

-- What a rule matched on, by the rule.
pub data AlertCandidate : Type 0 where
  -- the level, the threshold and the sensor
  fuel_below : ℕ → ℕ → FuelSource → AlertCandidate
  -- the speed and the limit
  speed_above : ℕ → ℕ → AlertCandidate
  -- the nearest zone, and the distance from it in metres
  outside_zones : Geofence → ℕ → AlertCandidate

abbrev pub alert_type : AlertCandidate → VehicleAlertType
alert_type (fuel_below level threshold source) = low_fuel
alert_type (speed_above speed limit) = speeding
alert_type (outside_zones nearest distance) = geofence_exit

pub record Level : Type 0 where
  pub source : FuelSource
  pub pct : ℕ

-- `worst === undefined || pct < worst.pct`
abbrev pub worse : Option Level → FuelSource → Option ℕ → Option Level
worse worst source none = worst
worse none source (some pct) = some (record { source = source; pct = pct })
worse (some worst) source (some pct) =
    if ltb pct worst.pct then some (record { source = source; pct = pct }) else some worst

-- The fold over the readings that have a percentage.
unfoldable pub lowest_from : Option Level → List FuelReading → Option Level
lowest_from worst [] = worst
lowest_from worst (f ∷ readings) = lowest_from (worse worst f.source f.pct) readings

abbrev pub fuel_candidate : ℕ → Option Level → List AlertCandidate
fuel_candidate threshold none = []
fuel_candidate threshold (some lowest) =
    if ltb lowest.pct threshold then fuel_below lowest.pct threshold lowest.source ∷ [] else []

abbrev pub speed_candidate : ℕ → GpsElement → List AlertCandidate
speed_candidate limit gps =
    if ltb limit gps.speed_kph then speed_above gps.speed_kph limit ∷ [] else []

module _ (unit : ℕ) (distance : GpsElement → Geofence → ℕ) where
  abbrev pub is_inside : GpsElement → Geofence → Bool
  is_inside gps g = leb (distance gps g) (g.radius_m * unit)

  -- `current.distanceM < best.distanceM ? current : best`, over the zones after the first.
  unfoldable pub nearest_from : GpsElement → Geofence → List Geofence → Geofence
  nearest_from gps best [] = best
  nearest_from gps best (g ∷ zones) =
      nearest_from gps (if ltb (distance gps g) (distance gps best) then g else best) zones

  -- `Math.round`, which rounds a half up.
  abbrev pub round_metres : ℕ → ℕ
  round_metres d = (d * 2 + unit) / (unit * 2)

  abbrev pub zone_candidate : GpsElement → List Geofence → List AlertCandidate
  zone_candidate gps [] = []
  zone_candidate gps (g ∷ zones) =
      let nearest = nearest_from gps g zones in
      if any_of (is_inside gps) (g ∷ zones)
      then []
      else outside_zones nearest (round_metres (distance gps nearest)) ∷ []

  abbrev pub position_candidates : AlertRuleConfig → Option GpsElement → List AlertCandidate
  position_candidates config none = []
  position_candidates config (some gps) =
      speed_candidate config.speed_limit_kph gps ++ zone_candidate gps config.geofences

  -- `evaluateRules`
  unfoldable pub evaluate_rules : TelemetryPayload → AlertRuleConfig → List AlertCandidate
  unfolding lowest_from nearest_from
  evaluate_rules event config =
      fuel_candidate config.low_fuel_pct (lowest_from none event.fuel)
      ++ position_candidates config event.gps
