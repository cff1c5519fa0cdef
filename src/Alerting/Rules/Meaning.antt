-- ===== src/Alerting/Rules/Meaning.antt =====
-- When each rule of apps/telemetry-consumers/src/alerting/rules.ts raises its alert, and which zone it
-- names.
use express_monorepo_bank_te.Base.{
  ℕ, ◌*◌, ◌≤◌, Bool, true, false, ◌&&◌, ◌||◌, not, Option, none, some, List, [], ◌∷◌, ◌++◌, ◌≡◌,
  ◌⊎◌, refl, ◌∙◌, any_of, All, ltb, if◌then◌else◌, arith, inl, inr,
}
use express_monorepo_bank_te.Teltonika.Avl.{GpsElement}
use express_monorepo_bank_te.Telemetry.Events.{FuelReading, TelemetryPayload}
use express_monorepo_bank_te.Alerting.{
  VehicleAlertType, low_fuel, geofence_exit, speeding, same_type,
}
use express_monorepo_bank_te.Alerting.Rules.{
  Geofence, AlertRuleConfig, AlertCandidate, outside_zones, alert_type, Level, worse, lowest_from,
  fuel_candidate, speed_candidate, is_inside, nearest_from, zone_candidate, position_candidates,
  evaluate_rules,
}

-- Whether an alert of a type is among the candidates.
abbrev pub raises : VehicleAlertType → List AlertCandidate → Bool
raises t cs = any_of (λ c. same_type (alert_type c) t) cs

raises-append :
    (t : VehicleAlertType) (cs ds : List AlertCandidate)
    → raises t (cs ++ ds) ≡ (raises t cs || raises t ds)
raises-append t [] ds = refl
raises-append t (c ∷ cs) ds = ground (arith, raises-append t cs ds)

-- A percentage under the threshold.
abbrev pub is_below : ℕ → Option ℕ → Bool
is_below threshold none = false
is_below threshold (some pct) = ltb pct threshold

abbrev level_below : ℕ → Option Level → Bool
level_below threshold none = false
level_below threshold (some l) = ltb l.pct threshold

worse_below :
    (threshold : ℕ) (worst : Option Level) (f : FuelReading)
    → level_below threshold (worse worst f.source f.pct)
      ≡ (level_below threshold worst || is_below threshold f.pct)
worse_below threshold worst f = ground arith

lowest_below :
    (threshold : ℕ) (worst : Option Level) (fs : List FuelReading)
    → level_below threshold (lowest_from worst fs)
      ≡ (level_below threshold worst || any_of (λ f. is_below threshold f.pct) fs)
unfolding lowest_from
lowest_below threshold worst [] = ground arith
lowest_below threshold worst (f ∷ fs) =
    ground
      (arith, lowest_below threshold (worse worst f.source f.pct) fs, worse_below threshold worst f)

raises_fuel :
    (threshold : ℕ) (l : Option Level)
    → (raises low_fuel (fuel_candidate threshold l) ≡ level_below threshold l)
      × (raises speeding (fuel_candidate threshold l) ≡ false)
      × (raises geofence_exit (fuel_candidate threshold l) ≡ false)
raises_fuel threshold none = (refl, refl, refl)
raises_fuel threshold (some l) = ground arith

raises_speed :
    (limit : ℕ) (gps : GpsElement)
    → (raises low_fuel (speed_candidate limit gps) ≡ false)
      × (raises speeding (speed_candidate limit gps) ≡ ltb limit gps.speed_kph)
      × (raises geofence_exit (speed_candidate limit gps) ≡ false)
raises_speed limit gps = ground arith

either_is : {a b c d : Bool} → a ≡ c → b ≡ d → (a || b) ≡ (c || d)
either_is e h = cc (e, h)

or_false : (b : Bool) → (b || false) ≡ b
or_false true = refl
or_false false = refl

one_exit :
    (inside : Bool) (nearest : Geofence) (metres : ℕ)
    → let cs : List AlertCandidate = if inside then [] else outside_zones nearest metres ∷ [] in
      (raises low_fuel cs ≡ false)
      × (raises speeding cs ≡ false)
      × (raises geofence_exit cs ≡ not inside)
one_exit true nearest metres = (refl, refl, refl)
one_exit false nearest metres = (refl, refl, refl)

-- Faster than the limit.
abbrev pub is_fast : ℕ → Option GpsElement → Bool
is_fast limit none = false
is_fast limit (some gps) = ltb limit gps.speed_kph

module _ (unit : ℕ) (distance : GpsElement → Geofence → ℕ) where
  -- Farther from each of the zones than its radius.
  abbrev pub all_far : GpsElement → List Geofence → Bool
  all_far gps [] = true
  all_far gps (g ∷ zones) = ltb (g.radius_m * unit) (distance gps g) && all_far gps zones

  all_far-inside :
      (gps : GpsElement) (zones : List Geofence)
      → not (any_of (is_inside unit distance gps) zones) ≡ all_far gps zones
  all_far-inside gps [] = refl
  all_far-inside gps (g ∷ zones) = ground (arith, all_far-inside gps zones)

  -- There are zones, and the position is in none.
  abbrev pub is_outside : List Geofence → Option GpsElement → Bool
  is_outside zones none = false
  is_outside [] (some gps) = false
  is_outside (g ∷ zones) (some gps) = all_far gps (g ∷ zones)

  raises_zone :
      (gps : GpsElement) (zones : List Geofence)
      → (raises low_fuel (zone_candidate unit distance gps zones) ≡ false)
        × (raises speeding (zone_candidate unit distance gps zones) ≡ false)
        × (raises geofence_exit (zone_candidate unit distance gps zones)
            ≡ is_outside zones (some gps))
  raises_zone gps [] = (refl, refl, refl)
  raises_zone gps (g ∷ zones) =
      let (fuel, speed, zone) = one_exit (any_of (is_inside unit distance gps) (g ∷ zones)) _ _ in
      (fuel, speed, zone ∙ all_far-inside gps (g ∷ zones))

  raises_position :
      (config : AlertRuleConfig) (gps : Option GpsElement)
      → (raises low_fuel (position_candidates unit distance config gps) ≡ false)
        × (raises speeding (position_candidates unit distance config gps)
            ≡ is_fast config.speed_limit_kph gps)
        × (raises geofence_exit (position_candidates unit distance config gps)
            ≡ is_outside config.geofences gps)
  raises_position config none = (refl, refl, refl)
  raises_position config (some gps) =
      let (fuel, speed, zone) = raises_zone gps config.geofences in
      let cs : List AlertCandidate = speed_candidate config.speed_limit_kph gps in
      let ds : List AlertCandidate = zone_candidate unit distance gps config.geofences in
      let (fuel', speed', zone') = raises_speed config.speed_limit_kph gps in
      (
        raises-append low_fuel cs ds ∙ either_is fuel' fuel,
        raises-append speeding cs ds ∙ either_is speed' speed ∙ or_false _,
        raises-append geofence_exit cs ds ∙ either_is zone' zone,
      )

  -- A low-fuel alert is raised just when some reading has a percentage under the threshold, a speeding
  -- alert just when there is a position with a speed above the limit, and a geofence alert just when
  -- there is a position, there are zones, and the position is farther from each than its radius.
  pub evaluate_rules_lem :
      (event : TelemetryPayload) (config : AlertRuleConfig)
      → let alerts = evaluate_rules unit distance event config in
        (raises low_fuel alerts ≡ any_of (λ f. is_below config.low_fuel_pct f.pct) event.fuel)
        × (raises speeding alerts ≡ is_fast config.speed_limit_kph event.gps)
        × (raises geofence_exit alerts ≡ is_outside config.geofences event.gps)
  unfolding evaluate_rules
  evaluate_rules_lem event config =
      let cs : List AlertCandidate =
        fuel_candidate config.low_fuel_pct (lowest_from none event.fuel) in
      let ds : List AlertCandidate = position_candidates unit distance config event.gps in
      let (fuel, speed, zone) = raises_position config event.gps in
      let (fuel', speed', zone') = raises_fuel config.low_fuel_pct (lowest_from none event.fuel) in
      (
        raises-append low_fuel cs ds
            ∙ either_is (fuel' ∙ lowest_below config.low_fuel_pct none event.fuel) fuel
            ∙ or_false _,
        raises-append speeding cs ds ∙ either_is speed' speed,
        raises-append geofence_exit cs ds ∙ either_is zone' zone,
      )

  -- One of the zones.
  abbrev pub IsAmong : Geofence → List Geofence → Type 0
  IsAmong g [] = ⊥
  IsAmong g (z ∷ zones) = (g ≡ z) ⊎ IsAmong g zones

  IsAmong-later :
      (g h best : Geofence) (b : Bool) (zones : List Geofence)
      → IsAmong g ((if b then h else best) ∷ zones)
      → IsAmong g (best ∷ h ∷ zones)
  IsAmong-later g h best true zones (inl e) = inr (inl e)
  IsAmong-later g h best false zones (inl e) = inl e
  IsAmong-later g h best b zones (inr m) = inr (inr m)

  closer_below :
      (gps : GpsElement) (g best : Geofence) (n : ℕ) (b : Bool)
      → ltb (distance gps g) (distance gps best) ≡ b
      → n ≤ distance gps (if b then g else best)
      → (n ≤ distance gps best) × (n ≤ distance gps g)
  closer_below gps g best n true h le = ground arith
  closer_below gps g best n false h le = ground arith

  -- The zone that a geofence alert names is one of the zones, and no zone is nearer.
  pub nearest_lem :
      (gps : GpsElement) (best : Geofence) (zones : List Geofence)
      → IsAmong (nearest_from unit distance gps best zones) (best ∷ zones)
        × All
            (λ z. distance gps (nearest_from unit distance gps best zones) ≤ distance gps z)
            (best ∷ zones)
  unfolding nearest_from
  nearest_lem gps best [] = (inl refl, (omega arith, tt))
  nearest_lem gps best (g ∷ zones) =
      let closer : Bool = ltb (distance gps g) (distance gps best) in
      let (among, below) = nearest_lem gps (if closer then g else best) zones in
      (
        IsAmong-later _ g best closer zones among,
        (
          (closer_below gps g best _ closer refl below.0).0,
          ((closer_below gps g best _ closer refl below.0).1, below.1),
        ),
      )
