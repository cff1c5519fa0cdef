-- ===== src/Alerting/Freshness.antt =====
-- Which readings raise alerts.
use mathlib.Core.Path.{subst}
use express_monorepo_bank_te.Base.{
  ℕ, ◌+◌, ◌≤◌, Bool, true, false, Option, none, some, List, [], ◌∷◌, ◌++◌, ◌≡◌, refl, sym, ◌∙◌, ap,
  All, select, is_some, leb→le, arith, append-nil, append_assoc, if◌then◌else◌, map,
}
use express_monorepo_bank_te.Bank.Tx.{Result, ok, err}
use express_monorepo_bank_te.Teltonika.Avl.{GpsElement}
use express_monorepo_bank_te.Telemetry.Events.{TelemetryPayload}
use express_monorepo_bank_te.Telemetry.Vehicles.{Registry, lookup, resolve_all}
use express_monorepo_bank_te.Alerting.{
  VehicleAlertType, low_fuel, geofence_exit, speeding, should_fire,
}
use express_monorepo_bank_te.Alerting.Rules.{Geofence, AlertCandidate}
use express_monorepo_bank_te.Alerting.Handler.{
  AlertingConfig, AlertRow, AlertWorld, Clock, is_fresh, candidate_of, raise, check_type,
  check_types, check_event, check_events, active_geofences, check_resolved, check_fresh,
  handle_alerts,
}

-- Rows come after those that were there, and each has a property.
pub data Extends (P : AlertRow → Type 0) (before after : List AlertRow) : Type 0 where
  by : (new : List AlertRow) → after ≡ before ++ new → All P new → Extends P before after

module _ (P : AlertRow → Type 0) where
  same : (rows : List AlertRow) → Extends P rows rows
  same rows = by [] (sym (append-nil rows)) tt

  All-append : (xs ys : List AlertRow) → All P xs → All P ys → All P (xs ++ ys)
  All-append [] ys h k = k
  All-append (x ∷ xs) ys h k = (h.0, All-append xs ys h.1 k)

  also_then : {a b c : List AlertRow} → Extends P a b → Extends P b c → Extends P a c
  also_then {a} (by new e h) (by more d k) =
      by (new ++ more) (d ∙ ap (λ l. l ++ more) e ∙ append_assoc a new more)
        (All-append new more h k)

  raise-Extends :
      (v at : ℕ) (c : Option AlertCandidate) (alerts : List AlertRow)
      → ((d : AlertCandidate) → P (record { vehicle_id = v; recorded_at = at; candidate = d }))
      → Extends P alerts (raise v at c alerts)
  raise-Extends v at none alerts h = same alerts
  raise-Extends v at (some d) alerts h = by _ refl (h d, tt)

  either-Extends :
      {before : List AlertRow} (fire : Bool) (a b : AlertWorld)
      → Extends P before a.alerts
      → Extends P before b.alerts
      → Extends P before (if fire then a else b).alerts
  either-Extends true a b h k = h
  either-Extends false a b h k = k

  check_type-Extends :
      (config : AlertingConfig) (v at : ℕ) (candidates : List AlertCandidate) (t : VehicleAlertType)
      (w : AlertWorld)
      → ((d : AlertCandidate) → P (record { vehicle_id = v; recorded_at = at; candidate = d }))
      → Extends P w.alerts (check_type config v at candidates t w).alerts
  unfolding check_type
  check_type-Extends config v at candidates t w h =
      either-Extends
        (should_fire config.cooldown_ms v t (is_some (candidate_of t candidates)) at w.states).0 _ _
        (raise-Extends v at (candidate_of t candidates) w.alerts h) (same w.alerts)

  check_types-Extends :
      (config : AlertingConfig) (v at : ℕ) (candidates : List AlertCandidate) (w : AlertWorld)
      → ((d : AlertCandidate) → P (record { vehicle_id = v; recorded_at = at; candidate = d }))
      → Extends P w.alerts (check_types config v at candidates w).alerts
  check_types-Extends config v at candidates w h =
      let one = check_type config v at candidates low_fuel w in
      let two = check_type config v at candidates geofence_exit one in
      also_then (check_type-Extends config v at candidates low_fuel w h) (
        also_then (check_type-Extends config v at candidates geofence_exit one h)
          (check_type-Extends config v at candidates speeding two h))

module _ (unit : ℕ) (distance : GpsElement → Geofence → ℕ) (config : AlertingConfig)
    (clock : Clock) where
  -- The row's reading is no older than the limit.
  abbrev pub RaisedFresh : AlertRow → Type 0
  RaisedFresh r = clock.cutoff ≤ r.recorded_at + config.max_age_ms

  check_event-Extends :
      (zones : List Geofence) (e : TelemetryPayload) (id : Option ℕ) (w : AlertWorld)
      → is_fresh config clock e ≡ true
      → Extends RaisedFresh w.alerts (check_event unit distance config zones e id w).alerts
  check_event-Extends zones e none w fresh = same RaisedFresh w.alerts
  check_event-Extends zones e (some v) w fresh =
      check_types-Extends RaisedFresh config v e.recorded_at _ w (λ d. leb→le _ _ fresh)

  check_events-Extends :
      (ids : List (List ℕ × ℕ)) (zones : List Geofence) (events : List TelemetryPayload)
      (w : AlertWorld)
      → All (λ e. is_fresh config clock e ≡ true) events
      → Extends RaisedFresh w.alerts (check_events unit distance config ids zones events w).alerts
  unfolding check_events
  check_events-Extends ids zones [] w h = same RaisedFresh w.alerts
  check_events-Extends ids zones (e ∷ events) w h =
      also_then RaisedFresh (check_event-Extends zones e (lookup e.imei ids) w h.0) (
        check_events-Extends ids zones events
          (check_event unit distance config zones e (lookup e.imei ids) w) h.1)

  check_resolved-Extends :
      (zones : List Geofence) (events : List TelemetryPayload)
      (r : Result (List (List ℕ × ℕ)) × Registry) (w : AlertWorld)
      → All (λ e. is_fresh config clock e ≡ true) events
      → Extends RaisedFresh w.alerts (check_resolved unit distance config zones events r w).1.alerts
  check_resolved-Extends zones events (err x, registry) w h = same RaisedFresh w.alerts
  check_resolved-Extends zones events (ok ids, registry) w h =
      check_events-Extends ids zones events (record w { registry = registry }) h

  active_geofences-alerts : (w : AlertWorld) → (active_geofences config clock w).1.alerts ≡ w.alerts
  unfolding active_geofences
  active_geofences-alerts w = ground arith

  check_fresh-Extends :
      (draw : List ℕ → ℕ) (events : List TelemetryPayload) (w : AlertWorld)
      → All (λ e. is_fresh config clock e ≡ true) events
      → Extends RaisedFresh w.alerts (check_fresh unit distance config draw clock events w).1.alerts
  check_fresh-Extends draw [] w h = same RaisedFresh w.alerts
  check_fresh-Extends draw (e ∷ events) w h =
      let (zones, w') = active_geofences config clock w in
      subst
        (λ a.
          Extends RaisedFresh a
            (check_fresh unit distance config draw clock (e ∷ events) w).1.alerts)
        (active_geofences-alerts w)
        (check_resolved-Extends zones (e ∷ events)
          (resolve_all draw (map TelemetryPayload.imei (e ∷ events)) w'.registry) w' h)

  select-fresh :
      (events : List TelemetryPayload)
      → All (λ e. is_fresh config clock e ≡ true) (select (is_fresh config clock) events)
  select-fresh [] = tt
  select-fresh (e ∷ events) = by_test (select-fresh events) (is_fresh config clock e) refl
    where
      by_test :
          All (λ e. is_fresh config clock e ≡ true) (select (is_fresh config clock) events)
          → (b : Bool) → is_fresh config clock e ≡ b
          → All
              (λ e. is_fresh config clock e ≡ true)
              (if b
                then e ∷ select (is_fresh config clock) events
                else select (is_fresh config clock) events)
      by_test rest true h = (h, rest)
      by_test rest false h = rest

  -- Handling a batch keeps the alerts that there are and adds none but for readings that, by the clock at its
  -- start, are no older than the configured age: a backlog of old readings raises no alarm.
  pub handle_alerts-Extends :
      (draw : List ℕ → ℕ) (events : List TelemetryPayload) (w : AlertWorld)
      → Extends
          (λ r. clock.cutoff ≤ r.recorded_at + config.max_age_ms)
          w.alerts
          (handle_alerts unit distance config draw clock events w).1.alerts
  unfolding handle_alerts
  handle_alerts-Extends draw events w =
      check_fresh-Extends draw (select (is_fresh config clock) events) w (select-fresh events)
