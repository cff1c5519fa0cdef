-- ===== src/Telemetry/Consumers.antt =====
-- apps/telemetry-consumers/src/consumers: index.ts, and the handlers of locations.ts and fuel.ts over the registry.
-- `writable` is whether the database takes an insert that its checks allow.
use express_monorepo_bank_te.Base.{
  ℕ, String, Bool, Option, none, some, List, [], ◌∷◌, map, select, is_some, ltb, length,
  if◌then◌else◌,
}
use express_monorepo_bank_te.Bank.Errors.{check_violation, plain, query_error}
use express_monorepo_bank_te.Bank.Tx.{Result, ok, err}
use express_monorepo_bank_te.Telemetry.Events.{TelemetryPayload}
use express_monorepo_bank_te.Telemetry.Kafka.{telemetry_live_topic, telemetry_topics}
use express_monorepo_bank_te.Telemetry.Vehicles.{Registry, lookup, resolve_all}
use express_monorepo_bank_te.Telemetry.Writers.{
  LocationRow, FuelRow, location_rows, fuel_rows, insert_checked, valid_location, same_location,
  valid_fuel, same_fuel,
}

-- The registry, and the table of the handler.
pub record WriterWorld (A : Type 0) : Type 0 where
  pub registry : Registry
  pub rows : List A

module _ {A : Type 0} (writable : Bool) (valid : A → Bool) (same : A → A → Bool) where
  abbrev pub stored : Option (List A) → WriterWorld A → Result (Unit {0}) × WriterWorld A
  stored none w = (err (query_error check_violation), w)
  stored (some rows) w = (ok tt, record w { rows = rows })

  -- The insert of the rows, where there are any.
  abbrev pub store : List A → WriterWorld A → Result (Unit {0}) × WriterWorld A
  store [] w = (ok tt, w)
  store (r ∷ rows) w =
      if writable then stored (insert_checked valid same (r ∷ rows) w.rows) w else (err plain, w)

  -- The rows of a batch are stored once the registry has answered for its devices.
  abbrev pub store_resolved :
      ((List ℕ → Option ℕ) → List A)
      → Result (List (List ℕ × ℕ)) × Registry
      → WriterWorld A
      → Result (Unit {0}) × WriterWorld A
  store_resolved rows (err e, registry) w = (err e, record w { registry = registry })
  store_resolved rows (ok ids, registry) w =
      store (rows (λ imei. lookup imei ids)) (record w { registry = registry })

module _ (draw : List ℕ → ℕ) (writable : Bool) where
  abbrev pub write_positioned :
      List TelemetryPayload → WriterWorld LocationRow → Result (Unit {0}) × WriterWorld LocationRow
  write_positioned [] w = (ok tt, w)
  write_positioned (e ∷ events) w =
      store_resolved writable valid_location same_location (λ ids. location_rows ids (e ∷ events))
        (resolve_all draw (map TelemetryPayload.imei (e ∷ events)) w.registry) w

  -- The handler that `createLocationsHandler` returns.
  unfoldable pub handle_locations :
      List TelemetryPayload → WriterWorld LocationRow → Result (Unit {0}) × WriterWorld LocationRow
  handle_locations events w =
      write_positioned (select (λ e. is_some (TelemetryPayload.gps e)) events) w

  abbrev pub write_fuelled :
      List TelemetryPayload → WriterWorld FuelRow → Result (Unit {0}) × WriterWorld FuelRow
  write_fuelled [] w = (ok tt, w)
  write_fuelled (e ∷ events) w =
      store_resolved writable valid_fuel same_fuel (λ ids. fuel_rows ids (e ∷ events))
        (resolve_all draw (map TelemetryPayload.imei (e ∷ events)) w.registry) w

  -- The handler that `createFuelHandler` returns.
  unfoldable pub handle_fuel :
      List TelemetryPayload → WriterWorld FuelRow → Result (Unit {0}) × WriterWorld FuelRow
  handle_fuel events w =
      write_fuelled (select (λ e. ltb 0 (length (TelemetryPayload.fuel e))) events) w

pub data ConsumerName : Type 0 where
  locations fuel engine alerting : ConsumerName

-- `consumerGroups`
abbrev pub consumer_group : ConsumerName → String
consumer_group locations = "telemetry.locations-writer"
consumer_group fuel = "telemetry.fuel-writer"
consumer_group engine = "telemetry.engine-writer"
consumer_group alerting = "telemetry.alerting"

-- The topics of the options, where a test gives its own.
pub record Topics : Type 0 where
  pub live : String
  pub backfill : String

abbrev pub writer_topics : Option Topics → List String
writer_topics none = telemetry_topics
writer_topics (some topics) = topics.live ∷ topics.backfill ∷ []

abbrev pub live_only : Option Topics → List String
live_only none = telemetry_live_topic ∷ []
live_only (some topics) = topics.live ∷ []

-- The topics of each consumer in `buildConsumers`.
abbrev pub consumer_topics : Option Topics → ConsumerName → List String
consumer_topics topics locations = writer_topics topics
consumer_topics topics fuel = writer_topics topics
consumer_topics topics engine = writer_topics topics
consumer_topics topics alerting = live_only topics
