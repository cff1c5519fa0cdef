-- ===== src/Telemetry/Writers.antt =====
-- The writers of positions and fuel levels: apps/telemetry-consumers/src/consumers/locations.ts and fuel.ts.
-- `vehicle_ids` is the map that the registry returns; fuel volumes stay in units of 0.1 l.
use express_monorepo_bank_te.Base.{
  ℕ, Bool, true, false, ◌&&◌, ◌||◌, Option, none, some, List, [], ◌∷◌, ◌++◌, ◌==◌, ◌≡◌, refl, All,
  any_of, is_some, leb, ltb, not, arith, if◌then◌else◌,
}
use express_monorepo_bank_te.Base.Int.{ℤ, pos, negsuc}
use express_monorepo_bank_te.Teltonika.Avl.{GpsElement}
use express_monorepo_bank_te.Telemetry.Events.{
  FuelSource, can_pct, can_liters, obd_pct, lls1, lls2, FuelReading, TelemetryPayload,
}

pub record LocationRow : Type 0 where
  pub vehicle_id : ℕ
  pub recorded_at : ℕ
  pub received_at : ℕ
  pub position : GpsElement

pub record FuelRow : Type 0 where
  pub vehicle_id : ℕ
  pub recorded_at : ℕ
  pub received_at : ℕ
  pub source : FuelSource
  pub level_pct : Option ℕ
  pub level_liters : Option ℕ

abbrev pub same_source : FuelSource → FuelSource → Bool
same_source can_pct can_pct = true
same_source can_liters can_liters = true
same_source obd_pct obd_pct = true
same_source lls1 lls1 = true
same_source lls2 lls2 = true
same_source _ _ = false

-- The unique indexes of the two tables.
abbrev pub same_location : LocationRow → LocationRow → Bool
same_location r s = (r.vehicle_id == s.vehicle_id) && (r.recorded_at == s.recorded_at)

abbrev pub same_fuel : FuelRow → FuelRow → Bool
same_fuel r s =
    (r.vehicle_id == s.vehicle_id)
    && ((r.recorded_at == s.recorded_at) && same_source r.source s.source)

module _ {A : Type 0} (same : A → A → Bool) where
  -- `insert(…).values(rows).onConflictDoNothing()`
  unfoldable pub insert_rows : List A → List A → List A
  insert_rows [] table = table
  insert_rows (r ∷ rows) table =
      insert_rows rows (if any_of (same r) table then table else table ++ r ∷ [])

-- The checks of the two tables. Coordinates are in units of 1e-7 degrees, volumes in units of 0.1 l.
abbrev pub in_range : ℕ → ℤ → Bool
in_range bound (pos n) = leb n bound
in_range bound (negsuc n) = ltb n bound

abbrev pub valid_location : LocationRow → Bool
valid_location r =
    in_range 900000000 (GpsElement.latitude r.position)
    && in_range 1800000000 (GpsElement.longitude r.position)

abbrev pub at_most : ℕ → Option ℕ → Bool
at_most bound none = true
at_most bound (some n) = leb n bound

abbrev pub valid_fuel : FuelRow → Bool
valid_fuel r =
    (is_some r.level_pct || is_some r.level_liters)
    && (at_most 100 r.level_pct && at_most 9999999 r.level_liters)

-- One statement stores a batch; a row that fails a check fails it whole, and `none` is what it throws.
unfoldable pub insert_checked :
    {A : Type 0} → (A → Bool) → (A → A → Bool) → List A → List A → Option (List A)
insert_checked valid same rows table =
    if any_of (λ r. not (valid r)) rows then none else some (insert_rows same rows table)

module _ (vehicle_ids : List ℕ → Option ℕ) where
  abbrev pub location_row : TelemetryPayload → Option ℕ → Option GpsElement → List LocationRow
  location_row e none gps = []
  location_row e (some v) none = []
  location_row e (some v) (some gps) =
      record {
        vehicle_id = v;
        recorded_at = e.recorded_at;
        received_at = e.received_at;
        position = gps;
      }
      ∷ []

  unfoldable pub location_rows : List TelemetryPayload → List LocationRow
  location_rows [] = []
  location_rows (e ∷ events) = location_row e (vehicle_ids e.imei) e.gps ++ location_rows events

  -- The end of `createLocationsHandler`: the rows of a batch, stored.
  unfoldable pub write_locations :
      List TelemetryPayload → List LocationRow → Option (List LocationRow)
  write_locations events = insert_checked valid_location same_location (location_rows events)

  abbrev pub reading_rows : TelemetryPayload → ℕ → List FuelReading → List FuelRow
  reading_rows e v [] = []
  reading_rows e v (f ∷ readings) =
      record {
        vehicle_id = v;
        recorded_at = e.recorded_at;
        received_at = e.received_at;
        source = f.source;
        level_pct = f.pct;
        level_liters = f.liters;
      }
      ∷ reading_rows e v readings

  abbrev pub rows_of : TelemetryPayload → Option ℕ → List FuelRow
  rows_of e none = []
  rows_of e (some v) = reading_rows e v e.fuel

  unfoldable pub fuel_rows : List TelemetryPayload → List FuelRow
  fuel_rows [] = []
  fuel_rows (e ∷ events) = rows_of e (vehicle_ids e.imei) ++ fuel_rows events

  -- The end of `createFuelHandler`.
  unfoldable pub write_fuel : List TelemetryPayload → List FuelRow → Option (List FuelRow)
  write_fuel events = insert_checked valid_fuel same_fuel (fuel_rows events)

-- A row that has a match keeps it when rows are inserted.
module _ {A : Type 0} (same : A → A → Bool) where
  any_of-append :
      (p : A → Bool) (table more : List A) → any_of p table ≡ true → any_of p (table ++ more) ≡ true
  any_of-append p [] more h = absurd (cc h)
  any_of-append p (x ∷ table) more h = ground (arith, h, any_of-append p table more)

  any_of-last :
      (p : A → Bool) (table : List A) (r : A) → p r ≡ true → any_of p (table ++ r ∷ []) ≡ true
  any_of-last p [] r h = ground (arith, h)
  any_of-last p (x ∷ table) r h = ground (arith, any_of-last p table r h)

  insert_keeps :
      (p : A → Bool) (rows table : List A)
      → any_of p table ≡ true
      → any_of p (insert_rows same rows table) ≡ true
  unfolding insert_rows
  insert_keeps p [] table h = h
  insert_keeps p (r ∷ rows) table h =
      insert_keeps p rows (if any_of (same r) table then table else table ++ r ∷ [])
        (ground (arith, h, any_of-append p table (r ∷ [])))

  insert_has :
      ((r : A) → same r r ≡ true)
      → (rows table : List A) → All (λ r. any_of (same r) (insert_rows same rows table) ≡ true) rows
  unfolding insert_rows
  insert_has reflexive [] table = tt
  insert_has reflexive (r ∷ rows) table =
      let next = if any_of (same r) table then table else table ++ r ∷ [] in
      (
        insert_keeps (same r) rows next
            (ground (arith, any_of-last (same r) table r (reflexive r))),
        insert_has reflexive rows next,
      )

  insert_known :
      (rows table : List A)
      → All (λ r. any_of (same r) table ≡ true) rows
      → insert_rows same rows table ≡ table
  unfolding insert_rows
  insert_known [] table h = refl
  insert_known (r ∷ rows) table h = rw h.0 (insert_known rows table h.1)

  pub insert-insert :
      ((r : A) → same r r ≡ true)
      → (rows table : List A)
      → insert_rows same rows (insert_rows same rows table) ≡ insert_rows same rows table
  insert-insert reflexive rows table =
      insert_known rows (insert_rows same rows table) (insert_has reflexive rows table)

same_source_refl : (s : FuelSource) → same_source s s ≡ true
same_source_refl can_pct = refl
same_source_refl can_liters = refl
same_source_refl obd_pct = refl
same_source_refl lls1 = refl
same_source_refl lls2 = refl

checked_again :
    {A : Type 0} (valid : A → Bool) (same : A → A → Bool)
    → ((r : A) → same r r ≡ true)
    → (rows table after : List A) → insert_checked valid same rows table ≡ some after
    → insert_checked valid same rows after ≡ some after
unfolding insert_checked
checked_again valid same reflexive rows table after h =
    ground (arith, h, insert-insert same reflexive rows table)

-- A batch of events that has been stored and is delivered again, with the same vehicles, is accepted and
-- adds no position and no fuel level.
pub write-write :
    (vehicle_ids : List ℕ → Option ℕ) (events : List TelemetryPayload)
    (positions positions' : List LocationRow) (levels levels' : List FuelRow)
    → write_locations vehicle_ids events positions ≡ some positions'
    → write_fuel vehicle_ids events levels ≡ some levels'
    → (write_locations vehicle_ids events positions' ≡ some positions')
      × (write_fuel vehicle_ids events levels' ≡ some levels')
unfolding write_locations write_fuel
write-write vehicle_ids events positions positions' levels levels' stored_positions stored_levels =
    (
      checked_again valid_location same_location (λ r. ground arith)
          (location_rows vehicle_ids events) positions positions' stored_positions,
      checked_again valid_fuel same_fuel (λ r. ground (arith, same_source_refl r.source))
          (fuel_rows vehicle_ids events) levels levels' stored_levels,
    )
