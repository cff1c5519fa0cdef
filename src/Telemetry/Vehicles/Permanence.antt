-- ===== src/Telemetry/Vehicles/Permanence.antt =====
-- apps/telemetry-consumers/src/vehicles.ts: a device keeps the id that it was given.
use express_monorepo_bank_te.Base.{
  ℕ, true, false, not, some, List, [], ◌∷◌, ◌++◌, ◌≡◌, is_some, if◌then◌else◌, arith, Bool-cases,
  inl, inr,
}
use express_monorepo_bank_te.Bank.Api.Access.{same_text}
use express_monorepo_bank_te.Bank.Errors.{query_error, check_violation}
use express_monorepo_bank_te.Bank.Tx.{ok, err, Result}
use express_monorepo_bank_te.Telemetry.Vehicles.{
  Vehicle, Registry, lookup, id_of, is_imei, insert_vehicle, resolve,
}
use express_monorepo_bank_te.Telemetry.Vehicles.Outcomes.{
  same_text_eq, lookup_first, id_of-append, id_of-append_new, Outcome, cached, refused, present,
  inserted, resolve-Outcome,
}

-- What is cached is in the table.
abbrev pub IsConsistent : Registry → Type 0
IsConsistent r =
    (imei : List ℕ) (id : ℕ) → lookup imei r.cache ≡ some id → id_of imei r.vehicles ≡ some id

-- No device of the table gets another id.
abbrev Extends : Registry → Registry → Type 0
Extends r r' =
    (imei : List ℕ) (id : ℕ) → id_of imei r.vehicles ≡ some id → id_of imei r'.vehicles ≡ some id

module _ (draw : List ℕ → ℕ) where
  abbrev Stays : Registry → Registry → Type 0
  Stays r r' = IsConsistent r' × Extends r r'

  appended-Extends :
      (r : Registry) (v : Vehicle) → Extends r (record r { vehicles = r.vehicles ++ v ∷ [] })
  appended-Extends r v k id h = id_of-append k r.vehicles v id h

  outcome-Stays :
      (imei : List ℕ) (r : Registry) {x : Result ℕ × Registry}
      → IsConsistent r
      → Outcome draw imei r x
      → Stays r x.1
  outcome-Stays imei r c (cached id hit) = (c, λ k i h. h)
  outcome-Stays imei r c (refused e bad) = (c, λ k i h. h)
  outcome-Stays imei r c (present id held) = (
    (λ k i h. elim (Bool-cases (same_text imei k)) [
      | inl same ↦ rw (← same_text_eq imei k same, ← lookup_first imei k id i r.cache same h) held
      | inr other ↦ c k i (ground arith)
    ]),
    λ k i h. h,
  )
  outcome-Stays imei r c (inserted new) = (
    (λ k i h. elim (Bool-cases (same_text imei k)) [
      | inl same ↦
          rw (← same_text_eq imei k same, ← lookup_first imei k (draw imei) i r.cache same h)
            (id_of-append_new imei r.vehicles (draw imei) new)
      | inr other ↦ id_of-append k r.vehicles _ i (c k i (ground arith))
    ]),
    appended-Extends r (record { id = draw imei; imei = imei }),
  )

  -- The id that a call gives is in the table.
  outcome-IsHeld :
      (imei : List ℕ) (r : Registry) (id : ℕ) {x : Result ℕ × Registry}
      → IsConsistent r
      → Outcome draw imei r x
      → x.0 ≡ ok id
      → id_of imei x.1.vehicles ≡ some id
  outcome-IsHeld imei r id c (cached i hit) h = ground (arith, c imei i)
  outcome-IsHeld imei r id c (refused e bad) h = cc
  outcome-IsHeld imei r id c (present i held) h = ground arith
  outcome-IsHeld imei r id c (inserted new) h =
      ground (arith, id_of-append_new imei r.vehicles (draw imei))

  -- A device of the table gets the id that it has there.
  outcome_again :
      (imei : List ℕ) (r : Registry) (id : ℕ) {x : Result ℕ × Registry}
      → IsConsistent r
      → is_imei imei ≡ true
      → id_of imei r.vehicles ≡ some id
      → Outcome draw imei r x
      → x.0 ≡ ok id
  outcome_again imei r id c good held (cached i hit) = ground (arith, c imei i)
  outcome_again imei r id c good held (refused e bad) = cc
  outcome_again imei r id c good held (present i held') = ground arith
  outcome_again imei r id c good held (inserted new) = ground arith

  -- A call of `resolve`, a restart of the process, whose cache is empty then, and the insertion of a
  -- vehicle by another process that uses the table.
  pub data Use : Type 0 where
    ask : List ℕ → Use
    restart : Use
    insert_elsewhere : List ℕ → Use

  abbrev pub use_one : Use → Registry → Registry
  use_one (ask imei) r = (resolve draw imei r).1
  use_one restart r = record r { cache = [] }
  use_one (insert_elsewhere imei) r = (insert_vehicle draw imei r).1

  pub use_all : List Use → Registry → Registry
  use_all [] r = r
  use_all (u ∷ uses) r = use_all uses (use_one u r)

  abbrev table_after : Result (Unit {0}) × Registry → Registry
  table_after x = x.1

  insert-Stays :
      (imei : List ℕ) (r : Registry) → IsConsistent r → Stays r (insert_vehicle draw imei r).1
  unfolding insert_vehicle
  insert-Stays imei r c =
      let v : Vehicle = record { id = draw imei; imei = imei } in
      let longer : Registry = record r { vehicles = r.vehicles ++ v ∷ [] } in
      elim (not (is_imei imei))
        as (λ b. Stays r (
          table_after (
            if b
            then (err (query_error check_violation), r)
            else if is_some (id_of imei r.vehicles)
            then (ok tt, r)
            else (ok tt, longer)))) [
              | true ↦ (c, λ k i h. h)
              | false ↦
                  elim (is_some (id_of imei r.vehicles))
                    as (λ b. Stays r (table_after (if b then (ok tt, r) else (ok tt, longer)))) [
                      | true ↦ (c, λ k i h. h)
                      | false ↦
                          ((λ k i h. id_of-append k r.vehicles v i (c k i h)), appended-Extends r v)
                    ]
            ]

  use_one-Stays : (u : Use) (r : Registry) → IsConsistent r → Stays r (use_one u r)
  use_one-Stays (ask imei) r c = outcome-Stays imei r c (resolve-Outcome draw imei r)
  use_one-Stays restart r c = ((λ k i h. cc), λ k i h. h)
  use_one-Stays (insert_elsewhere imei) r c = insert-Stays imei r c

  use_all-Stays : (uses : List Use) (r : Registry) → IsConsistent r → Stays r (use_all uses r)
  unfolding use_all
  use_all-Stays [] r c = (c, λ k i h. h)
  use_all-Stays (u ∷ uses) r c =
      let (c', more) = use_one-Stays u r c in
      let (c'', later) = use_all-Stays uses (use_one u r) c' in
      (c'', λ k i h. later k i (more k i h))

  -- Where the cache agrees with the table and an IMEI of fifteen digits got an id, it gets the same id
  -- again after any calls for any IMEIs, restarts that empty the cache, and insertions by other
  -- processes.
  pub resolve_keeps_id :
      (imei : List ℕ) (r : Registry) (id : ℕ) (uses : List Use)
      → IsConsistent r
      → is_imei imei ≡ true
      → (resolve draw imei r).0 ≡ ok id
      → (resolve draw imei (use_all uses (resolve draw imei r).1)).0 ≡ ok id
  resolve_keeps_id imei r id uses c good first =
      let (c', _) = outcome-Stays imei r c (resolve-Outcome draw imei r) in
      let held = outcome-IsHeld imei r id c (resolve-Outcome draw imei r) first in
      let (c'', later) = use_all-Stays uses (resolve draw imei r).1 c' in
      outcome_again imei (use_all uses (resolve draw imei r).1) id c'' good (later imei id held)
        (resolve-Outcome draw imei (use_all uses (resolve draw imei r).1))
