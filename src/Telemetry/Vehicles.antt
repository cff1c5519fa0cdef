-- ===== src/Telemetry/Vehicles.antt =====
-- apps/telemetry-consumers/src/vehicles.ts: the registry of vehicles, with the table of
-- packages/db-telemetry/src/schema/telemetry.ts and the cache over it. `draw` is the id that a new row gets.
use express_monorepo_bank_te.Base.{
  ℕ, Bool, ◌&&◌, not, Option, none, some, List, [], ◌∷◌, ◌++◌, ◌==◌, leb, length, any_of, is_some,
  if◌then◌else◌,
}
use express_monorepo_bank_te.Bank.Api.Access.{same_text}
use express_monorepo_bank_te.Bank.Errors.{check_violation, plain, query_error}
use express_monorepo_bank_te.Bank.Tx.{ok, err, Exec, pure, gets, or_throw, ◌>>=◌, ◌>>◌}
pub mod Outcomes
pub mod Permanence

pub record Vehicle : Type 0 where
  pub id : ℕ
  pub imei : List ℕ

-- `cache` and the resolved map are from IMEIs to ids.
pub record Registry : Type 0 where
  pub cache : List (List ℕ × ℕ)
  pub vehicles : List Vehicle

abbrev pub lookup : List ℕ → List (List ℕ × ℕ) → Option ℕ
lookup imei [] = none
lookup imei ((k, id) ∷ entries) =
    let later = lookup imei entries in if same_text k imei then some id else later

abbrev pub id_of : List ℕ → List Vehicle → Option ℕ
id_of imei [] = none
id_of imei (v ∷ rows) =
    let later = id_of imei rows in if same_text v.imei imei then some v.id else later

abbrev pub is_not_digit : ℕ → Bool
is_not_digit c = not (leb b'0' c && leb c b'9')

-- The check on the column: fifteen digits.
abbrev pub is_imei : List ℕ → Bool
is_imei imei = (length imei == 15) && not (any_of is_not_digit imei)

module _ (draw : List ℕ → ℕ) where
  -- `insert(vehicles).values({ imei }).onConflictDoNothing()`
  unfoldable pub insert_vehicle : List ℕ → Exec Registry (Unit {0})
  insert_vehicle imei r =
      if not (is_imei imei)
      then (err (query_error check_violation), r)
      else if is_some (id_of imei r.vehicles)
      then (ok tt, r)
      else (
        ok tt,
        record r { vehicles = r.vehicles ++ record { id = draw imei; imei = imei } ∷ [] },
      )

  abbrev pub remember : List ℕ → ℕ → Exec Registry (Unit {0})
  remember imei id r = (ok tt, record r { cache = (imei, id) ∷ r.cache })

  abbrev pub resolve_uncached : List ℕ → Exec Registry ℕ
  resolve_uncached imei = do
    insert_vehicle imei
    row ← gets (λ r. id_of imei r.vehicles)
    id ← or_throw row plain
    remember imei id
    pure id

  abbrev pub resolve_from : List ℕ → Option ℕ → Exec Registry ℕ
  resolve_from imei none = resolve_uncached imei
  resolve_from imei (some id) = pure id

  -- `resolve`
  unfoldable pub resolve : List ℕ → Exec Registry ℕ
  unfolding insert_vehicle
  resolve imei = do cached ← gets (λ r. lookup imei r.cache); resolve_from imei cached

  -- The loop of `resolveAll` over the distinct IMEIs; `resolved` is the map so far.
  unfoldable pub resolve_all_from :
      List (List ℕ × ℕ) → List (List ℕ) → Exec Registry (List (List ℕ × ℕ))
  unfolding resolve
  resolve_all_from resolved [] = pure resolved
  resolve_all_from resolved (imei ∷ imeis) = do
    id ← resolve imei
    resolve_all_from ((imei, id) ∷ resolved) imeis

  -- `new Set(imeis)`: each once, where it came first.
  abbrev pub distinct : List (List ℕ) → List (List ℕ) → List (List ℕ)
  distinct seen [] = []
  distinct seen (imei ∷ imeis) =
      let rest = distinct (imei ∷ seen) imeis in
      if any_of (same_text imei) seen then rest else imei ∷ rest

  -- `resolveAll`
  unfoldable pub resolve_all : List (List ℕ) → Exec Registry (List (List ℕ × ℕ))
  unfolding resolve_all_from
  resolve_all imeis = resolve_all_from [] (distinct [] imeis)
