-- ===== src/Telemetry/Vehicles/Outcomes.antt =====
-- apps/telemetry-consumers/src/vehicles.ts: the ways in which a call of `resolve` ends.
use express_monorepo_bank_te.Base.{
  ℕ, true, false, none, some, List, [], ◌∷◌, ◌++◌, ◌≡◌, refl, arith, Bool-cases, Option-cases, inl,
  inr,
}
use express_monorepo_bank_te.Bank.Api.Access.{same_text}
use express_monorepo_bank_te.Bank.Errors.{Failure, query_error, check_violation}
use express_monorepo_bank_te.Bank.Tx.{ok, err, Result}
use express_monorepo_bank_te.Auth.RoundTrip.{same_text_refl}
use express_monorepo_bank_te.Telemetry.Vehicles.{Vehicle, Registry, lookup, id_of, is_imei, resolve}

pub same_text_eq : (s t : List ℕ) → same_text s t ≡ true → s ≡ t
same_text_eq [] [] h = refl
same_text_eq [] (b ∷ t) h = cc
same_text_eq (a ∷ s) [] h = cc
same_text_eq (a ∷ s) (b ∷ t) h = ground (arith, same_text_eq s t)

pub lookup_first :
    (j k : List ℕ) (id i : ℕ) (cache : List (List ℕ × ℕ))
    → same_text j k ≡ true
    → lookup k ((j, id) ∷ cache) ≡ some i
    → id ≡ i
lookup_first j k id i cache same h = ground arith

pub id_of-append :
    (imei : List ℕ) (rows : List Vehicle) (v : Vehicle) (id : ℕ)
    → id_of imei rows ≡ some id
    → id_of imei (rows ++ v ∷ []) ≡ some id
id_of-append imei [] v id h = cc
id_of-append imei (w ∷ rows) v id h = ground (arith, id_of-append imei rows v id)

pub id_of-append_new :
    (imei : List ℕ) (rows : List Vehicle) (id : ℕ)
    → id_of imei rows ≡ none
    → id_of imei (rows ++ record { id = id; imei = imei } ∷ []) ≡ some id
id_of-append_new imei [] id h = ground (arith, same_text_refl imei)
id_of-append_new imei (w ∷ rows) id h = ground (arith, id_of-append_new imei rows id)

module _ (draw : List ℕ → ℕ) where
  -- The ways in which a call of `resolve` ends.
  pub data Outcome (imei : List ℕ) (r : Registry) : Result ℕ × Registry → Type 0 where
    cached : (id : ℕ) → lookup imei r.cache ≡ some id → Outcome imei r (ok id, r)
    refused : (e : Failure) → is_imei imei ≡ false → Outcome imei r (err e, r)
    present :
        (id : ℕ)
        → id_of imei r.vehicles ≡ some id
        → Outcome imei r (ok id, record r { cache = (imei, id) ∷ r.cache })
    inserted :
        id_of imei r.vehicles ≡ none
        → Outcome imei r (
          ok (draw imei),
          record {
            cache = (imei, draw imei) ∷ r.cache;
            vehicles = r.vehicles ++ record { id = draw imei; imei = imei } ∷ [];
          },
        )

  module _ (imei : List ℕ) (r : Registry) (miss : lookup imei r.cache ≡ none) where
    resolve_refused :
        is_imei imei ≡ false → resolve draw imei r ≡ (err (query_error check_violation), r)
    unfolding resolve
    resolve_refused bad = ground arith

    resolve_present :
        (id : ℕ)
        → is_imei imei ≡ true
        → id_of imei r.vehicles ≡ some id
        → resolve draw imei r ≡ (ok id, record r { cache = (imei, id) ∷ r.cache })
    unfolding resolve
    resolve_present id good held = ground arith

    resolve_new :
        is_imei imei ≡ true
        → id_of imei r.vehicles ≡ none
        → resolve draw imei r ≡ (
          ok (draw imei),
          record {
            cache = (imei, draw imei) ∷ r.cache;
            vehicles = r.vehicles ++ record { id = draw imei; imei = imei } ∷ [];
          },
        )
    unfolding resolve
    resolve_new good new = ground (arith, id_of-append_new imei r.vehicles (draw imei) new)

  pub resolve-Outcome : (imei : List ℕ) (r : Registry) → Outcome imei r (resolve draw imei r)
  unfolding resolve
  resolve-Outcome imei r = elim (Option-cases (lookup imei r.cache)) [
    | inr (id, hit) ↦ rw (hit, resolve) (cached id hit)
    | inl miss ↦ elim (Bool-cases (is_imei imei)) [
      | inr bad ↦ rw (resolve_refused imei r miss bad) (refused (query_error check_violation) bad)
      | inl good ↦ elim (Option-cases (id_of imei r.vehicles)) [
        | inr (id, held) ↦ rw (resolve_present imei r miss id good held) (present id held)
        | inl new ↦ rw (resolve_new imei r miss good new) (inserted new)
      ]
    ]
  ]
