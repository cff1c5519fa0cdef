-- ===== src/OpenApi/Merge/Renaming.antt =====
-- The first loop of packages/shared/src/openapi/merge.ts's `mergeComponentSection` (lines 59 to 70):
-- which components get a new name, and which.
use mathlib.Core.Option.{some-injective}
use express_monorepo_bank_te.Base.{
  ℕ, String, true, false, ◌≡◌, ◌≢◌, ◌⊎◌, refl, ap, none, some, [], ◌∷◌, str_eq, eq_iff, arith,
  Bool-cases, inl, inr,
}
use express_monorepo_bank_te.OpenApi.Json.{Json, Fields, end, field, read}
use express_monorepo_bank_te.OpenApi.Texts.{suffixed}
use express_monorepo_bank_te.OpenApi.Merge.{
  Renames, renamed, conflicts, taken, free_name, name_fuel, find_renames,
}
use express_monorepo_bank_te.OpenApi.Merge.Names.{free_name_total, free_name_lem}

nothing_renamed : (name new : String) → renamed [] name ≢ some new
unfolding renamed
nothing_renamed name new = λ h. cc

renamed-none :
    (k found name : String) (later : Renames)
    → renamed ((k, found) ∷ later) name ≡ none
    → (str_eq k name ≡ false) × (renamed later name ≡ none)
unfolding renamed
renamed-none k found name later h = (ground arith, ground arith)

read_first :
    (k : String) (v : Json) (rest : Fields) (name : String) (schema : Json)
    → str_eq k name ≡ true
    → read name (field k v rest) ≡ some schema
    → v ≡ schema
unfolding read
read_first k v rest name schema same h = ground arith

-- A new name: free in both sections, and the old one with a suffix.
abbrev pub IsFresh : Fields → Fields → String → String → Type 0
IsFresh t e name new = (taken t e new ≡ false) × ((k : ℕ) × (new ≡ suffixed name k))

module _ (t e : Fields) where
  pub find_renames_total :
      (rest : Fields) → (renames : Renames) × (find_renames t e rest ≡ some renames)
  unfolding find_renames
  find_renames_total end = ([], refl)
  find_renames_total (field name schema rest) =
      let (renames, known) = find_renames_total rest in
      let (found, free) = free_name_total t e name in
      elim (Bool-cases (conflicts t name schema)) [
        | inl clash ↦ ((name, found) ∷ renames, rw (known, clash, free))
        | inr fits ↦ (renames, rw (known, fits))
      ]

  -- A name that conflicts is in use.
  conflict_taken :
      (name : String) (schema : Json) → conflicts t name schema ≡ true → taken t e name ≡ true
  unfolding conflicts taken
  conflict_taken name schema h = ground arith

  found-IsFresh :
      (name found : String)
      → taken t e name ≡ true
      → free_name (taken t e) name (name_fuel t e) name 2 ≡ some found
      → IsFresh t e name found
  found-IsFresh name found busy h =
      let (unused, from) = free_name_lem (taken t e) name (name_fuel t e) name 2 found h in
      elim from [ inl same ↦ absurd (cc (busy, unused, ap (taken t e) same)) | inr w ↦ (unused, w) ]

  -- One round: a conflicting name gets a new one, any other stays.
  abbrev Round : String → Json → Renames → Renames → Type 0
  Round name schema later renames =
      ((conflicts t name schema ≡ false) × (renames ≡ later))
      ⊎ ((found : String) × (conflicts t name schema ≡ true)
          × (free_name (taken t e) name (name_fuel t e) name 2 ≡ some found)
          × (renames ≡ (name, found) ∷ later))

  pub find_renames_field :
      (name : String) (schema : Json) (rest : Fields) (renames : Renames)
      → find_renames t e (field name schema rest) ≡ some renames
      → (later : Renames) × (find_renames t e rest ≡ some later) × Round name schema later renames
  unfolding find_renames
  find_renames_field name schema rest renames h =
      let (later, known) = find_renames_total rest in
      let (found, free) = free_name_total t e name in
      elim (Bool-cases (conflicts t name schema)) [
        | inl clash ↦
            let step : find_renames t e (field name schema rest) ≡ some ((name, found) ∷ later) =
              rw (known, clash, free) in
            (later, known, inr (found, clash, free, cc (h, step)))
        | inr fits ↦
            let step : find_renames t e (field name schema rest) ≡ some later = rw (known, fits) in
            (later, known, inl (fits, cc (h, step)))
      ]

  renamed_first :
      (k found name new : String) (later : Renames)
      → renamed ((k, found) ∷ later) name ≡ some new
      → ((k ≡ name) × (found ≡ new)) ⊎ (renamed later name ≡ some new)
  unfolding renamed
  renamed_first k found name new later h = elim (Bool-cases (str_eq k name)) [
    | inl same ↦ inl ((eq_iff k name).0 same, ground arith)
    | inr other ↦ inr (ground arith)
  ]

  -- Each new name is fresh.
  pub renamed-IsFresh :
      (rest : Fields) (renames : Renames) (name new : String)
      → find_renames t e rest ≡ some renames
      → renamed renames name ≡ some new
      → IsFresh t e name new
  unfolding find_renames
  renamed-IsFresh end renames name new h given =
      absurd (nothing_renamed name new (rw (some-injective _ _ h) given))
  renamed-IsFresh (field k schema rest) renames name new h given =
      let (later, known, round) = find_renames_field k schema rest renames h in
      elim round [
        | inl (fits, same) ↦ renamed-IsFresh rest later name new known (rw same at given)
        | inr (found, clash, free, same) ↦
            elim (renamed_first k found name new later (rw same at given)) [
              | inl (k_is, new_is) ↦
                  rw (← k_is, ← new_is) (found-IsFresh k found (conflict_taken k schema clash) free)
              | inr rest_given ↦ renamed-IsFresh rest later name new known rest_given
            ]
      ]

  -- An entry that keeps its name has no conflict.
  pub kept-fits :
      (rest : Fields) (renames : Renames) (name : String) (schema : Json)
      → find_renames t e rest ≡ some renames
      → read name rest ≡ some schema
      → renamed renames name ≡ none
      → conflicts t name schema ≡ false
  unfolding read
  kept-fits end renames name schema h entry kept = cc
  kept-fits (field k v rest) renames name schema h entry kept =
      let (later, known, round) = find_renames_field k v rest renames h in
      elim (Bool-cases (str_eq k name)) [
        | inl same ↦ elim round [
          | inl (fits, _) ↦
              rw (← (eq_iff k name).0 same, ← read_first k v rest name schema same entry) fits
          | inr (found, _, _, made) ↦
              absurd (cc (same, (renamed-none k found name later (rw made at kept)).0))
        ]
        | inr other ↦ kept-fits rest later name schema known (ground arith) (elim round [
          | inl (_, made) ↦ rw made at kept
          | inr (found, _, _, made) ↦ (renamed-none k found name later (rw made at kept)).1
        ])
      ]
