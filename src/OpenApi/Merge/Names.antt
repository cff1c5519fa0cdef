-- ===== src/OpenApi/Merge/Names.antt =====
-- The loop that looks for a free name in packages/shared/src/openapi/merge.ts, lines 62 to 67.
use express_monorepo_bank_te.Base.{
  ℕ, zero, suc, ◌+◌, ◌<◌, ◌≤◌, String, Bool, true, false, ◌||◌, ◌≡◌, ◌≢◌, ◌⊎◌, refl, some, List, [],
  ◌∷◌, ◌++◌, length, str_eq, eq_iff, if◌then◌else◌, arith, Bool-cases, inl, inr,
}
use express_monorepo_bank_te.OpenApi.Json.{Fields, keys, member, inherited, is_in}
use express_monorepo_bank_te.OpenApi.Texts.{suffixed}
use express_monorepo_bank_te.OpenApi.Texts.Suffixes.{suffixed-injective}
use express_monorepo_bank_te.OpenApi.Merge.{taken, free_name, name_fuel}

-- The texts other than one.
remove : String → List String → List String
remove key [] = []
remove key (k ∷ names) = if str_eq k key then remove key names else k ∷ remove key names

length-remove-le : (key : String) (names : List String) → length (remove key names) ≤ length names
unfolding remove
length-remove-le key [] = omega arith
length-remove-le key (k ∷ names) = ground (arith, length-remove-le key names)

length-remove :
    (key : String) (names : List String)
    → member key names ≡ true
    → length (remove key names) < length names
unfolding remove
length-remove key [] h = cc
length-remove key (k ∷ names) h =
    ground (arith, length-remove key names, length-remove-le key names)

member-remove :
    (key j : String) (names : List String)
    → j ≢ key
    → member j names ≡ true
    → member j (remove key names) ≡ true
unfolding remove
member-remove key j [] ne h = cc
member-remove key j (k ∷ names) ne h =
    ground (arith, eq_iff k j, eq_iff k key, member-remove key j names)

pub member-append :
    (key : String) (xs ys : List String)
    → member key (xs ++ ys) ≡ (if member key xs then true else member key ys)
member-append key [] ys = refl
member-append key (x ∷ xs) ys = ground (arith, member-append key xs ys)

-- The candidates in use from a suffix on are among the names.
abbrev UsedWithin : (String → Bool) → String → ℕ → List String → Type 0
UsedWithin in_use name suffix names =
    (k : ℕ) → suffix ≤ k → in_use (suffixed name k) ≡ true → member (suffixed name k) names ≡ true

free_name_from :
    (in_use : String → Bool) (name : String) (fuel suffix : ℕ) (names : List String)
    → UsedWithin in_use name suffix names
    → length names < fuel
    → (found : String) × (free_name in_use name fuel (suffixed name suffix) (suffix + 1)
        ≡ some found)
unfolding free_name
free_name_from in_use name zero suffix names used h = absurd (omega (arith, h))
free_name_from in_use name (suc fuel) suffix names used h =
    elim (Bool-cases (in_use (suffixed name suffix))) [
      | inr free ↦ (suffixed name suffix, rw free)
      | inl busy ↦ rw busy (
          free_name_from in_use name fuel (suffix + 1) (remove (suffixed name suffix) names)
            (λ k le u.
              member-remove (suffixed name suffix) (suffixed name k) names
                (λ e. absurd (omega (arith, (suffixed-injective name name k suffix e).1)))
                (used k (omega arith) u))
            (omega
              (arith, length-remove (suffixed name suffix) names (used suffix (omega arith) busy))))
    ]

in_use_within :
    (key : String) (xs ys zs : List String)
    → (if member key xs then true else member key zs)
        || (if member key ys then true else member key zs)
      ≡ true
    → member key ((xs ++ ys) ++ zs) ≡ true
in_use_within key xs ys zs h =
    ground (arith, member-append key (xs ++ ys) zs, member-append key xs ys)

taken_within :
    (t e : Fields) (key : String)
    → taken t e key ≡ true
    → member key ((keys t ++ keys e) ++ inherited) ≡ true
unfolding taken is_in
taken_within t e key h = in_use_within key (keys t) (keys e) inherited h

-- The loop ends: some candidate is free.
pub free_name_total :
    (t e : Fields) (name : String)
    → (found : String) × (free_name (taken t e) name (name_fuel t e) name 2 ≡ some found)
unfolding free_name name_fuel
free_name_total t e name = elim (Bool-cases (taken t e name)) [
  | inr free ↦ (name, rw free)
  | inl busy ↦ rw busy (
      free_name_from (taken t e) name (suc (length ((keys t ++ keys e) ++ inherited))) 2
        ((keys t ++ keys e) ++ inherited) (λ k le u. taken_within t e (suffixed name k) u)
        (omega arith))
]

-- The name found is free, and is the name with a suffix if the name is in use.
pub free_name_lem :
    (in_use : String → Bool) (name : String) (fuel : ℕ) (candidate : String) (suffix : ℕ)
    (found : String)
    → free_name in_use name fuel candidate suffix ≡ some found
    → (in_use found ≡ false) × ((found ≡ candidate) ⊎ ((k : ℕ) × (found ≡ suffixed name k)))
unfolding free_name
free_name_lem in_use name zero candidate suffix found h = cc
free_name_lem in_use name (suc fuel) candidate suffix found h =
    elim (Bool-cases (in_use candidate)) [
      | inr free ↦ (ground arith, inl (ground arith))
      | inl busy ↦
          let (unused, from) =
            free_name_lem in_use name fuel (suffixed name suffix) (suffix + 1) found
              (ground arith) in
          (unused, inr (elim from [ inl e ↦ (suffix, e) | inr w ↦ w ]))
    ]
