-- ===== src/OpenApi/Merge/Places.antt =====
-- packages/shared/src/openapi/merge.ts, lines 73 to 76: where each component of the extra document
-- goes.
use express_monorepo_bank_te.Base.{
  String, true, false, ◌≡◌, ◌≢◌, ◌⊎◌, sym, ◌∙◌, none, some, List, [], ◌∷◌, str_eq, eq_iff, arith,
  Bool-cases, inl, inr, Option-cases,
}
use express_monorepo_bank_te.OpenApi.Json.{
  Json, Fields, end, field, read, write, keys, member, is_in,
}
use express_monorepo_bank_te.OpenApi.Texts.Suffixes.{suffixed-injective}
use express_monorepo_bank_te.OpenApi.Merge.{
  Renames, renamed, final_name, taken, find_renames, place, copy_entries,
}
use express_monorepo_bank_te.OpenApi.Merge.Renaming.{renamed-IsFresh}
use express_monorepo_bank_te.OpenApi.Merge.Keeps.{copy_entries-Keeps, place-new, read-IsMember}

-- No name twice.
abbrev pub DistinctNames : List String → Type 0
DistinctNames [] = Unit {0}
DistinctNames (k ∷ names) = (member k names ≡ false) × DistinctNames names

member-write_other :
    (j k : String) (x : Json) (fs : Fields)
    → k ≢ j
    → member j (keys (write k x fs)) ≡ member j (keys fs)
unfolding write keys
member-write_other j k x end ne = ground (arith, eq_iff k j)
member-write_other j k x (field i v rest) ne =
    ground (arith, eq_iff k j, eq_iff i k, eq_iff i j, member-write_other j k x rest ne)

is_in-place_other :
    (j k : String) (x : Json) (fs : Fields)
    → k ≢ j
    → is_in j fs ≡ false
    → is_in j (place k x fs) ≡ false
unfolding place is_in
is_in-place_other j k x fs ne h = ground (arith, member-write_other j k x fs ne)

-- Two entries do not get one name.
abbrev pub SeparateNames : Renames → Fields → Type 0
SeparateNames renames es =
    (j k : String)
    → member j (keys es) ≡ true
    → member k (keys es) ≡ true
    → final_name renames j ≡ final_name renames k
    → j ≡ k

later_member :
    (j k : String) (x : Json) (rest : Fields)
    → member j (keys rest) ≡ true
    → member j (keys (field k x rest)) ≡ true
unfolding keys
later_member j k x rest h = ground arith

first_member : (k : String) (x : Json) (rest : Fields) → member k (keys (field k x rest)) ≡ true
unfolding keys
first_member k x rest = ground (arith, eq_iff k k)

differ : (j k : String) → str_eq j k ≡ false → j ≢ k
differ j k h e = cc (h, (eq_iff j k).1 e)

-- An entry whose final name is free is copied under that name.
pub copy_entries_places :
    (renames : Renames) (es t : Fields) (name : String) (v : Json)
    → DistinctNames (keys es)
    → SeparateNames renames es
    → read name es ≡ some v
    → is_in (final_name renames name) t ≡ false
    → read (final_name renames name) (copy_entries renames es t) ≡ some v
unfolding copy_entries read keys
copy_entries_places renames end t name v d s h free = cc
copy_entries_places renames (field k x rest) t name v d s h free =
    elim (Bool-cases (str_eq k name)) [
      | inl same ↦
          let is : k ≡ name = (eq_iff k name).0 same in
          let held : x ≡ v = ground arith in
          copy_entries-Keeps renames rest (place (final_name renames k) x t)
            (final_name renames name) v
            (rw (is, held) (place-new (final_name renames name) v t free))
      | inr other ↦
          let found : read name rest ≡ some v = ground arith in
          copy_entries_places renames rest (place (final_name renames k) x t) name v d.1
            (λ i j p q e. s i j (later_member i k x rest p) (later_member j k x rest q) e) found
            (is_in-place_other (final_name renames name) (final_name renames k) x t
              (λ e. absurd (
                differ k name other (
                  s k name (first_member k x rest)
                    (later_member name k x rest (read-IsMember name v rest found)) e)))
              free)
    ]

-- A fresh name is the name of no entry.
fresh_not_member :
    (t e : Fields) (new : String) → taken t e new ≡ false → member new (keys e) ≡ true → ⊥
unfolding taken is_in
fresh_not_member t e new free m = ground arith

pub final_of :
    (renames : Renames) (name : String)
    → ((renamed renames name ≡ none) × (final_name renames name ≡ name))
      ⊎ ((new : String) × (renamed renames name ≡ some new) × (final_name renames name ≡ new))
unfolding final_name
final_of renames name = elim (Option-cases (renamed renames name)) [
  | inl kept ↦ inl (kept, rw (kept, final_name))
  | inr (new, given) ↦ inr (new, given, rw (given, final_name))
]

pub find_renames-SeparateNames :
    (t e : Fields) (renames : Renames) → find_renames t e e ≡ some renames → SeparateNames renames e
find_renames-SeparateNames t e renames h j k p q same = elim (final_of renames j) [
  | inl (_, j_is) ↦ elim (final_of renames k) [
    | inl (_, k_is) ↦ sym j_is ∙ same ∙ k_is
    | inr (new, given, k_is) ↦
        let (free, _) = renamed-IsFresh t e e renames k new h given in
        absurd (fresh_not_member t e new free (rw (sym j_is ∙ same ∙ k_is) at p))
  ]
  | inr (new, given, j_is) ↦
      let (free, (m, suffix)) = renamed-IsFresh t e e renames j new h given in
      elim (final_of renames k) [
        | inl (_, k_is) ↦
            absurd (fresh_not_member t e new free (rw (sym k_is ∙ sym same ∙ j_is) at q))
        | inr (other, given', k_is) ↦
            let (_, (n, suffix')) = renamed-IsFresh t e e renames k other h given' in
            (suffixed-injective j k m n (sym suffix ∙ sym j_is ∙ same ∙ k_is ∙ suffix')).0
      ]
]
