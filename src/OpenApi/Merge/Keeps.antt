-- ===== src/OpenApi/Merge/Keeps.antt =====
-- What is there before a merge is there after it, and the merge ends:
-- packages/shared/src/openapi/merge.ts, `mergeComponentSection` and `mergeOpenApiDocuments`.
use express_monorepo_bank_te.Base.{
  String, true, false, ◌≡◌, refl, none, some, or_else, str_eq, eq_iff, if◌then◌else◌, arith,
  Bool-cases, inl, inr, ◌⊎◌, Option-cases,
}
use express_monorepo_bank_te.OpenApi.Json.{
  Json, object, Fields, end, field, read, write, keys, member, is_in,
}
use express_monorepo_bank_te.OpenApi.Merge.{
  Renames, final_name, find_renames, place, copy_entries, copy_paths, section_of, object_at,
  rewrite_doc, merge_section,
}
use express_monorepo_bank_te.OpenApi.Merge.Renaming.{find_renames_total}

pub read-write :
    (j k : String) (v : Json) (fs : Fields)
    → read j (write k v fs) ≡ (if str_eq k j then some v else read j fs)
unfolding read write
read-write j k v end = refl
read-write j k v (field i w rest) =
    ground (arith, eq_iff k j, eq_iff i k, eq_iff i j, read-write j k v rest)

pub read-IsMember :
    (j : String) (v : Json) (fs : Fields) → read j fs ≡ some v → member j (keys fs) ≡ true
unfolding read keys
read-IsMember j v end h = cc
read-IsMember j v (field i w rest) h = ground (arith, read-IsMember j v rest)

pub not_in-read : (j : String) (fs : Fields) → is_in j fs ≡ false → read j fs ≡ none
unfolding is_in
not_in-read j fs h = elim (Option-cases (read j fs)) [
  | inl nothing ↦ nothing
  | inr (v, found) ↦ absurd (ground (arith, read-IsMember j v fs found))
]

-- What an object has stays.
abbrev pub Keeps : Fields → Fields → Type 0
Keeps fs gs = (key : String) (v : Json) → read key fs ≡ some v → read key gs ≡ some v

pub place-Keeps : (name : String) (x : Json) (fs : Fields) → Keeps fs (place name x fs)
unfolding place
place-Keeps name x fs key v h = elim (Bool-cases (is_in name fs)) [
  | inl old ↦ rw old h
  | inr new ↦
      rw new (ground (arith, read-write key name x fs, not_in-read name fs new, eq_iff name key))
]

pub place-new :
    (name : String) (x : Json) (fs : Fields)
    → is_in name fs ≡ false
    → read name (place name x fs) ≡ some x
unfolding place
place-new name x fs h = rw h (ground (arith, read-write name name x fs, eq_iff name name))

pub copy_entries-Keeps :
    (renames : Renames) (entries t : Fields) → Keeps t (copy_entries renames entries t)
unfolding copy_entries
copy_entries-Keeps renames end t key v h = h
copy_entries-Keeps renames (field name x rest) t key v h =
    copy_entries-Keeps renames rest (place (final_name renames name) x t) key v
      (place-Keeps (final_name renames name) x t key v h)

pub copy_paths-Keeps : (entries paths : Fields) → Keeps paths (copy_paths entries paths)
unfolding copy_paths
copy_paths-Keeps end paths key v h = h
copy_paths-Keeps (field name x rest) paths key v h =
    copy_paths-Keeps rest (place name x paths) key v (place-Keeps name x paths key v h)

pub object_at-write_self :
    (key : String) (gs fs : Fields) → object_at key (write key (object gs) fs) ≡ gs
unfolding object_at
object_at-write_self key gs fs =
    rw (read-write key key (object gs) fs, (eq_iff key key).1 refl, object_at)

pub object_at-write_other :
    (j key : String) (v : Json) (fs : Fields)
    → str_eq key j ≡ false
    → object_at j (write key v fs) ≡ object_at j fs
unfolding object_at
object_at-write_other j key v fs h = rw (read-write j key v fs, h, object_at)

-- Every section keeps what it has.
abbrev pub KeepsSections : Fields → Fields → Type 0
KeepsSections fs gs = (section : String) → Keeps (object_at section fs) (object_at section gs)

-- The two outcomes of a section's merge.
pub merge_section_cases :
    (section : String) (target extra : Fields)
    → (section_of section extra ≡ none)
        × (merge_section section target extra ≡ some (target, extra))
      ⊎ ((e : Fields) × (renames : Renames) × (section_of section extra ≡ some e)
          × (find_renames (object_at section target) e e ≡ some renames)
          × (merge_section section target extra
              ≡ some (
                write section
                    (object (
                      copy_entries renames
                        (or_else (section_of section (rewrite_doc section renames extra)) end)
                        (object_at section target)))
                    target,
                rewrite_doc section renames extra,
              )))
unfolding merge_section
merge_section_cases section target extra = elim (Option-cases (section_of section extra)) [
  | inl nothing ↦ inl (nothing, rw (nothing, merge_section))
  | inr (e, found) ↦
      let (renames, known) = find_renames_total (object_at section target) e e in
      inr (e, renames, found, known, rw (found, known, merge_section))
]
