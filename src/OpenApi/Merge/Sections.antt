-- ===== src/OpenApi/Merge/Sections.antt =====
-- packages/shared/src/openapi/merge.ts, `mergeComponentSection` as a whole: what becomes of each
-- component of the extra document.
use mathlib.Core.Bool.{false≢true}
use express_monorepo_bank_te.Base.{
  ◌||◌, ◌&&◌, not, String, Bool, true, false, ◌≡◌, ◌⊎◌, refl, ap, some, [], ◌∷◌, arith, Bool-cases,
  inl, inr, Option-cases,
}
use express_monorepo_bank_te.OpenApi.Json.{
  Json, text, object, Fields, end, field, read, write, keys, is_in, record_of, deep_equal,
}
use express_monorepo_bank_te.OpenApi.Merge.{
  Renames, final_name, conflicts, taken, find_renames, copy_entries, record_at, section_of,
  object_at, rewrite_fields, rewrite_refs, rewrite_doc, merge_section,
}
use express_monorepo_bank_te.OpenApi.Merge.Renaming.{renamed-IsFresh, kept-fits, find_renames_total}
use express_monorepo_bank_te.OpenApi.Merge.Keeps.{copy_entries-Keeps, object_at-write_self}
use express_monorepo_bank_te.OpenApi.Merge.Places.{
  DistinctNames, copy_entries_places, find_renames-SeparateNames, final_of,
}

keys-rewrite_fields :
    (section : String) (renames : Renames) (fs : Fields)
    → keys (rewrite_fields section renames fs) ≡ keys fs
unfolding keys rewrite_refs
keys-rewrite_fields section renames end = refl
keys-rewrite_fields section renames (field k (text t) rest) =
    ap (λ ks. k ∷ ks) (keys-rewrite_fields section renames rest)
keys-rewrite_fields section renames (field k v rest) =
    ap (λ ks. k ∷ ks) (keys-rewrite_fields section renames rest)

keys-rewrite_doc :
    (section : String) (renames : Renames) (fs : Fields)
    → keys (rewrite_doc section renames fs) ≡ keys fs
unfolding rewrite_doc
keys-rewrite_doc section [] fs = refl
keys-rewrite_doc section (r ∷ renames) fs = keys-rewrite_fields section (r ∷ renames) fs

-- An object below a key is rewritten in its place.
read-rewrite_fields :
    (section : String) (renames : Renames) (key : String) (fs gs : Fields)
    → read key fs ≡ some (object gs)
    → read key (rewrite_fields section renames fs)
      ≡ some (object (rewrite_fields section renames gs))
unfolding read rewrite_refs
read-rewrite_fields section renames key end gs h = cc
read-rewrite_fields section renames key (field k (text t) rest) gs h =
    ground (arith, read-rewrite_fields section renames key rest gs)
read-rewrite_fields section renames key (field k v rest) gs h =
    ground (arith, read-rewrite_fields section renames key rest gs)

read-rewrite_doc :
    (section : String) (renames : Renames) (key : String) (fs gs : Fields)
    → read key fs ≡ some (object gs)
    → read key (rewrite_doc section renames fs) ≡ some (object (rewrite_doc section renames gs))
unfolding rewrite_doc
read-rewrite_doc section [] key fs gs h = h
read-rewrite_doc section (r ∷ renames) key fs gs h =
    read-rewrite_fields section (r ∷ renames) key fs gs h

section_of_lem :
    (section : String) (doc components e : Fields)
    → read "components" doc ≡ some (object components)
    → read section components ≡ some (object e)
    → section_of section doc ≡ some e
unfolding section_of record_of
section_of_lem section doc components e h k = rw (h, k, section_of, record_at)

either_false : (a b : Bool) → (a || b) ≡ false → a ≡ false
either_false a b h = ground arith

both_false : (b : Bool) → (true && not b) ≡ false → b ≡ true
both_false b h = ground arith

free_in_target : (t e : Fields) (new : String) → taken t e new ≡ false → is_in new t ≡ false
unfolding taken
free_in_target t e new h = either_false (is_in new t) (is_in new e) h

-- A name held without conflict has an equal entry.
held_equal :
    (t : Fields) (name : String) (v : Json)
    → is_in name t ≡ true
    → conflicts t name v ≡ false
    → (w : Json) × (read name t ≡ some w) × (deep_equal w v ≡ true)
unfolding conflicts
held_equal t name v held fits = elim (Option-cases (read name t)) [
  | inl nothing ↦ absurd (false≢true (both_false false (rw (held, nothing, conflicts) at fits)))
  | inr (w, found) ↦ (w, found, both_false (deep_equal w v) (rw (held, found, conflicts) at fits))
]

-- An entry goes to a free name, or its name already has an equal entry.
entry_outcome :
    (t e : Fields) (renames : Renames) (name : String) (v : Json)
    → find_renames t e e ≡ some renames
    → read name e ≡ some v
    → (is_in (final_name renames name) t ≡ false)
      ⊎ ((final_name renames name ≡ name)
          × (w : Json) × (read name t ≡ some w)
          × (deep_equal w v ≡ true))
entry_outcome t e renames name v h entry = elim (final_of renames name) [
  | inr (new, given, new_is) ↦
      inl (rw new_is (free_in_target t e new (renamed-IsFresh t e e renames name new h given).0))
  | inl (kept, same) ↦ elim (Bool-cases (is_in name t)) [
    | inr free ↦ inl (rw same free)
    | inl held ↦
        let (w, found, equal) =
          held_equal t name v held (kept-fits t e e renames name v h entry kept) in
        inr (same, w, found, equal)
  ]
]

-- Let the extra document's components have the section, an object whose names are distinct, and let
-- `gs` be its entry under a name. The merge of the section ends. Either the entry's final name was
-- not in the target's section, and that section now has the entry there with its references
-- rewritten; or the entry keeps its name, and the section has under it, before and after, an entry
-- that `deepEqual` accepts for it.
pub merge_section_places :
    (section : String) (target extra components e : Fields) (name : String) (gs : Fields)
    → read "components" extra ≡ some (object components)
    → read section components ≡ some (object e)
    → DistinctNames (keys e)
    → read name e ≡ some (object gs)
    → (renames : Renames) × (target' : Fields) × (merge_section section target extra
        ≡ some (target', rewrite_doc section renames extra))
      × (((is_in (final_name renames name) (object_at section target) ≡ false)
            × (read (final_name renames name) (object_at section target')
                ≡ some (object (rewrite_doc section renames gs))))
          ⊎ ((final_name renames name ≡ name)
              × (w : Json) × (deep_equal w (object gs) ≡ true)
              × (read name (object_at section target) ≡ some w)
              × (read name (object_at section target') ≡ some w)))
unfolding merge_section
merge_section_places section target extra components e name gs h k distinct entry =
    let t : Fields = object_at section target in
    let (renames, known) = find_renames_total t e e in
    let entries : Fields = rewrite_doc section renames e in
    let copied : Fields = copy_entries renames entries t in
    let same_keys = keys-rewrite_doc section renames e in
    let rewritten : section_of section (rewrite_doc section renames extra) ≡ some entries =
      section_of_lem section (rewrite_doc section renames extra)
        (rewrite_doc section renames components) entries
        (read-rewrite_doc section renames "components" extra components h)
        (read-rewrite_doc section renames section components e k) in
    (
      renames,
      write section (object copied) target,
      rw (section_of_lem section extra components e h k, known, rewritten, merge_section),
      elim (entry_outcome t e renames name (object gs) known entry) [
        | inl free ↦ inl (
          free,
          rw (object_at-write_self section copied target) (
              copy_entries_places renames entries t name (object (rewrite_doc section renames gs))
                (rw same_keys distinct)
                (rw same_keys (find_renames-SeparateNames t e renames known))
                (read-rewrite_doc section renames name e gs entry) free),
        )
        | inr (same, w, held, equal) ↦ inr (
          same,
          w,
          equal,
          held,
          rw (object_at-write_self section copied target)
              (copy_entries-Keeps renames entries t name w held),
        )
      ],
    )
