-- ===== src/OpenApi/Merge/BaseWins.antt =====
-- packages/shared/src/openapi/merge.ts, `mergeOpenApiDocuments`: the merge of any documents ends, and
-- leaves what the base has.
use express_monorepo_bank_te.Base.{
  String, ◌≡◌, refl, ap, some, List, [], ◌∷◌, or_else, str_eq, eq_iff, arith, Bool-cases, inl, inr,
}
use express_monorepo_bank_te.OpenApi.Json.{Json, object, Fields, end, field, read, write}
use express_monorepo_bank_te.OpenApi.Merge.{
  copy_entries, copy_paths, section_of, object_at, record_at, rewrite_doc, merge_section, Renames,
  rewrite_copied, rewrite_entries, rewrite_shared, section_renames, merge_sections,
  component_sections, Merged, merge_extra, merge_extras, merge_documents,
}
use express_monorepo_bank_te.OpenApi.Merge.Keeps.{
  Keeps, KeepsSections, copy_entries-Keeps, copy_paths-Keeps, object_at-write_self,
  object_at-write_other, merge_section_cases,
}

written-KeepsSections :
    (section : String) (gs target : Fields)
    → Keeps (object_at section target) gs
    → KeepsSections target (write section (object gs) target)
written-KeepsSections section gs target keep j key v h = elim (Bool-cases (str_eq section j)) [
  | inl same ↦
      let is : section ≡ j = (eq_iff section j).0 same in
      rw (← is) (rw (object_at-write_self section gs target) (keep key v (rw (← is) at h)))
  | inr other ↦ rw (object_at-write_other j section (object gs) target other) h
]

pub merge_section-KeepsSections :
    (section : String) (target extra : Fields)
    → (target' : Fields) × (extra' : Fields) × (merge_section section target extra
        ≡ some (target', extra'))
      × KeepsSections target target'
merge_section-KeepsSections section target extra = elim (merge_section_cases section target extra) [
  | inl (_, done) ↦ (target, extra, done, λ j key v h. h)
  | inr (e, renames, _, _, done) ↦ (
    _,
    _,
    done,
    written-KeepsSections section
        (copy_entries renames (or_else (section_of section (rewrite_doc section renames extra)) end)
          (object_at section target))
        target
        (copy_entries-Keeps renames
          (or_else (section_of section (rewrite_doc section renames extra)) end)
          (object_at section target)),
  )
]

-- What the target had when the extra's merge began is not shared with the extra, and stays.
rewrite_copied-read :
    (section : String) (renames : Renames) (old entries : Fields) (key : String) (v : Json)
    → read key old ≡ some v
    → read key (rewrite_copied section renames old entries) ≡ read key entries
unfolding read rewrite_copied
rewrite_copied-read section renames old end key v h = refl
rewrite_copied-read section renames old (field name w rest) key v h =
    elim (Bool-cases (str_eq name key)) [
      | inl same ↦ let is : name ≡ key = (eq_iff name key).0 same in rw (same, is, h) refl
      | inr other ↦ rw (other, rewrite_copied-read section renames old rest key v h) refl
    ]

rewrite_entries-object_at :
    (section : String) (renames : Renames) (before target : Fields) (j : String)
    → object_at j (rewrite_entries section renames before target)
      ≡ rewrite_copied section renames (object_at j before) (object_at j target)
unfolding rewrite_entries rewrite_copied object_at read
rewrite_entries-object_at section renames before end j = refl
rewrite_entries-object_at section renames before (field k (object entries) rest) j = ground (
  arith,
  eq_iff k j,
  ap (λ i. rewrite_copied section renames (object_at i before) entries),
  rewrite_entries-object_at section renames before rest j,
)
rewrite_entries-object_at section renames before (field k _ rest) j =
    ground (arith, rewrite_entries-object_at section renames before rest j)

rewrite_shared-KeepsSections :
    (section : String) (renames : Renames) (before target : Fields)
    → KeepsSections before target
    → KeepsSections before (rewrite_shared section renames before target)
unfolding rewrite_shared
rewrite_shared-KeepsSections section [] before target keep = keep
rewrite_shared-KeepsSections section (r ∷ renames) before target keep = λ j key v h.
    rw
      (
        rewrite_entries-object_at section (r ∷ renames) before target j,
        rewrite_copied-read section (r ∷ renames) (object_at j before) (object_at j target) key v h,
      )
      (keep j key v h)

merge_sections-KeepsSections :
    (before : Fields) (sections : List String) (target extra : Fields)
    → KeepsSections before target
    → (target' : Fields) × (extra' : Fields) × (merge_sections before sections target extra
        ≡ some (target', extra'))
      × KeepsSections before target'
unfolding merge_sections
merge_sections-KeepsSections before [] target extra kept = (target, extra, refl, kept)
merge_sections-KeepsSections before (section ∷ sections) target extra kept =
    let renames = section_renames section target extra in
    let shared = rewrite_shared section renames before target in
    let stay = rewrite_shared-KeepsSections section renames before target kept in
    let (t, e, one, keep) = merge_section-KeepsSections section shared extra in
    let (t', e', later, all_kept) =
      merge_sections-KeepsSections before sections t e
        (λ j key v h. keep j key v (stay j key v h)) in
    (t', e', rw (one, merge_sections) later, all_kept)

-- Every path and every component stays.
abbrev pub Extends : Merged → Merged → Type 0
Extends m n = Keeps m.paths n.paths × KeepsSections m.components n.components

merge_extra-Extends :
    (extra : Fields) (merged : Merged)
    → (merged' : Merged) × (merge_extra extra merged ≡ some merged') × Extends merged merged'
unfolding merge_extra
merge_extra-Extends extra merged =
    let (t, e, done, keep) =
      merge_sections-KeepsSections merged.components component_sections merged.components extra
        (λ j key v h. h) in
    (
      record {
        paths = copy_paths (or_else (record_at "paths" e) end) merged.paths;
        components = t;
      },
      rw (done, merge_extra),
      (copy_paths-Keeps (or_else (record_at "paths" e) end) merged.paths, keep),
    )

merge_extras-Extends :
    (extras : List Fields) (merged : Merged)
    → (merged' : Merged) × (merge_extras extras merged ≡ some merged') × Extends merged merged'
unfolding merge_extras
merge_extras-Extends [] merged = (merged, refl, ((λ key v h. h), (λ j key v h. h)))
merge_extras-Extends (extra ∷ extras) merged =
    let (m, one, (paths, components)) = merge_extra-Extends extra merged in
    let (m', later, (paths', components')) = merge_extras-Extends extras m in
    (
      m',
      rw (one, merge_extras) later,
      (
        (λ key v h. paths' key v (paths key v h)),
        (λ j key v h. components' j key v (components j key v h)),
      ),
    )

-- For every base document and all the other documents the merge ends with a document. Every path
-- item of the base's paths and every entry of each section of its components is in the result under
-- the same name and unchanged.
pub merge_documents-Keeps :
    (base : Fields) (extras : List Fields)
    → (merged : Fields) × (merge_documents base extras ≡ some merged)
      × Keeps (object_at "paths" base) (object_at "paths" merged)
      × KeepsSections (object_at "components" base) (object_at "components" merged)
unfolding merge_documents
merge_documents-Keeps base extras =
    let start : Merged = record {
      paths = object_at "paths" base;
      components = object_at "components" base;
    } in
    let (m, done, (paths, components)) = merge_extras-Extends extras start in
    (
      write "components" (object m.components) (write "paths" (object m.paths) base),
      rw (done, merge_documents),
      (λ key v h.
          rw
            (
              object_at-write_other "paths" "components" (object m.components)
                  (write "paths" (object m.paths) base) refl,
              object_at-write_self "paths" m.paths base,
            )
            (paths key v h)),
      (λ j key v h.
          rw (object_at-write_self "components" m.components (write "paths" (object m.paths) base))
            (components j key v h)),
    )
