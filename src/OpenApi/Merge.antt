-- ===== src/OpenApi/Merge.antt =====
-- packages/shared/src/openapi/merge.ts: `mergeComponentSection` (lines 48 to 77) and
-- `mergeOpenApiDocuments` (87 to 110). The document mutated in place is returned.
use express_monorepo_bank_te.Base.{
  ℕ, zero, suc, ◌+◌, String, Bool, false, ◌&&◌, ◌||◌, not, Option, none, some, List, [], ◌∷◌, ◌++◌,
  length, or_else, if◌then◌else◌,
}
use express_monorepo_bank_te.OpenApi.Json.{
  Json, object, Fields, end, field, read, write, keys, inherited, is_in, record_of, deep_equal,
}
use express_monorepo_bank_te.OpenApi.Texts.{suffixed}
pub mod References
unfoldable pub use References.*
pub mod Names
pub mod Renaming
pub mod Keeps
pub mod BaseWins
pub mod Places
pub mod Sections

-- `name in targetSection && !deepEqual(targetSection[name], extraSection[name])`; an inherited
-- property is a function, which no value of a document equals.
unfoldable pub conflicts : Fields → String → Json → Bool
unfolding read is_in deep_equal
conflicts target_section name schema =
    is_in name target_section
    && not (elim (read name target_section) [ some v ↦ deep_equal v schema | none ↦ false ])

-- `candidate in targetSection || candidate in extraSection`
unfoldable pub taken : Fields → Fields → String → Bool
unfolding is_in
taken target_section extra_section candidate =
    is_in candidate target_section || is_in candidate extra_section

-- The `while` loop over the suffixes; `none` means that the fuel ran out.
unfoldable pub free_name : (String → Bool) → String → ℕ → String → ℕ → Option String
unfolding suffixed
free_name in_use name zero candidate suffix = none
free_name in_use name (suc fuel) candidate suffix =
    let later = free_name in_use name fuel (suffixed name suffix) (suffix + 1) in
    if in_use candidate then later else some candidate

-- One round for each name in use, and two.
unfoldable pub name_fuel : Fields → Fields → ℕ
unfolding keys
name_fuel target_section extra_section =
    suc (suc (length ((keys target_section ++ keys extra_section) ++ inherited)))

-- The loop over `Object.keys(extraSection)`, the last argument being the keys that are left.
unfoldable pub find_renames : Fields → Fields → Fields → Option Renames
unfolding conflicts taken free_name name_fuel
find_renames target_section extra_section end = some []
find_renames target_section extra_section (field name schema rest) =
    elim (find_renames target_section extra_section rest) [
      | none ↦ none
      | some renames ↦
          if conflicts target_section name schema
          then elim (free_name (taken target_section extra_section) name
              (name_fuel target_section extra_section) name 2) [
                | some candidate ↦ some ((name, candidate) ∷ renames)
                | none ↦ none
              ]
          else some renames
    ]

-- `if (!(name in fields)) fields[name] = value`
unfoldable pub place : String → Json → Fields → Fields
unfolding is_in write
place name value fs = if is_in name fs then fs else write name value fs

-- The loop over `Object.entries(extraSection)`.
unfoldable pub copy_entries : Renames → Fields → Fields → Fields
unfolding place final_name
copy_entries renames end target_section = target_section
copy_entries renames (field name schema rest) target_section =
    copy_entries renames rest (place (final_name renames name) schema target_section)

-- `value[key]` where `isRecord(value[key])`
unfoldable pub record_at : String → Fields → Option Fields
unfolding read record_of
record_at key fs = elim (read key fs) [ some v ↦ record_of v | none ↦ none ]

-- `extraDoc.components[section]`
unfoldable pub section_of : String → Fields → Option Fields
unfolding record_at
section_of section extra_doc = elim (record_at "components" extra_doc) [
  | some components ↦ record_at section components
  | none ↦ none
]

-- The section after the copy, and the extra document after its rewriting.
unfoldable pub merge_section : String → Fields → Fields → Option (Fields × Fields)
unfolding section_of object_at find_renames copy_entries rewrite_doc write
merge_section section target extra_doc = elim (section_of section extra_doc) [
  | none ↦ some (target, extra_doc)
  | some extra_section ↦
      let target_section = object_at section target in
      elim (find_renames target_section extra_section extra_section) [
        | none ↦ none
        | some renames ↦
            let rewritten = rewrite_doc section renames extra_doc in
            let entries = or_else (section_of section rewritten) end in
            some (
              write section (object (copy_entries renames entries target_section)) target,
              rewritten,
            )
      ]
]

abbrev pub component_sections : List String
component_sections = "schemas" ∷ "responses" ∷ "parameters" ∷ "securitySchemes" ∷ []

-- The renames of a section, as `merge_section` finds them.
unfoldable pub section_renames : String → Fields → Fields → Renames
unfolding section_of object_at find_renames
section_renames section target extra_doc = elim (section_of section extra_doc) [
  | none ↦ []
  | some extra_section ↦
      or_else (find_renames (object_at section target) extra_section extra_section) []
]

-- The loop over the sections, with the entries that the earlier rounds have copied.
unfoldable pub merge_sections : Fields → List String → Fields → Fields → Option (Fields × Fields)
unfolding merge_section rewrite_shared section_renames
merge_sections before [] target extra_doc = some (target, extra_doc)
merge_sections before (section ∷ sections) target extra_doc =
    let renames = section_renames section target extra_doc in
    elim (merge_section section (rewrite_shared section renames before target) extra_doc) [
      | some (target', extra_doc') ↦ merge_sections before sections target' extra_doc'
      | none ↦ none
    ]

-- The loop over `Object.entries(extra.paths)`.
unfoldable pub copy_paths : Fields → Fields → Fields
unfolding place
copy_paths end paths = paths
copy_paths (field path item rest) paths = copy_paths rest (place path item paths)

-- `mergedPaths` and `mergedComponents`
pub record Merged : Type 0 where
  pub paths : Fields
  pub components : Fields

unfoldable pub merge_extra : Fields → Merged → Option Merged
unfolding merge_sections copy_paths record_at
merge_extra extra_doc merged =
    elim (merge_sections merged.components component_sections merged.components extra_doc) [
      | none ↦ none
      | some (components, rewritten) ↦ some (record {
        paths = copy_paths (or_else (record_at "paths" rewritten) end) merged.paths;
        components = components;
      })
    ]

unfoldable pub merge_extras : List Fields → Merged → Option Merged
unfolding merge_extra
merge_extras [] merged = some merged
merge_extras (extra ∷ extras) merged = elim (merge_extra extra merged) [
  | some merged' ↦ merge_extras extras merged'
  | none ↦ none
]

-- The whole merge, for a base document with paths and components written back into it.
unfoldable pub merge_documents : Fields → List Fields → Option Fields
unfolding merge_extras object_at write
merge_documents base extras =
    elim (merge_extras extras
      (record { paths = object_at "paths" base; components = object_at "components" base })) [
        | some merged ↦ some (
            write "components" (object merged.components)
              (write "paths" (object merged.paths) base))
        | none ↦ none
      ]
