-- ===== src/OpenApi/Merge/References.antt =====
-- The references of a document, packages/shared/src/openapi/merge.ts: `rewriteRefs` (lines 24 to 40), and
-- what it does to the entries that the merge has copied.
use Prim.Native.String.{◌++◌ as append}
use express_monorepo_bank_te.Base.{
  String, Option, none, some, List, [], ◌∷◌, or_else, is_some, str_eq, if◌then◌else◌,
}
use express_monorepo_bank_te.OpenApi.Json.{
  Json, null, boolean, number, text, array, object, Items, nil, cons, Fields, end, field, read,
}
use express_monorepo_bank_te.OpenApi.Texts.{after_prefix}

-- `new Map<string, string>()`, from a component's name to its new one
abbrev pub Renames : Type 0
Renames = List (String × String)

unfoldable pub renamed : Renames → String → Option String
renamed [] name = none
renamed ((old, new) ∷ renames) name = if str_eq old name then some new else renamed renames name

-- `renames.get(name) ?? name`
unfoldable pub final_name : Renames → String → String
unfolding renamed
final_name renames name = or_else (renamed renames name) name

-- The text of a `$ref`; an empty new name is no name.
unfoldable pub rewrite_ref : String → Renames → String → String
unfolding renamed after_prefix
rewrite_ref section renames ref =
    let prefix = append "#/components/" (append section "/") in
    elim (after_prefix prefix ref) [
      | some old ↦ elim (renamed renames old) [
        | some new ↦ if str_eq new "" then ref else append prefix new
        | none ↦ ref
      ]
      | none ↦ ref
    ]

unfoldable mutual
  unfolding rewrite_ref

  -- `section` is that of the names, `renames` from old to new.
  pub rewrite_refs : String → Renames → Json → Json
  rewrite_refs section renames null = null
  rewrite_refs section renames (boolean b) = boolean b
  rewrite_refs section renames (number n) = number n
  rewrite_refs section renames (text t) = text t
  rewrite_refs section renames (array xs) = array (rewrite_items section renames xs)
  rewrite_refs section renames (object fs) = object (rewrite_fields section renames fs)

  pub rewrite_items : String → Renames → Items → Items
  rewrite_items section renames nil = nil
  rewrite_items section renames (cons x xs) =
      cons (rewrite_refs section renames x) (rewrite_items section renames xs)

  pub rewrite_fields : String → Renames → Fields → Fields
  rewrite_fields section renames end = end
  rewrite_fields section renames (field k (text t) rest) =
      field k (text (if str_eq k "$ref" then rewrite_ref section renames t else t))
        (rewrite_fields section renames rest)
  rewrite_fields section renames (field k v rest) =
      field k (rewrite_refs section renames v) (rewrite_fields section renames rest)

-- `target[section] ??= {}`, an object by its type
unfoldable pub object_at : String → Fields → Fields
unfolding read
object_at key fs = elim (read key fs) [ some (object gs) ↦ gs | _ ↦ end ]

-- `if (renames.size > 0) rewriteRefs(extraDoc, section, renames)`
unfoldable pub rewrite_doc : String → Renames → Fields → Fields
unfolding rewrite_refs
rewrite_doc section [] extra_doc = extra_doc
rewrite_doc section renames extra_doc = rewrite_fields section renames extra_doc

-- `targetSection[finalName] = schema` makes the extra document and the target share the entry: what
-- `rewriteRefs` later changes in the extra document is changed in the target. An entry is shared where the
-- section had none of its name when the merge of the extra document began, `old` being the section then.
unfoldable pub rewrite_copied : String → Renames → Fields → Fields → Fields
unfolding read rewrite_refs
rewrite_copied section renames old end = end
rewrite_copied section renames old (field name schema rest) =
    field name (if is_some (read name old) then schema else rewrite_refs section renames schema)
      (rewrite_copied section renames old rest)

-- The same in every section of the target, `before` being the target when the extra's merge began.
unfoldable pub rewrite_entries : String → Renames → Fields → Fields → Fields
unfolding rewrite_copied object_at
rewrite_entries section renames before end = end
rewrite_entries section renames before (field j (object entries) rest) =
    field j (object (rewrite_copied section renames (object_at j before) entries))
      (rewrite_entries section renames before rest)
rewrite_entries section renames before (field j v rest) =
    field j v (rewrite_entries section renames before rest)

-- What the rewriting of the extra document does to the target.
unfoldable pub rewrite_shared : String → Renames → Fields → Fields → Fields
unfolding rewrite_entries
rewrite_shared section [] before target = target
rewrite_shared section renames before target = rewrite_entries section renames before target
