-- ===== src/Examples/Documents.antt =====
-- Tests of the merge of OpenAPI documents, packages/shared/src/openapi/merge.ts.
use mathlib.Core.Option
use express_monorepo_bank_te.Base.{
  map, is_some, List, none, String, ◌≡◌, refl, ◌⊎◌, some, [], ◌∷◌, true, false,
}
use express_monorepo_bank_te.OpenApi.Json.{
  Json, null, number, text, object, Fields, end, field, read, keys, is_in, count_fields, deep_equal,
}
use express_monorepo_bank_te.OpenApi.Texts.{digit, decimal_before, decimal}
use express_monorepo_bank_te.OpenApi.Merge.{
  Renames, final_name, object_at, rewrite_doc, merge_section, merge_documents,
}
use express_monorepo_bank_te.OpenApi.Docs.{
  Fetched, failed, response, get_documents, to_openapi_path,
}
use express_monorepo_bank_te.OpenApi.Docs.Answers.{AreFull, get_documents-AreFull}
use express_monorepo_bank_te.OpenApi.Merge.Sections.{merge_section_places}

-- A schema of one type, and a reference to the schema `Owner`.
abbrev typed : String → Fields
typed t = field "type" (text t) end

abbrev owner_ref : Json
owner_ref = object (field "$ref" (text "#/components/schemas/Owner") end)

-- A document with the schemas `Owner` and `Account`, and a path that uses `Account`.
abbrev schemas : String → Fields
schemas t = field "Owner" (object (typed t)) (field "Account" owner_ref end)

abbrev components : String → Fields
components t = field "schemas" (object (schemas t)) end

abbrev document : String → String → Fields
document t path =
    field "paths" (object (field path (object (typed path)) end))
      (field "components" (object (components t)) end)

-- The names of the result's schemas: the schema in conflict has a new name, the equal one is not
-- copied.
merged_names :
    Option.map
      (λ merged. keys (object_at "schemas" (object_at "components" merged)))
      (merge_documents (document "string" "/a") (document "number" "/b" ∷ []))
    ≡ some ("Owner" ∷ "Account" ∷ "Owner_2" ∷ [])
unfolding merge_documents keys count_fields decimal decimal_before digit
merged_names = refl

-- Both documents' `Account` refers to their own `Owner`. The result has one `Account`, and it refers
-- to the base's `Owner`, also for the paths of the other document.
merged_account :
    Option.map
      (λ merged. read "Account" (object_at "schemas" (object_at "components" merged)))
      (merge_documents (document "string" "/a") (document "number" "/b" ∷ []))
    ≡ some (some owner_ref)
unfolding merge_documents count_fields decimal decimal_before digit
merged_account = refl

-- A document with a parameter `Page`, and a schema that refers to it.
abbrev paged : String → String → Fields
paged schema t =
    field "components"
      (object (
        field "schemas"
          (object
            (field schema (object (field "$ref" (text "#/components/parameters/Page") end)) end))
          (field "parameters" (object (field "Page" (object (typed t)) end)) end)))
      end

-- The schema is copied before the parameter is renamed, and refers to the new name, since the copy is
-- shared with the document that is rewritten; the base's schema keeps its reference.
shared_reference :
    (Option.map
        (λ merged. read "Pages" (object_at "schemas" (object_at "components" merged)))
        (merge_documents (paged "Report" "string") (paged "Pages" "number" ∷ []))
      ≡ some (some (object (field "$ref" (text "#/components/parameters/Page_2") end))))
    × (Option.map
          (λ merged. read "Report" (object_at "schemas" (object_at "components" merged)))
          (merge_documents (paged "Report" "string") (paged "Pages" "number" ∷ []))
        ≡ some (some (object (field "$ref" (text "#/components/parameters/Page") end))))
unfolding merge_documents keys count_fields decimal decimal_before digit
shared_reference = (refl, refl)

-- The other service does not answer in the first round, answers `null` in the second and a number in the
-- third.
abbrev rounds : List (List Fetched)
rounds =
    (failed ∷ []) ∷ (response true (some null) ∷ []) ∷ (response true (some (number "5")) ∷ []) ∷ []

get_documents-AreFull_example :
    AreFull
      (document "string" "/a")
      false
      rounds
      (get_documents (document "string" "/a") true none rounds)
get_documents-AreFull_example = get_documents-AreFull (document "string" "/a") true rounds

-- The `null` is answered with an error, and nothing else is.
null_fails :
    map is_some (get_documents (document "string" "/a") true none rounds) ≡ true ∷ false ∷ true ∷ []
unfolding get_documents
null_fails = refl

openapi_path : to_openapi_path "/accounts/:accountId/locks" ≡ "/accounts/{accountId}/locks"
unfolding to_openapi_path
openapi_path = refl

merge_section_places_example :
    (renames : Renames) × (target' : Fields) × (merge_section "schemas"
        (components "string")
        (document "number" "/b")
      ≡ some (target', rewrite_doc "schemas" renames (document "number" "/b")))
    × (((is_in (final_name renames "Owner") (object_at "schemas" (components "string")) ≡ false)
          × (read (final_name renames "Owner") (object_at "schemas" target')
              ≡ some (object (rewrite_doc "schemas" renames (typed "number")))))
        ⊎ ((final_name renames "Owner" ≡ "Owner")
            × (w : Json) × (deep_equal w (object (typed "number")) ≡ true)
            × (read "Owner" (object_at "schemas" (components "string")) ≡ some w)
            × (read "Owner" (object_at "schemas" target') ≡ some w)))
unfolding read keys
merge_section_places_example =
    merge_section_places "schemas" (components "string") (document "number" "/b")
      (components "number") (schemas "number") "Owner" (typed "number") refl refl (refl, (refl, tt))
      refl
