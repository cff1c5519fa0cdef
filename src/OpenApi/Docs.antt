-- ===== src/OpenApi/Docs.antt =====
-- packages/shared/src/openapi/docs-router.ts, `fetchSpec` and `getDocument`; and `toOpenApiPath` of
-- registry.ts. What the other services answer to a round of fetches is an argument.
pub mod Answers
use Prim.Native.Char.{Char, char, code}
use express_monorepo_bank_te.Base.{
  String, Bool, true, false, ◌||◌, ◌&&◌, Option, none, some, List, [], ◌∷◌, ◌==◌, leb,
  if◌then◌else◌, not, str_eq,
}
use express_monorepo_bank_te.OpenApi.Json.{
  Json, null, boolean, number, text, array, object, Fields, end,
}
use express_monorepo_bank_te.OpenApi.Merge.{merge_documents}

-- A fetch that failed, or a response: whether it is `ok`, and its body, if that is JSON.
pub data Fetched : Type 0 where
  failed : Fetched
  response : Bool → Option Json → Fetched

-- `fetchSpec`; a body that is no JSON makes `response.json()` throw, and a JSON body is returned whatever it is.
abbrev pub fetch_spec : Fetched → Option Json
fetch_spec failed = none
fetch_spec (response false body) = none
fetch_spec (response true body) = body

-- `remotes.filter((doc) => doc !== undefined)`
abbrev pub answered : List Fetched → List Json
answered [] = []
answered (f ∷ fetched) = elim (fetch_spec f) [
  | some doc ↦ doc ∷ answered fetched
  | none ↦ answered fetched
]

-- `Boolean(doc)`
abbrev pub is_truthy : Json → Bool
is_truthy null = false
is_truthy (boolean b) = b
is_truthy (number n) = not (str_eq n "0")
is_truthy (text t) = not (str_eq t "")
is_truthy (array xs) = true
is_truthy (object fs) = true

abbrev is_answer : Option Json → Bool
is_answer none = false
is_answer (some doc) = is_truthy doc

-- `remotes.every(Boolean)`
abbrev pub all_answered : List Fetched → Bool
all_answered [] = true
all_answered (f ∷ fetched) = is_answer (fetch_spec f) && all_answered fetched

-- What the merge reads `components` and `paths` of: a value that is no object has neither, and `null` throws.
abbrev pub properties_of : Json → Option Fields
properties_of null = none
properties_of (object fs) = some fs
properties_of _ = some end

-- The extra documents of the merge; `none` is the TypeError that one of them throws.
unfoldable pub documents_of : List Json → Option (List Fields)
documents_of [] = some []
documents_of (doc ∷ docs) = elim (documents_of docs) [
  | some rest ↦ elim (properties_of doc) [ some fs ↦ some (fs ∷ rest) | none ↦ none ]
  | none ↦ none
]

-- `mergeOpenApiDocuments` on what was fetched.
unfoldable pub merge_remotes : Fields → List Json → Option Fields
unfolding documents_of merge_documents
merge_remotes local docs = elim (documents_of docs) [
  | some extras ↦ merge_documents local extras
  | none ↦ none
]

-- `local` is the service's own document, `sources` whether there are URLs to merge.
module _ (local : Fields) (sources : Bool) where
  -- The cache and the document, of the fetches and the merge; a merge that throws leaves the cache.
  abbrev pub merge_fetched : List Fetched → Option Fields → Option Fields × Option Fields
  merge_fetched fetched none = (none, none)
  merge_fetched fetched (some merged) =
      (if all_answered fetched then some merged else none, some merged)

  -- `getDocument`, from the cache and one round of fetches to the cache and the document, or `none` where it
  -- throws and the request is answered with an internal error.
  unfoldable pub get_document : Option Fields → List Fetched → Option Fields × Option Fields
  unfolding merge_remotes
  get_document cache fetched =
      if sources
      then elim cache [
        | some doc ↦ (some doc, some doc)
        | none ↦ merge_fetched fetched (merge_remotes local (answered fetched))
      ]
      else (cache, some local)

  -- The documents that a sequence of requests is answered with.
  unfoldable pub get_documents : Option Fields → List (List Fetched) → List (Option Fields)
  unfolding get_document
  get_documents cache [] = []
  get_documents cache (fetched ∷ later) =
      let answer = get_document cache fetched in answer.1 ∷ get_documents answer.0 later

-- `/[A-Za-z0-9_]/`
abbrev pub is_word : Char → Bool
is_word c =
    let n = code c in
    (leb 48 n && leb n 57) || (leb 65 n && leb n 90) || (leb 97 n && leb n 122) || n == 95

-- Within a parameter, `}` comes before the first character that is none of its name.
unfoldable mutual
  pub to_openapi_path : String → String
  to_openapi_path String.[] = String.[]
  to_openapi_path (String.◌∷◌ c s) =
      if code c == 58 then after_colon s else String.◌∷◌ c (to_openapi_path s)

  -- A colon with no name after it is left.
  pub after_colon : String → String
  after_colon String.[] = ":"
  after_colon (String.◌∷◌ c s) =
      if is_word c
      then String.◌∷◌ (char 123 tt) (String.◌∷◌ c (in_name s))
      else if code c == 58
      then String.◌∷◌ (char 58 tt) (after_colon s)
      else String.◌∷◌ (char 58 tt) (String.◌∷◌ c (to_openapi_path s))

  pub in_name : String → String
  in_name String.[] = "}"
  in_name (String.◌∷◌ c s) =
      if is_word c
      then String.◌∷◌ c (in_name s)
      else if code c == 58
      then String.◌∷◌ (char 125 tt) (after_colon s)
      else String.◌∷◌ (char 125 tt) (String.◌∷◌ c (to_openapi_path s))
