-- ===== src/OpenApi/Docs/Answers.antt =====
-- What the requests for the document of packages/shared/src/openapi/docs-router.ts are answered with.
use mathlib.Core.Path.{subst}
use express_monorepo_bank_te.Base.{
  Bool, true, false, ◌||◌, Option, none, some, List, [], ◌∷◌, ◌≡◌, refl, if◌then◌else◌, not, any_of,
  is_some, arith, Option-cases, inl, inr,
}
use express_monorepo_bank_te.OpenApi.Json.{null, object, Fields}
use express_monorepo_bank_te.OpenApi.Merge.{object_at}
use express_monorepo_bank_te.OpenApi.Merge.Keeps.{Keeps, KeepsSections}
use express_monorepo_bank_te.OpenApi.Merge.BaseWins.{merge_documents-Keeps}
use express_monorepo_bank_te.OpenApi.Docs.{
  Fetched, failed, response, answered, all_answered, documents_of, merge_remotes, merge_fetched,
  get_document, get_documents,
}

-- A document with all that the local one has.
abbrev pub IsFull : Fields → Fields → Type 0
IsFull local doc =
    Keeps (object_at "paths" local) (object_at "paths" doc)
    × KeepsSections (object_at "components" local) (object_at "components" doc)

-- A response that is `ok` and whose body is the JSON text `null`.
abbrev pub is_null_response : Fetched → Bool
is_null_response (response true (some null)) = true
is_null_response _ = false

-- The answers to rounds of fetches, `filled` being whether the document is settled: full documents, and an
-- error where a source answers `null` before that. It is settled once every source answered a round.
pub data AreFull (local : Fields) : Bool → List (List Fetched) → List (Option Fields) → Type 0 where
  nothing : {filled : Bool} → AreFull local filled [] []
  served :
      {filled : Bool} {fetched : List Fetched} {rounds : List (List Fetched)}
      {docs : List (Option Fields)} (doc : Fields)
      → (filled || not (any_of is_null_response fetched)) ≡ true
      → IsFull local doc
      → AreFull local (filled || all_answered fetched) rounds docs
      → AreFull local filled (fetched ∷ rounds) (some doc ∷ docs)
  broken :
      {fetched : List Fetched} {rounds : List (List Fetched)} {docs : List (Option Fields)}
      → any_of is_null_response fetched ≡ true
      → AreFull local false rounds docs
      → AreFull local false (fetched ∷ rounds) (none ∷ docs)

-- A cache that is empty, or holds a document with all that the local one has.
abbrev IsFit : Fields → Option Fields → Type 0
IsFit local none = Unit {0}
IsFit local (some doc) = IsFull local doc

IsFit-if :
    (local doc : Fields) (b : Bool) → IsFull local doc → IsFit local (if b then some doc else none)
IsFit-if local doc true h = h
IsFit-if local doc false h = tt

-- The merge has its documents where none is `null`.
documents_of-answered :
    (fetched : List Fetched)
    → is_some (documents_of (answered fetched)) ≡ not (any_of is_null_response fetched)
unfolding documents_of
documents_of-answered [] = refl
documents_of-answered (failed ∷ fetched) = documents_of-answered fetched
documents_of-answered (response false body ∷ fetched) = documents_of-answered fetched
documents_of-answered (response true none ∷ fetched) = documents_of-answered fetched
documents_of-answered (response true (some null) ∷ fetched) = ground arith
documents_of-answered (response true (some (object fs)) ∷ fetched) =
    ground (arith, documents_of-answered fetched)
documents_of-answered (response true (some _) ∷ fetched) =
    ground (arith, documents_of-answered fetched)

abbrev filled_of : Bool → Option Fields → Bool
filled_of sources cache = not sources || is_some cache

-- One request with the cache `cache`.
data Answers (local : Fields) (sources : Bool) (cache : Option Fields) (fetched : List Fetched)
    (answer : Option Fields × Option Fields) : Type 0 where
  full :
      (c : Option Fields) (doc : Fields)
      → answer ≡ (c, some doc)
      → (filled_of sources cache || not (any_of is_null_response fetched)) ≡ true
      → filled_of sources c ≡ (filled_of sources cache || all_answered fetched)
      → IsFit local c
      → IsFull local doc
      → Answers local sources cache fetched answer
  thrown :
      answer ≡ (none, none)
      → filled_of sources cache ≡ false
      → filled_of sources none ≡ false
      → any_of is_null_response fetched ≡ true
      → Answers local sources cache fetched answer

is_some-if :
    (doc : Fields) (b : Bool)
    → let c : Option Fields = if b then some doc else none in is_some c ≡ b
is_some-if doc true = refl
is_some-if doc false = refl

merge_fetched-Answers :
    (local : Fields) (fetched : List Fetched)
    → Answers local true none fetched
        (merge_fetched local true fetched (merge_remotes local (answered fetched)))
unfolding merge_remotes
merge_fetched-Answers local fetched = elim (Option-cases (documents_of (answered fetched))) [
  | inl fails ↦
      thrown (rw (fails, merge_fetched) refl) refl refl
        (ground (arith, fails, documents_of-answered fetched))
  | inr (extras, known) ↦
      let (merged, done, paths, components) = merge_documents-Keeps local extras in
      let kept : IsFull local merged = (paths, components) in
      full (if all_answered fetched then some merged else none) merged
        (rw (known, done, merge_fetched) refl)
        (ground (arith, known, documents_of-answered fetched))
        (is_some-if merged (all_answered fetched))
        (IsFit-if local merged (all_answered fetched) kept) kept
]

get_document-Answers :
    (local : Fields) (sources : Bool) (cache : Option Fields) (fetched : List Fetched)
    → IsFit local cache
    → Answers local sources cache fetched (get_document local sources cache fetched)
unfolding get_document
get_document-Answers local false cache fetched h =
    full cache local refl refl refl h ((λ key v k. k), (λ section key v k. k))
get_document-Answers local true (some doc) fetched h = full (some doc) doc refl refl refl h h
get_document-Answers local true none fetched h = merge_fetched-Answers local fetched

documents-AreFull :
    (local : Fields) (sources : Bool) (cache : Option Fields) (rounds : List (List Fetched))
    → IsFit local cache
    → AreFull local (filled_of sources cache) rounds (get_documents local sources cache rounds)
unfolding get_documents
documents-AreFull local sources cache [] h = nothing
documents-AreFull local sources cache (fetched ∷ later) h =
    elim (get_document-Answers local sources cache fetched h) [
      | full c doc answer whole filled fit kept ↦
          rw answer
            (served doc whole kept (rw (← filled) (documents-AreFull local sources c later fit)))
      | thrown answer unfilled still sent ↦
          rw (answer, unfilled)
            (broken sent (
              subst (λ filled. AreFull local filled later (get_documents local sources none later))
                still (documents-AreFull local sources none later tt)))
    ]

-- A request for the document is answered with a document that has every path and every component of the
-- local one, unchanged, whatever the other services answer to its round of fetches, with one exception: where a
-- service answers the JSON body `null`, and no earlier round had an answer of every service, the answer is an
-- error. Without other services there is no such error, and after one the next requests are answered in the
-- same way.
pub get_documents-AreFull :
    (local : Fields) (sources : Bool) (rounds : List (List Fetched))
    → AreFull local (not sources) rounds (get_documents local sources none rounds)
get_documents-AreFull local true rounds = documents-AreFull local true none rounds tt
get_documents-AreFull local false rounds = documents-AreFull local false none rounds tt
