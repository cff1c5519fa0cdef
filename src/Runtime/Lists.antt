-- ===== src/Runtime/Lists.antt =====
-- The comma-separated lists of the environment: `parseBrokers` of apps/telemetry-ingest/src/env.ts
-- (lines 34 to 40) and apps/telemetry-consumers/src/env.ts, and the same transformation of
-- `CORS_ALLOWED_ORIGINS` and `DOCS_MERGE_SPEC_URLS` in the APIs.
use Prim.Native.Char.{Char, code, char}
use Prim.Native.String.{◌++◌ as append}
use Prim.Native.String.append
use express_monorepo_bank_te.Base.{
  String, Bool, true, false, ◌||◌, ◌&&◌, not, List, [], ◌∷◌, ◌≡◌, refl, ap, ◌∙◌, map, select, All,
  str_eq, ◌==◌, leb, if◌then◌else◌,
}

-- The white space of JavaScript's `trim`.
abbrev pub is_space : Char → Bool
is_space c =
    let n = code c in
    (leb 9 n && leb n 13)
    || n == 32
    || n == 160
    || n == 5760
    || (leb 8192 n && leb n 8202)
    || n == 8232
    || n == 8233
    || n == 8239
    || n == 8287
    || n == 12288
    || n == 65279

unfoldable pub trim_start : String → String
trim_start String.[] = String.[]
trim_start (String.◌∷◌ c s) = if is_space c then trim_start s else String.◌∷◌ c s

abbrev pub keep_char : Char → String → String
keep_char c String.[] = if is_space c then String.[] else String.◌∷◌ c String.[]
keep_char c (String.◌∷◌ d t) = String.◌∷◌ c (String.◌∷◌ d t)

unfoldable pub trim_end : String → String
trim_end String.[] = String.[]
trim_end (String.◌∷◌ c s) = keep_char c (trim_end s)

-- `value.trim()`
unfoldable pub trim : String → String
unfolding trim_start trim_end
trim s = trim_end (trim_start s)

abbrev pub push_char : Char → List String → List String
push_char c [] = String.◌∷◌ c String.[] ∷ []
push_char c (w ∷ words) = String.◌∷◌ c w ∷ words

-- `value.split(',')`
unfoldable pub split : String → List String
split String.[] = String.[] ∷ []
split (String.◌∷◌ c s) =
    let words = split s in if code c == 44 then String.[] ∷ words else push_char c words

abbrev pub has_text : String → Bool
has_text w = not (str_eq w "")

-- `value.split(',').map((v) => v.trim()).filter((v) => v.length > 0)`
unfoldable pub parse_list : String → List String
unfolding split trim
parse_list value = select has_text (map trim (split value))

-- The words with commas between them, as an operator writes the setting.
unfoldable pub join : List String → String
join [] = ""
join (w ∷ []) = w
join (w ∷ v ∷ words) = append w (String.◌∷◌ (char 44 tt) (join (v ∷ words)))

-- No comma in the text.
abbrev pub OneWord : String → Type 0
OneWord String.[] = Unit {0}
OneWord (String.◌∷◌ c s) = ((code c == 44) ≡ false) × OneWord s

-- A value that a list can hold: not empty, no comma, no white space at its ends.
abbrev pub IsClean : String → Type 0
IsClean w = (has_text w ≡ true) × OneWord w × (trim w ≡ w)

split-word : (w : String) → OneWord w → split w ≡ w ∷ []
unfolding split
split-word String.[] h = refl
split-word (String.◌∷◌ c s) h = rw (h.0, split-word s h.1)

split-append :
    (w s : String) → OneWord w → split (append w (String.◌∷◌ (char 44 tt) s)) ≡ w ∷ split s
unfolding split
split-append String.[] s h = rw append.nil
split-append (String.◌∷◌ c w) s h = rw append.cons (rw (h.0, split-append w s h.1))

split-join_cons :
    (w : String) (words : List String)
    → All IsClean (w ∷ words)
    → split (join (w ∷ words)) ≡ w ∷ words
unfolding join
split-join_cons w [] h = split-word w h.0.1
split-join_cons w (v ∷ words) h =
    split-append w (join (v ∷ words)) h.0.1 ∙ ap (λ ws. w ∷ ws) (split-join_cons v words h.1)

clean_kept : (words : List String) → All IsClean words → select has_text (map trim words) ≡ words
clean_kept [] h = refl
clean_kept (w ∷ words) h = rw (h.0.2, h.0.0, clean_kept words h.1)

-- A list of values, each not empty, without a comma and without white space at its ends, is read
-- back from its text with commas between the values.
pub parse_list-join : (words : List String) → All IsClean words → parse_list (join words) ≡ words
unfolding parse_list join
parse_list-join [] h = refl
parse_list-join (w ∷ words) h =
    ap (λ ws. select has_text (map trim ws)) (split-join_cons w words h) ∙ clean_kept (w ∷ words) h
