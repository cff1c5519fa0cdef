-- ===== src/OpenApi/Texts.antt =====
-- The texts of packages/shared/src/openapi/merge.ts: `ref.startsWith(prefix)` with
-- `ref.slice(prefix.length)`, and the template `${name}_${suffix}`.
use Prim.Native.Char.{Char, char, code}
use Prim.Native.String.{◌++◌ as append}
use Prim.Native.String
use express_monorepo_bank_te.Base.{
  ℕ, zero, suc, ◌+◌, ◌/◌, ◌%◌, String, Option, none, some, ltb, ◌==◌, if◌then◌else◌,
}
pub mod Suffixes

-- The rest of a text after a prefix, if the text starts with it.
unfoldable pub after_prefix : String → String → Option String
after_prefix String.[] t = some t
after_prefix (String.◌∷◌ c s) String.[] = none
after_prefix (String.◌∷◌ c s) (String.◌∷◌ d t) = if code c == code d then after_prefix s t else none

unfoldable pub digit : ℕ → Char
digit zero = char 48 tt
digit (suc zero) = char 49 tt
digit (suc (suc zero)) = char 50 tt
digit (suc (suc (suc zero))) = char 51 tt
digit (suc (suc (suc (suc zero)))) = char 52 tt
digit (suc (suc (suc (suc (suc zero))))) = char 53 tt
digit (suc (suc (suc (suc (suc (suc zero)))))) = char 54 tt
digit (suc (suc (suc (suc (suc (suc (suc zero))))))) = char 55 tt
digit (suc (suc (suc (suc (suc (suc (suc (suc zero)))))))) = char 56 tt
digit _ = char 57 tt

-- The digits of a whole number before a text; a number has fewer digits than the fuel `n + 1`.
unfoldable pub decimal_before : ℕ → ℕ → String → String
decimal_before zero n t = t
decimal_before (suc fuel) n t =
    let longer = decimal_before fuel (n / 10) (String.◌∷◌ (digit (n % 10)) t) in
    if ltb n 10 then String.◌∷◌ (digit n) t else longer

-- A whole number as JavaScript prints it.
unfoldable pub decimal : ℕ → String
decimal n = decimal_before (suc n) n ""

unfoldable pub suffixed : String → ℕ → String
suffixed name suffix = append name (append "_" (decimal suffix))
