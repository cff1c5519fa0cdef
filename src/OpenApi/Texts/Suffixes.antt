-- ===== src/OpenApi/Texts/Suffixes.antt =====
-- Two texts of the form `${name}_${suffix}` are one only for the same name and the same number.
use Prim.Native.Char.{Char, char, code}
use Prim.Native.String.{◌++◌ as append}
use Prim.Native.String.append
use mathlib.Core.Path.{subst}
use express_monorepo_bank_te.Base.{
  ℕ, zero, suc, true, false, ◌+◌, ◌-◌, ◌*◌, ◌/◌, ◌%◌, ◌<◌, ◌≤◌, String, ◌≡◌, ◌≢◌, refl, sym, ap,
  ◌∙◌, ltb, if◌then◌else◌, arith, Bool-cases, inl, inr,
}
use express_monorepo_bank_te.OpenApi.Texts.{digit, decimal_before, decimal, suffixed}

-- The number that a text of digits stands for, after a number read before it.
value : ℕ → String → ℕ
value n String.[] = n
value n (String.◌∷◌ c s) = value (n * 10 + (code c - 48)) s

-- No underscore.
abbrev Plain : String → Type 0
Plain String.[] = Unit {0}
Plain (String.◌∷◌ c s) = (code c ≢ 95) × Plain s

code-digit : (d : ℕ) → d < 10 → code (digit d) ≡ d + 48
unfolding digit
code-digit zero h = refl
code-digit (suc zero) h = refl
code-digit (suc (suc zero)) h = refl
code-digit (suc (suc (suc zero))) h = refl
code-digit (suc (suc (suc (suc zero)))) h = refl
code-digit (suc (suc (suc (suc (suc zero))))) h = refl
code-digit (suc (suc (suc (suc (suc (suc zero)))))) h = refl
code-digit (suc (suc (suc (suc (suc (suc (suc zero))))))) h = refl
code-digit (suc (suc (suc (suc (suc (suc (suc (suc zero)))))))) h = refl
code-digit (suc (suc (suc (suc (suc (suc (suc (suc (suc zero))))))))) h = refl
code-digit (suc (suc (suc (suc (suc (suc (suc (suc (suc (suc d)))))))))) h =
    absurd (omega (arith, h))

digit-le : (d : ℕ) → code (digit d) ≤ 57
unfolding digit
digit-le zero = omega arith
digit-le (suc zero) = omega arith
digit-le (suc (suc zero)) = omega arith
digit-le (suc (suc (suc zero))) = omega arith
digit-le (suc (suc (suc (suc zero)))) = omega arith
digit-le (suc (suc (suc (suc (suc zero))))) = omega arith
digit-le (suc (suc (suc (suc (suc (suc zero)))))) = omega arith
digit-le (suc (suc (suc (suc (suc (suc (suc zero))))))) = omega arith
digit-le (suc (suc (suc (suc (suc (suc (suc (suc zero)))))))) = omega arith
digit-le (suc (suc (suc (suc (suc (suc (suc (suc (suc zero))))))))) = omega arith
digit-le (suc (suc (suc (suc (suc (suc (suc (suc (suc (suc d)))))))))) = omega arith

value-decimal_before :
    (fuel n : ℕ) (t : String) → n < fuel → value 0 (decimal_before fuel n t) ≡ value n t
unfolding decimal_before value
value-decimal_before zero n t h = absurd (omega (arith, h))
value-decimal_before (suc fuel) n t h = elim (Bool-cases (ltb n 10)) [
  | inl small ↦ rw small (ap (λ m. value m t) (ground (arith, code-digit n)))
  | inr large ↦ rw large (
      value-decimal_before fuel (n / 10) (String.◌∷◌ (digit (n % 10)) t) (ground arith)
      ∙ ap (λ m. value m t) (ground (arith, code-digit (n % 10))))
]

decimal_before-Plain : (fuel n : ℕ) (t : String) → Plain t → Plain (decimal_before fuel n t)
unfolding decimal_before
decimal_before-Plain zero n t h = h
decimal_before-Plain (suc fuel) n t h =
    elim (ltb n 10)
      as (λ b. Plain (
        if b
        then String.◌∷◌ (digit n) t
        else decimal_before fuel (n / 10) (String.◌∷◌ (digit (n % 10)) t))) [
          | true ↦ (λ e. absurd (omega (arith, digit-le n)), h)
          | false ↦
              decimal_before-Plain fuel (n / 10) (String.◌∷◌ (digit (n % 10)) t)
                ((λ e. absurd (omega (arith, digit-le (n % 10)))), h)
        ]

pub decimal-injective : (m n : ℕ) → decimal m ≡ decimal n → m ≡ n
unfolding decimal value
decimal-injective m n e =
    sym (value-decimal_before (suc m) m String.[] (omega arith))
    ∙ ap (value 0) e
    ∙ value-decimal_before (suc n) n String.[] (omega arith)

decimal-Plain : (n : ℕ) → Plain (decimal n)
unfolding decimal
decimal-Plain n = decimal_before-Plain (suc n) n String.[] tt

-- A text followed by an underscore is not plain.
Plain-append : (s d : String) → ¬ Plain (append s (String.◌∷◌ (char 95 tt) d))
Plain-append String.[] d h = absurd ((rw append.nil at h).0 refl)
Plain-append (String.◌∷◌ c s) d h = Plain-append s d (rw append.cons at h).1

heads :
    (c k : Char) (s t u v : String) → append (String.◌∷◌ c s) u ≡ append (String.◌∷◌ k t) v → c ≡ k
heads c k s t u v h = cc (append.cons c s u, append.cons k t v)

tails :
    (c k : Char) (s t u v : String)
    → append (String.◌∷◌ c s) u ≡ append (String.◌∷◌ k t) v
    → append s u ≡ append t v
tails c k s t u v h = cc (append.cons c s u, append.cons k t v)

tail_of_left :
    (c : Char) (t d u : String)
    → append String.[] (String.◌∷◌ (char 95 tt) d) ≡ append (String.◌∷◌ c t) u
    → d ≡ append t u
tail_of_left c t d u h = cc (append.nil (String.◌∷◌ (char 95 tt) d), append.cons c t u)

underscore : (s d : String) → append s (String.◌∷◌ (char 95 tt) d) ≡ append s (append "_" d)
underscore s d = ap (append s) (cc (append.cons (char 95 tt) String.[] d, append.nil d))

-- The last underscore is found again.
split_last :
    (s t d e : String)
    → Plain d
    → Plain e
    → append s (String.◌∷◌ (char 95 tt) d) ≡ append t (String.◌∷◌ (char 95 tt) e)
    → (s ≡ t) × (d ≡ e)
split_last String.[] String.[] d e p q h =
    (refl, cc (append.nil (String.◌∷◌ (char 95 tt) d), append.nil (String.◌∷◌ (char 95 tt) e)))
split_last String.[] (String.◌∷◌ c t) d e p q h =
    absurd (Plain-append t e (subst Plain (tail_of_left c t d (String.◌∷◌ (char 95 tt) e) h) p))
split_last (String.◌∷◌ c s) String.[] d e p q h =
    absurd
      (Plain-append s d (subst Plain (tail_of_left c s e (String.◌∷◌ (char 95 tt) d) (sym h)) q))
split_last (String.◌∷◌ c s) (String.◌∷◌ k t) d e p q h =
    let (same, digits) = split_last s t d e p q (tails c k s t _ _ h) in
    (cc (heads c k s t _ _ h, same), digits)

-- One name for one text, and one number.
pub suffixed-injective :
    (name name' : String) (m n : ℕ) → suffixed name m ≡ suffixed name' n → (name ≡ name') × (m ≡ n)
unfolding suffixed
suffixed-injective name name' m n h =
    let (same, digits) =
      split_last name name' (decimal m) (decimal n) (decimal-Plain m) (decimal-Plain n)
        (underscore name (decimal m) ∙ h ∙ sym (underscore name' (decimal n))) in
    (same, decimal-injective m n digits)
