-- ===== src/Teltonika/Bytes.antt =====
-- Big-endian numbers: `readUInt…BE` and `writeUInt…BE` of Node's Buffer.
use native.Mathlib.Nat.{pow-suc}
use express_monorepo_bank_te.Base.{
  ℕ, zero, suc, ◌+◌, ◌*◌, ◌/◌, ◌%◌, ◌^◌, ◌<◌, ◌≡◌, refl, ◌∙◌, List, [], ◌∷◌, ◌++◌, length,
  length-append, arith, ltb, if◌then◌else◌, Option, none, some,
}

unfoldable pub be_from : ℕ → List ℕ → ℕ
be_from acc [] = acc
be_from acc (b ∷ bytes) = be_from (acc * 256 + b) bytes

-- The number that the bytes spell.
unfoldable pub be : List ℕ → ℕ
unfolding be_from
be bytes = be_from 0 bytes

-- The last `n` bytes of a number.
unfoldable pub be_bytes : ℕ → ℕ → List ℕ
be_bytes zero v = []
be_bytes (suc n) v = be_bytes n (v / 256) ++ (v % 256) ∷ []

-- A write of `n` bytes throws a RangeError where the number does not fit.
unfoldable pub write_uint : ℕ → ℕ → Option (List ℕ)
unfolding be_bytes
write_uint n v = if ltb v (256 ^ n) then some (be_bytes n v) else none

pub length-be_bytes : (n v : ℕ) → length (be_bytes n v) ≡ n
unfolding be_bytes
length-be_bytes zero v = refl
length-be_bytes (suc n) v =
    omega
      (arith, length-append (be_bytes n (v / 256)) ((v % 256) ∷ []), length-be_bytes n (v / 256))

be_from-append :
    (acc : ℕ) (xs : List ℕ) (b : ℕ) → be_from acc (xs ++ b ∷ []) ≡ be_from acc xs * 256 + b
unfolding be_from
be_from-append acc [] b = refl
be_from-append acc (x ∷ xs) b = be_from-append (acc * 256 + x) xs b

-- A number that fits is read back.
pub be-be_bytes : (n v : ℕ) → v < 256 ^ n → be (be_bytes n v) ≡ v
unfolding be be_bytes
be-be_bytes zero v h = omega arith
be-be_bytes (suc n) v h =
    be_from-append 0 (be_bytes n (v / 256)) (v % 256)
    ∙ omega (arith, be-be_bytes n (v / 256) (omega (arith, h, pow-suc 256 n)))
