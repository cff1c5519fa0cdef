-- ===== src/Teltonika/Crc.antt =====
-- packages/teltonika/src/crc.ts. `x & 1` is `x % 2`, `x >>> 1` is `x / 2` and `x & 0xffff` is
-- `x % 2 ^ 16`.
use Prim.Native.Nat.{bit_xor}
use express_monorepo_bank_te.Base.{
  ℕ, zero, suc, ◌/◌, ◌%◌, ◌^◌, ◌<◌, ◌≡◌, refl, List, [], ◌∷◌, ◌==◌, if◌then◌else◌, arith,
}

-- One round of the inner loop.
unfoldable pub crc_bit : ℕ → ℕ
crc_bit crc = if crc % 2 == 1 then bit_xor (crc / 2) 0xa001 else crc / 2

unfoldable pub crc_bits : ℕ → ℕ → ℕ
unfolding crc_bit
crc_bits zero crc = crc
crc_bits (suc n) crc = crc_bits n (crc_bit crc)

unfoldable pub crc_loop : ℕ → List ℕ → ℕ
unfolding crc_bits
crc_loop crc [] = crc
crc_loop crc (byte ∷ bytes) = crc_loop (crc_bits 8 (bit_xor crc byte)) bytes

-- `crc16ibm`
unfoldable pub crc16ibm : List ℕ → ℕ
unfolding crc_loop
crc16ibm bytes = crc_loop 0 bytes % 2 ^ 16

pub crc16ibm-lt : (bytes : List ℕ) → crc16ibm bytes < 2 ^ 16
unfolding crc16ibm
crc16ibm-lt bytes = omega arith

-- The check value of the algorithm, over the text "123456789".
crc_check : crc16ibm (0x31 ∷ 0x32 ∷ 0x33 ∷ 0x34 ∷ 0x35 ∷ 0x36 ∷ 0x37 ∷ 0x38 ∷ 0x39 ∷ []) ≡ 0xbb3d
unfolding crc16ibm
crc_check = refl
