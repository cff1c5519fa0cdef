-- ===== src/Base/Int.antt =====
-- Integers over the native numbers, and the two's complement reading of a machine word.
use Prim.Native.Nat.{ℕ, ◌-◌, ◌*◌}
use mathlib.Core.Bool.{Bool}
use express_monorepo_bank_te.Base.Tests.{ltb, if◌then◌else◌}

-- `negsuc n` is -(n + 1).
pub data ℤ : Type 0 where
  pos : ℕ → ℤ
  negsuc : ℕ → ℤ

-- The integer that a word of `2 * half` values stands for.
unfoldable pub to_signed : ℕ → ℕ → ℤ
to_signed half n = if ltb n half then pos n else negsuc (2 * half - 1 - n)

-- The word of an integer, where it has one.
unfoldable pub of_signed : ℕ → ℤ → ℕ
of_signed half (pos n) = n
of_signed half (negsuc n) = 2 * half - 1 - n

-- An integer between -half and half - 1.
abbrev pub in_signed_range : ℕ → ℤ → Bool
in_signed_range half (pos n) = ltb n half
in_signed_range half (negsuc n) = ltb n half
