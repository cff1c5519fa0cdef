-- ===== src/Teltonika/Cursor.antt =====
-- packages/teltonika/src/cursor.ts and errors.ts: the bounds-checked reader.
use express_monorepo_bank_te.Base.{
  ℕ, ◌+◌, ◌^◌, String, List, take, drop, length, ltb, if◌then◌else◌,
}
use express_monorepo_bank_te.Base.Int.{ℤ, to_signed}
use express_monorepo_bank_te.Teltonika.Bytes.{be}

-- The messages of `TeltonikaParseError`, with what they name.
pub data ParseError : Type 0 where
  -- the field, the bytes it needs, the offset, and the bytes that are left
  truncated : String → ℕ → ℕ → ℕ → ParseError
  unsupported_codec : ℕ → ParseError
  bad_preamble : ℕ → ParseError
  -- the declared length and the bytes that follow the header
  short_frame : ℕ → ℕ → ParseError
  -- the header's count and the trailer's
  count_mismatch : ℕ → ℕ → ParseError

pub data Parsed {ℓ} (A : Type ℓ) : Type ℓ where
  ok : A → Parsed A
  err : ParseError → Parsed A

-- `rest` is the buffer from the offset on.
pub record Cursor : Type 0 where
  pub offset : ℕ
  pub rest : List ℕ

-- `new Cursor(buf)`
abbrev pub start : List ℕ → Cursor
start buf = record { offset = 0; rest = buf }

-- A read that may throw; a throw ends the parse, so that the cursor is not needed any more.
abbrev pub Reader : Type 0 → Type 0
Reader A = Cursor → Parsed (A × Cursor)

abbrev pub pure : {A : Type 0} → A → Reader A
pure a c = ok (a, c)

infixl 5 ◌>>=◌ ◌>>◌
abbrev pub ◌>>=◌ : {A B : Type 0} → Reader A → (A → Reader B) → Reader B
◌>>=◌ m f c = elim (m c) [ ok (a, c') ↦ f a c' | err e ↦ err e ]

abbrev pub ◌>>◌ : {A B : Type 0} → Reader A → Reader B → Reader B
m >> k = m >>= λ _. k

-- `#take` and the bytes that it reserves; also `bytes`, which copies them out.
unfoldable pub bytes : ℕ → String → Reader (List ℕ)
bytes n field c =
    if ltb (length c.rest) n
    then err (truncated field n c.offset (length c.rest))
    else ok (take n c.rest, record { offset = c.offset + n; rest = drop n c.rest })

-- `u8`, `u16`, `u32` and `u64`, by the number of bytes.
unfoldable pub read_uint : ℕ → String → Reader ℕ
unfolding bytes be
read_uint n field = do taken ← bytes n field; pure (be taken)

abbrev pub u8 : String → Reader ℕ
u8 = read_uint 1

abbrev pub u16 : String → Reader ℕ
u16 = read_uint 2

abbrev pub u32 : String → Reader ℕ
u32 = read_uint 4

abbrev pub u64 : String → Reader ℕ
u64 = read_uint 8

unfoldable pub i16 : String → Reader ℤ
unfolding read_uint to_signed
i16 field = do word ← u16 field; pure (to_signed (2 ^ 15) word)

unfoldable pub i32 : String → Reader ℤ
unfolding read_uint to_signed
i32 field = do word ← u32 field; pure (to_signed (2 ^ 31) word)
