-- ===== src/Teltonika/RoundTrip/Reads.antt =====
-- A writer and a reader that fit: what the one has written, the other reads, whatever follows.
use express_monorepo_bank_te.Base.{
  ℕ, ◌+◌, ◌<◌, ◌^◌, ◌*◌, String, ◌≡◌, refl, ap, ◌∙◌, Option, none, some, List, [], ◌++◌, length,
  length-append, take-append, drop-append, take-all, drop-all, append_assoc, arith,
}
use mathlib.Core.Path.{subst}
use express_monorepo_bank_te.Teltonika.Bytes.{
  be, be_bytes, write_uint, length-be_bytes, be-be_bytes,
}
use express_monorepo_bank_te.Teltonika.Cursor.{
  Parsed, ok, err, Cursor, Reader, pure, ◌>>=◌, bytes, read_uint,
}
use express_monorepo_bank_te.Base.Int.{ℤ, pos, negsuc, to_signed, of_signed}
use express_monorepo_bank_te.Teltonika.Testing.{◌⊕◌, write_int}

abbrev pub at : ℕ → List ℕ → Cursor
at offset rest = record { offset = offset; rest = rest }

-- `m` reads exactly `xs`, and returns `a`.
pub record Reads {A : Type 0} (m : Reader A) (xs : List ℕ) (a : A) : Type 0 where
  pub reads :
      (offset : ℕ) (rest : List ℕ)
      → m (at offset (xs ++ rest)) ≡ ok (a, at (offset + length xs) rest)

-- Whatever `w` has written, `m` reads as `a`.
pub record Fits {A : Type 0} (w : Option (List ℕ)) (m : Reader A) (a : A) : Type 0 where
  pub fits : (xs : List ℕ) → w ≡ some xs → Reads m xs a

pub bytes-Reads : (xs : List ℕ) (field : String) → Reads (bytes (length xs) field) xs xs
unfolding bytes
bytes-Reads xs field = record {
  reads = λ offset rest. ground (
    arith,
    length-append xs rest,
    take-append (length xs) xs rest,
    drop-append (length xs) xs rest,
    take-all xs,
    drop-all xs,
  );
}

module _ {A B : Type 0} where
  pub bind-Reads :
      (m : Reader A) (f : A → Reader B) (xs ys : List ℕ) (a : A) (b : B)
      → Reads m xs a
      → Reads (f a) ys b
      → Reads (m >>= f) (xs ++ ys) b
  bind-Reads m f xs ys a b first second = record {
    reads = λ offset rest. rw (append_assoc xs ys rest) (
        ap (λ (p : Parsed (A × Cursor)). elim p [ ok (a, c) ↦ f a c | err e ↦ err e ])
          (first.reads offset (ys ++ rest))
        ∙ second.reads (offset + length xs) rest
        ∙ ap (λ n. ok (b, at n rest)) (omega (arith, length-append xs ys)));
  }

  pub bind-Fits :
      (w v : Option (List ℕ)) (m : Reader A) (f : A → Reader B) (a : A) (b : B)
      → Fits w m a
      → Fits v (f a) b
      → Fits (w ⊕ v) (m >>= f) b
  bind-Fits none v m f a b first second = record { fits = λ xs e. absurd (cc e) }
  bind-Fits (some xs) none m f a b first second = record { fits = λ zs e. absurd (cc e) }
  bind-Fits (some xs) (some ys) m f a b first second = record {
    fits = λ zs e.
        subst (λ l. Reads (m >>= f) l b) (ground (arith, e))
          (bind-Reads m f xs ys a b (first.fits xs refl) (second.fits ys refl));
  }

  -- A last step that only computes.
  pub map-Reads :
      (m : Reader A) (g : A → B) (xs : List ℕ) (a : A)
      → Reads m xs a
      → Reads (m >>= λ x. pure (g x)) xs (g a)
  map-Reads m g xs a first = record {
    reads = λ offset rest.
        ap (λ (p : Parsed (A × Cursor)). elim p [ ok (x, c) ↦ ok (g x, c) | err e ↦ err e ])
          (first.reads offset rest);
  }

  pub map-Fits :
      (w : Option (List ℕ)) (m : Reader A) (a : A) (g : A → B)
      → Fits w m a
      → Fits w (m >>= λ x. pure (g x)) (g a)
  map-Fits w m a g first = record { fits = λ xs e. map-Reads m g xs a (first.fits xs e) }

pub pure-Fits : {A : Type 0} (a : A) → Fits (some []) (pure a) a
pure-Fits a = record {
  fits = λ xs e.
      subst (λ l. Reads (pure a) l a) {x = []} (ground (arith, e))
        (record { reads = λ offset rest. ap (λ n. ok (a, at n rest)) (omega arith) });
}

pub uint-Reads :
    (n v : ℕ) (field : String) → v < 256 ^ n → Reads (read_uint n field) (be_bytes n v) v
unfolding read_uint
uint-Reads n v field h =
    let taken =
      subst (λ k. Reads (bytes k field) (be_bytes n v) (be_bytes n v)) (length-be_bytes n v)
        (bytes-Reads (be_bytes n v) field) in
    subst (λ r. Reads (read_uint n field) (be_bytes n v) r) (be-be_bytes n v h)
      (map-Reads (bytes n field) be (be_bytes n v) (be_bytes n v) taken)

written : (n v : ℕ) (xs : List ℕ) → write_uint n v ≡ some xs → (be_bytes n v ≡ xs) × (v < 256 ^ n)
unfolding write_uint
written n v xs e = (ground (arith, e), ground (arith, e))

-- A number of n bytes.
pub uint-Fits : (n v : ℕ) (field : String) → Fits (write_uint n v) (read_uint n field) v
uint-Fits n v field = record {
  fits = λ xs e.
      subst (λ l. Reads (read_uint n field) l v) (written n v xs e).0
        (uint-Reads n v field (written n v xs e).1);
}

signed_written :
    (n half : ℕ) (v : ℤ) (xs : List ℕ)
    → 2 * half ≡ 256 ^ n
    → write_int n half v ≡ some xs
    → (be_bytes n (of_signed half v) ≡ xs)
      × (of_signed half v < 256 ^ n)
      × (to_signed half (of_signed half v) ≡ v)
unfolding write_int of_signed to_signed
signed_written n half (pos k) xs h e = (ground (arith, e), ground (arith, e, h), ground (arith, e))
signed_written n half (negsuc k) xs h e =
    (ground (arith, e), ground (arith, e, h), ground (arith, e, h))

-- A signed number of n bytes.
pub int-Fits :
    (n half : ℕ) (v : ℤ) (field : String)
    → 2 * half ≡ 256 ^ n
    → Fits (write_int n half v) (read_uint n field >>= λ word. pure (to_signed half word)) v
int-Fits n half v field h = record {
  fits = λ xs e.
      let facts = signed_written n half v xs h e in
      let m = read_uint n field >>= λ word. pure (to_signed half word) in
      subst (λ l. Reads m l v) facts.0
        (subst (λ r. Reads m (be_bytes n (of_signed half v)) r) facts.2
          (map-Reads (read_uint n field) (to_signed half) (be_bytes n (of_signed half v))
            (of_signed half v) (uint-Reads n (of_signed half v) field facts.1)));
}

-- A last step that checks what it was given.
pub check-Fits :
    {A B : Type 0} (w : Option (List ℕ)) (m : Reader A) (f : A → Reader B) (a : A) (b : B)
    → Fits w m a
    → ((c : Cursor) → f a c ≡ ok (b, c))
    → Fits w (m >>= f) b
check-Fits {A = A} w m f a b first checks = record {
  fits = λ xs e. record {
    reads = λ offset rest.
        ap (λ (p : Parsed (A × Cursor)). elim p [ ok (x, c) ↦ f x c | err e ↦ err e ])
          ((first.fits xs e).reads offset rest)
        ∙ checks (at (offset + length xs) rest);
  };
}
