-- ===== src/Bank/Tx.antt =====
-- A query or a handler: it returns or throws, and either way leaves a state behind. What was written
-- before a throw stays written, unless a transaction takes it back.
use express_monorepo_bank_te.Base.{◌≡◌, ap, Bool, true, false, Option, none, some, if◌then◌else◌}
use express_monorepo_bank_te.Bank.Errors.{Failure}
use express_monorepo_bank_te.Bank.Schema.{Db}

pub data Result {ℓ} (A : Type ℓ) : Type ℓ where
  ok : A → Result A
  err : Failure → Result A

abbrev pub is_ok {ℓ} : {A : Type ℓ} → Result A → Bool
is_ok (ok a) = true
is_ok (err e) = false

abbrev pub Exec : Type 0 → Type 0 → Type 0
Exec S A = S → Result A × S

-- The code that has no state but the database.
abbrev pub Tx : Type 0 → Type 0
Tx A = Exec Db A

module _ {S A : Type 0} where
  abbrev pub pure : A → Exec S A
  pure a s = (ok a, s)

  abbrev pub throw : Failure → Exec S A
  throw e s = (err e, s)

  abbrev pub gets : (S → A) → Exec S A
  gets f s = (ok (f s), s)

  -- `if (!row) throw e`
  abbrev pub or_throw : Option A → Failure → Exec S A
  or_throw none e = throw e
  or_throw (some a) e = pure a

  -- `try { m } catch (err) { handler(err) }`
  abbrev pub catch : Exec S A → (Failure → Exec S A) → Exec S A
  catch m handler s = let (r, s') = m s in elim r [ ok a ↦ (ok a, s') | err e ↦ handler e s' ]

  -- A `try` whose handler goes on with the rest of the function.
  abbrev pub attempt : Exec S A → Exec S (Result A)
  attempt m s = let (r, s') = m s in (ok r, s')

infixl 5 ◌>>=◌ ◌>>◌
abbrev pub ◌>>=◌ : {S A B : Type 0} → Exec S A → (A → Exec S B) → Exec S B
◌>>=◌ m f s = let (r, s') = m s in elim r [ ok a ↦ f a s' | err e ↦ throw e s' ]

abbrev pub ◌>>◌ : {S A B : Type 0} → Exec S A → Exec S B → Exec S B
m >> k = m >>= λ _. k

abbrev pub throw_if : {S : Type 0} → Bool → Failure → Exec S (Unit {0})
throw_if c e s = (if c then err e else ok tt, s)

-- `db.transaction(body)`: a throw rolls every row back. The identity counters do not roll back.
abbrev pub transaction : {A : Type 0} → Tx A → Tx A
transaction m db =
    let (r, db') = m db in
    elim r [ ok a ↦ (ok a, db') | err e ↦ (err e, record db { sequences = db'.sequences }) ]

-- A transaction that commits is not caught.
pub catch-transaction_ok :
    {A : Type 0} (m : Tx A) (handler : Failure → Tx A) (db after : Db) (a : A)
    → m db ≡ (ok a, after)
    → catch (transaction m) handler db ≡ (ok a, after)
catch-transaction_ok m handler db after a e = ap (λ r. catch (transaction (λ _. r)) handler db) e

pub catch-transaction_err :
    {A : Type 0} (m : Tx A) (handler : Failure → Tx A) (db : Db) (x : Failure)
    → m db ≡ (err x, db)
    → catch (transaction m) handler db ≡ handler x db
catch-transaction_err m handler db x e = ap (λ r. catch (transaction (λ _. r)) handler db) e
