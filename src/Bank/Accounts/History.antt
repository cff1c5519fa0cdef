-- ===== src/Bank/Accounts/History.antt =====
-- A client that follows the cursors of `getHistory` from the first page.
use mathlib.Core.Option
use mathlib.Core.Path.{subst}
use mathlib.Core.List.{map-append, Perm}
use express_monorepo_bank_te.Base.{
  ℕ, zero, suc, ◌≤◌, ◌<◌, ◌≡◌, refl, ap, sym, ◌∙◌, Option, none, some, List, [], ◌∷◌, ◌++◌, map,
  arith, Bool, false, ◌==◌, ◌||◌, or_else, ltb, length, select, select-same, take, drop, All,
  if◌then◌else◌, inl, inr, Bool-cases, append-nil,
}
use express_monorepo_bank_te.Base.Table.{find_by, DistinctKeys}
use express_monorepo_bank_te.Base.Order.{
  order_desc, last_key, IsDescending, order-IsDescending, DistinctKeys-select, under, under-order,
  under-under, All-under_self, last_key-lt, under-last_key, order-perm,
}
use express_monorepo_bank_te.Bank.Schema.{Account, Transfer, Db}
use express_monorepo_bank_te.Bank.Tx.{Result, ok, err}
use express_monorepo_bank_te.Bank.Transfers.Dto.{TransferDto, to_transfer_dto}
use express_monorepo_bank_te.Bank.Accounts.{touches, is_listed, HistoryPage, get_history}

-- All rows that a cursor leaves, newest first.
abbrev pub listed : ℕ → Option ℕ → Db → List Transfer
listed account_id cursor db =
    order_desc Transfer.seq (select (is_listed account_id cursor) db.transfers)

abbrev after_cursor : (ℕ → List TransferDto) → Option ℕ → List TransferDto
after_cursor rest none = []
after_cursor rest (some c) = rest c

abbrev after_page : (ℕ → List TransferDto) → Result HistoryPage → List TransferDto
after_page rest (err e) = []
after_page rest (ok page) = page.items ++ after_cursor rest page.next_cursor

-- The client: `fuel` bounds the number of pages that it asks for.
pub follow : ℕ → ℕ → ℕ → Option ℕ → Db → List TransferDto
follow zero account_id limit cursor db = []
follow (suc fuel) account_id limit cursor db =
    after_page (λ c. follow fuel account_id limit (some c) db)
      (get_history account_id limit cursor db).0

take-take : (n : ℕ) (rows : List Transfer) → take n (take (suc n) rows) ≡ take n rows
take-take zero rows = refl
take-take (suc n) [] = refl
take-take (suc n) (t ∷ rows) = ap (λ l. t ∷ l) (take-take n rows)

take_all : (n : ℕ) (rows : List Transfer) → length rows ≤ n → take n rows ≡ rows
take_all zero [] h = refl
take_all zero (t ∷ rows) h = absurd (omega arith)
take_all (suc n) [] h = refl
take_all (suc n) (t ∷ rows) h = ap (λ l. t ∷ l) (take_all n rows (omega arith))

take-append-drop : (n : ℕ) (rows : List Transfer) → take n rows ++ drop n rows ≡ rows
take-append-drop zero rows = refl
take-append-drop (suc n) [] = refl
take-append-drop (suc n) (t ∷ rows) = ap (λ l. t ∷ l) (take-append-drop n rows)

length-take-suc :
    (n : ℕ) (rows : List Transfer) → ltb n (length (take (suc n) rows)) ≡ ltb n (length rows)
length-take-suc zero [] = refl
length-take-suc zero (t ∷ rows) = ground arith
length-take-suc (suc n) [] = refl
length-take-suc (suc n) (t ∷ rows) = ground (arith, length-take-suc n rows)

length-drop_lt :
    (n : ℕ) (rows : List Transfer) → n < length rows → length (drop (suc n) rows) < length rows
length-drop_lt n [] h = absurd (omega arith)
length-drop_lt zero (t ∷ rows) h = omega arith
length-drop_lt (suc n) (t ∷ rows) h = omega (arith, length-drop_lt n rows (omega arith))

last_key-some :
    (n : ℕ) (rows : List Transfer)
    → n < length rows
    → (c : ℕ) × (last_key Transfer.seq (take (suc n) rows) ≡ some c)
last_key-some n [] h = absurd (omega arith)
last_key-some zero (t ∷ rows) h = (t.seq, refl)
last_key-some (suc n) (t ∷ []) h = absurd (omega arith)
last_key-some (suc n) (t ∷ u ∷ rows) h = last_key-some n (u ∷ rows) (omega arith)

under-select :
    (account_id c : ℕ) (rows : List Transfer)
    → under Transfer.seq c (select (is_listed account_id none) rows)
      ≡ select (is_listed account_id (some c)) rows
under-select account_id c [] = refl
under-select account_id c (t ∷ rows) = ground (arith, under-select account_id c rows)

module _ (account_id : ℕ) (db : Db) (unique : DistinctKeys Transfer.seq db.transfers) where
  listed-under :
      (c : ℕ) → under Transfer.seq c (listed account_id none db) ≡ listed account_id (some c) db
  listed-under c =
      under-order Transfer.seq c (select (is_listed account_id none) db.transfers)
        (DistinctKeys-select Transfer.seq (is_listed account_id none) db.transfers unique)
      ∙ ap (order_desc Transfer.seq) (under-select account_id c db.transfers)

  listed-IsDescending :
      (cursor : Option ℕ) → IsDescending Transfer.seq (listed account_id cursor db)
  listed-IsDescending cursor =
      order-IsDescending Transfer.seq (select (is_listed account_id cursor) db.transfers)
        (DistinctKeys-select Transfer.seq (is_listed account_id cursor) db.transfers unique)

  -- The rows that the cursor of a full page leaves are those behind the page.
  listed-next :
      (n c : ℕ) (cursor : Option ℕ)
      → last_key Transfer.seq (take n (listed account_id cursor db)) ≡ some c
      → listed account_id (some c) db ≡ drop n (listed account_id cursor db)
  listed-next n c none e =
      sym (listed-under c)
      ∙ under-last_key Transfer.seq n c (listed account_id none db) (listed-IsDescending none) e
  listed-next n c (some k) e =
      let L = listed account_id none db in
      let lower : c < k =
        last_key-lt Transfer.seq n k c (listed account_id (some k) db)
          (subst (All (λ u. Transfer.seq u < k)) (listed-under k) (All-under_self Transfer.seq k L))
          e in
      sym (listed-under c)
      ∙ sym (under-under Transfer.seq c k L lower)
      ∙ ap (under Transfer.seq c) (listed-under k)
      ∙ under-last_key Transfer.seq n c (listed account_id (some k) db)
          (listed-IsDescending (some k)) e

module _ (account_id : ℕ) (db : Db) (account : Account)
    (known : find_by Account.id account_id db.accounts ≡ some account) where
  get_history_lem :
      (limit : ℕ) (cursor : Option ℕ)
      → (get_history account_id limit cursor db).0
        ≡ ok (record {
          items = map to_transfer_dto (take limit (listed account_id cursor db));
          next_cursor =
              if ltb limit (length (listed account_id cursor db))
              then last_key Transfer.seq (take limit (listed account_id cursor db))
              else none;
        })
  unfolding get_history
  get_history_lem limit cursor =
      let L = listed account_id cursor db in
      ground (arith, take-take limit L, length-take-suc limit L)

  follow-all :
      (fuel n : ℕ) (cursor : Option ℕ)
      → DistinctKeys Transfer.seq db.transfers
      → length (listed account_id cursor db) < fuel
      → follow fuel account_id (suc n) cursor db ≡ map to_transfer_dto (listed account_id cursor db)
  unfolding follow
  follow-all zero n cursor unique h = absurd (omega arith)
  follow-all (suc fuel) n cursor unique h =
      let L = listed account_id cursor db in
      let rest = λ (c : ℕ). follow fuel account_id (suc n) (some c) db in
      ap (after_page rest) (get_history_lem (suc n) cursor)
      ∙ elim (Bool-cases (ltb (suc n) (length L))) [
        | inr last ↦ rw last (
            append-nil (map to_transfer_dto (take (suc n) L))
            ∙ ap (map to_transfer_dto) (take_all (suc n) L (ground arith)))
        | inl more ↦
            let (c, cursor_is) = last_key-some n L (ground arith) in
            let next = listed-next account_id db unique (suc n) c cursor cursor_is in
            rw (more, cursor_is)
              (ap (λ l. map to_transfer_dto (take (suc n) L) ++ l)
                  (follow-all fuel n (some c) unique
                      (rw next (omega (arith, length-drop_lt n L (ground arith))))
                    ∙ ap (map to_transfer_dto) next)
                ∙ sym (map-append to_transfer_dto (take (suc n) L) (drop (suc n) L))
                ∙ ap (map to_transfer_dto) (take-append-drop (suc n) L))
      ]

-- A transfer out of the account, or into it.
abbrev pub takes_part : ℕ → Transfer → Bool
takes_part account_id t =
    t.to_account_id == account_id
    || or_else (Option.map (λ from. from == account_id) t.from_account_id) false

touches-takes_part : (id : ℕ) (t : Transfer) → touches id t ≡ takes_part id t
touches-takes_part id t = ground arith

-- On a known account, and with the unique index on `seq`, a client that asks for pages of at least one
-- row and follows the cursors, more pages than the account has rows being allowed, gets the account's
-- whole history in both directions: every transfer out of or into the account exactly once, with the
-- rows' `seq` falling all the way.
pub history_complete :
    (account_id limit fuel : ℕ) (account : Account) (db : Db)
    → find_by Account.id account_id db.accounts ≡ some account
    → DistinctKeys Transfer.seq db.transfers
    → 0 < limit
    → length (listed account_id none db) < fuel
    → (rows : List Transfer) × (follow fuel account_id limit none db ≡ map to_transfer_dto rows)
      × IsDescending Transfer.seq rows
      × Perm rows (select (takes_part account_id) db.transfers)
history_complete account_id zero fuel account db known unique positive enough = absurd (omega arith)
history_complete account_id (suc n) fuel account db known unique positive enough = (
  listed account_id none db,
  follow-all account_id db account known fuel n none unique enough,
  listed-IsDescending account_id db unique none,
  subst (Perm (listed account_id none db))
      (select-same (touches account_id) (takes_part account_id) (touches-takes_part account_id)
        db.transfers)
      (order-perm Transfer.seq (select (touches account_id) db.transfers)),
)
