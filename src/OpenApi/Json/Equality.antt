-- ===== src/OpenApi/Json/Equality.antt =====
-- What `deepEqual` of packages/shared/src/openapi/merge.ts is sure of: all that a path reaches in the
-- first value is in the second.
use mathlib.Core.Option.{some-injective}
use express_monorepo_bank_te.Base.{
  ℕ, zero, suc, String, Bool, true, false, ◌&&◌, Option, none, some, List, [], ◌∷◌, ◌≡◌, refl,
  str_eq, eq_iff, ==_iff, arith, Bool-cases, Option-cases, inl, inr,
}
use express_monorepo_bank_te.OpenApi.Json.{
  Json, null, boolean, number, text, array, object, Items, nil, cons, Fields, end, field, read,
  count_items, count_fields, deep_equal, items_equal, fields_equal,
}

-- A step into a value: `value[key]` of an object, `value[index]` of an array.
pub data Access : Type 0 where
  at_key : String → Access
  at_index : ℕ → Access

abbrev pub item : ℕ → Items → Option Json
item i nil = none
item zero (cons x xs) = some x
item (suc i) (cons x xs) = item i xs

abbrev pub enter : Access → Json → Option Json
enter (at_key key) (object fs) = read key fs
enter (at_index i) (array xs) = item i xs
enter _ _ = none

abbrev pub reach : List Access → Json → Option Json
reach [] v = some v
reach (step ∷ path) v = elim (enter step v) [ some w ↦ reach path w | none ↦ none ]

-- What a value is, but for what it contains.
pub data Shape : Type 0 where
  nothing : Shape
  truth : Bool → Shape
  printed quoted : String → Shape
  items fields : ℕ → Shape

abbrev pub shape : Json → Shape
shape null = nothing
shape (boolean b) = truth b
shape (number n) = printed n
shape (text t) = quoted t
shape (array xs) = items (count_items xs)
shape (object fs) = fields (count_fields fs)

both : (a b : Bool) → (a && b) ≡ true → (a ≡ true) × (b ≡ true)
both true true h = (refl, refl)
both true false h = cc
both false b h = cc

-- A pair of values that `deepEqual` accepts, the second being at hand.
abbrev Matched : Json → Option Json → Type 0
Matched v o = (w : Json) × (o ≡ some w) × (deep_equal v w ≡ true)

item-Matched :
    (i : ℕ) (xs ys : Items) (v : Json)
    → items_equal xs ys ≡ true
    → item i xs ≡ some v
    → Matched v (item i ys)
unfolding deep_equal
item-Matched i nil ys v h e = cc
item-Matched i (cons x xs) nil v h e = cc
item-Matched zero (cons x xs) (cons y ys) v h e =
    (y, refl, ground (arith, both (deep_equal x y) (items_equal xs ys) h))
item-Matched (suc i) (cons x xs) (cons y ys) v h e =
    item-Matched i xs ys v (both (deep_equal x y) (items_equal xs ys) h).1 e

entry_of :
    (v : Json) (o : Option Json)
    → elim o [ some w ↦ deep_equal v w | none ↦ false ] ≡ true
    → Matched v o
entry_of v none h = cc
entry_of v (some w) h = (w, refl, h)

read-Matched :
    (key : String) (fs gs : Fields) (v : Json)
    → fields_equal fs gs ≡ true
    → read key fs ≡ some v
    → Matched v (read key gs)
unfolding deep_equal read
read-Matched key end gs v h e = cc
read-Matched key (field k x rest) gs v h e =
    let (first, others) = both _ (fields_equal rest gs) h in
    elim (Bool-cases (str_eq k key)) [
      | inl same ↦
          let is : k ≡ key = (eq_iff k key).0 same in
          let held : x ≡ v = ground arith in rw (← is, ← held) (entry_of x (read k gs) first)
      | inr other ↦ read-Matched key rest gs v others (ground arith)
    ]

deep_equal-shape : (a b : Json) → deep_equal a b ≡ true → shape a ≡ shape b
unfolding deep_equal
deep_equal-shape null null h = refl
deep_equal-shape (boolean true) (boolean true) h = refl
deep_equal-shape (boolean false) (boolean false) h = refl
deep_equal-shape (number m) (number n) h = cc ((eq_iff m n).0 h)
deep_equal-shape (text s) (text t) h = cc ((eq_iff s t).0 h)
deep_equal-shape (array xs) (array ys) h =
    cc ((==_iff (count_items xs) (count_items ys)).0 (both _ (items_equal xs ys) h).0)
deep_equal-shape (object fs) (object gs) h =
    cc ((==_iff (count_fields fs) (count_fields gs)).0 (both _ (fields_equal fs gs) h).0)
deep_equal-shape a b h = cc

enter-Matched :
    (step : Access) (a b v : Json)
    → deep_equal a b ≡ true
    → enter step a ≡ some v
    → Matched v (enter step b)
unfolding deep_equal
enter-Matched (at_key key) (object fs) (object gs) v h e =
    read-Matched key fs gs v (both _ (fields_equal fs gs) h).1 e
enter-Matched (at_index i) (array xs) (array ys) v h e =
    item-Matched i xs ys v (both _ (items_equal xs ys) h).1 e
enter-Matched step a b v h e = cc

-- Where `deepEqual` holds, every path that reaches a value in the first reaches one in the second,
-- and both are the same scalar, arrays of one length, or objects with as many entries.
pub deep_equal-reach :
    (path : List Access) (a b v : Json)
    → deep_equal a b ≡ true
    → reach path a ≡ some v
    → (w : Json) × (reach path b ≡ some w) × (shape v ≡ shape w)
deep_equal-reach [] a b v h e = (b, refl, rw (← some-injective _ _ e) (deep_equal-shape a b h))
deep_equal-reach (step ∷ path) a b v h e = elim (Option-cases (enter step a)) [
  | inl stuck ↦ cc (rw (stuck, reach) at e)
  | inr (x, entered) ↦
      let (y, found, same) = enter-Matched step a b x h entered in
      rw (found, reach) (deep_equal-reach path x y v same (rw (entered, reach) at e))
]
