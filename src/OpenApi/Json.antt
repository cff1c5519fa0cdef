-- ===== src/OpenApi/Json.antt =====
-- The values of a document, and lines 7 to 22 of packages/shared/src/openapi/merge.ts: `isRecord`
-- and `deepEqual`. A number is its JavaScript text; no object has a key `__proto__`, and
-- `undefined` stands for no entry.
use express_monorepo_bank_te.Base.{
  ℕ, ◌+◌, String, Bool, true, false, ◌&&◌, Option, none, some, List, [], ◌∷◌, str_eq, ◌==◌,
  if◌then◌else◌,
}
use express_monorepo_bank_te.OpenApi.Texts.{decimal}
pub mod Equality

mutual
  pub data Json : Type 0 where
    null : Json
    boolean : Bool → Json
    number : String → Json
    text : String → Json
    array : Items → Json
    object : Fields → Json

  pub data Items : Type 0 where
    nil : Items
    cons : Json → Items → Items

  pub data Fields : Type 0 where
    end : Fields
    field : String → Json → Fields → Fields

-- `object[key]`, of the object's own properties
unfoldable pub read : String → Fields → Option Json
read key end = none
read key (field k v rest) = if str_eq k key then some v else read key rest

-- `object[key] = value`
unfoldable pub write : String → Json → Fields → Fields
write key value end = field key value end
write key value (field k v rest) =
    if str_eq k key then field k value rest else field k v (write key value rest)

-- `Object.keys(object)`
unfoldable pub keys : Fields → List String
keys end = []
keys (field k v rest) = k ∷ keys rest

abbrev pub member : String → List String → Bool
member key [] = false
member key (k ∷ rest) = if str_eq k key then true else member key rest

-- What every object has from `Object.prototype`, less `__proto__`.
abbrev pub inherited : List String
inherited =
    "constructor" ∷ "__defineGetter__" ∷ "__defineSetter__" ∷ "hasOwnProperty" ∷ "__lookupGetter__"
    ∷ "__lookupSetter__" ∷ "isPrototypeOf" ∷ "propertyIsEnumerable" ∷ "toString" ∷ "valueOf"
    ∷ "toLocaleString" ∷ []

-- `key in object`
unfoldable pub is_in : String → Fields → Bool
is_in key fs = if member key (keys fs) then true else member key inherited

-- An array's elements under their indices, as `Object.keys` and `Object.entries` show them.
unfoldable pub indexed : ℕ → Items → Fields
indexed i nil = end
indexed i (cons x xs) = field (decimal i) x (indexed (i + 1) xs)

-- The own properties of a value that `isRecord` accepts, an array being one.
unfoldable pub record_of : Json → Option Fields
record_of (object fs) = some fs
record_of (array xs) = some (indexed 0 xs)
record_of _ = none

unfoldable pub count_items : Items → ℕ
count_items nil = 0
count_items (cons x xs) = count_items xs + 1

unfoldable pub count_fields : Fields → ℕ
count_fields end = 0
count_fields (field k v rest) = count_fields rest + 1

abbrev same_boolean : Bool → Bool → Bool
same_boolean true true = true
same_boolean false false = true
same_boolean _ _ = false

-- Documents are trees: two distinct objects are never `===`, and one object equals itself by the
-- comparison of its parts.
unfoldable mutual
  pub deep_equal : Json → Json → Bool
  deep_equal null null = true
  deep_equal (boolean a) (boolean b) = same_boolean a b
  deep_equal (number a) (number b) = str_eq a b
  deep_equal (text a) (text b) = str_eq a b
  deep_equal (array xs) (array ys) = (count_items xs == count_items ys) && items_equal xs ys
  deep_equal (object fs) (object gs) = (count_fields fs == count_fields gs) && fields_equal fs gs
  deep_equal _ _ = false

  -- `a.every((item, i) => deepEqual(item, b[i]))`
  pub items_equal : Items → Items → Bool
  items_equal nil ys = true
  items_equal (cons x xs) nil = false
  items_equal (cons x xs) (cons y ys) = deep_equal x y && items_equal xs ys

  -- `keysA.every((key) => deepEqual(a[key], b[key]))`
  pub fields_equal : Fields → Fields → Bool
  fields_equal end gs = true
  fields_equal (field k v rest) gs =
      elim (read k gs) [ some w ↦ deep_equal v w | none ↦ false ] && fields_equal rest gs
