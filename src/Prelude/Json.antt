-- ===== src/Prelude/Json.antt =====
-- Values of the JSON documents that the sources read with `json.loads`, what `str` and `==` of Python
-- make of them, and `dict.get`. A float is a finite one, by its exact value. The keys of an object
-- are distinct, as those of a dictionary are.
use Prim.Native.Nat.{ℕ, zero, suc, ◌/◌, ◌%◌}
use Prim.Native.String.{String, char_at}
use text.Mathlib.Text.{◌==◌ as str_eq}
use mathlib.Core.Bool.{Bool, true, false, ◌&&◌}
use mathlib.Core.List.{List, [], ◌∷◌}
use mathlib.Core.Option.{Option, none, some}
use goodmoneying.Prelude.Tests.{ltb, ◌==◌, if◌then◌else◌}
use goodmoneying.Prelude.Int.{ℤ, pos, negsuc}
use goodmoneying.Prelude.Decimal.{Decimal, decimal_eq}

mutual
  pub data Json : Type 0 where
    null : Json
    boolean : Bool → Json
    integer : ℤ → Json
    float : Decimal → Json
    string : String → Json
    array : Items → Json
    object : Fields → Json

  pub data Items : Type 0 where
    nil : Items
    cons : Json → Items → Items

  pub data Fields : Type 0 where
    end : Fields
    field : String → Json → Fields → Fields

-- `value.get(key)`, with a missing key as `none`.
unfoldable pub get : String → Fields → Option Json
get key end = none
get key (field k v fs) = if str_eq k key then some v else get key fs

-- `value.get(key, default)`
abbrev pub or_default : Json → Option Json → Json
or_default default none = default
or_default default (some v) = v

abbrev pub get_or_null : String → Fields → Json
get_or_null key fs = or_default null (get key fs)

-- The elements that are objects, in their order.
unfoldable pub objects : Items → List Fields
objects nil = []
objects (cons (object fs) xs) = fs ∷ objects xs
objects (cons _ xs) = objects xs

-- A number by its value: a `bool` is an `int`.
abbrev number : Json → Option Decimal
number (boolean b) = some (record { coefficient = pos (if b then 1 else 0); scale = 0 })
number (integer i) = some (record { coefficient = i; scale = 0 })
number (float d) = some d
number _ = none

abbrev same_number : Option Decimal → Option Decimal → Bool
same_number (some a) (some b) = decimal_eq a b
same_number _ _ = false

abbrev field_count : Fields → ℕ
field_count end = 0
field_count (field k v fs) = suc (field_count fs)

-- `a == b`
unfoldable mutual
  pub json_eq : Json → Json → Bool
  json_eq null null = true
  json_eq (string s) (string t) = str_eq s t
  json_eq (array xs) (array ys) = items_eq xs ys
  json_eq (object fs) (object gs) = (field_count fs == field_count gs) && fields_eq fs gs
  json_eq a b = same_number (number a) (number b)

  items_eq : Items → Items → Bool
  items_eq nil nil = true
  items_eq (cons x xs) (cons y ys) = json_eq x y && items_eq xs ys
  items_eq _ _ = false

  -- Each field of the first object is in the second one.
  fields_eq : Fields → Fields → Bool
  fields_eq end gs = true
  fields_eq (field k v fs) gs = elim (get k gs) [
    | none ↦ false
    | some w ↦ json_eq v w && fields_eq fs gs
  ]

-- The decimal digits of a number in front of a text, on fuel: one more than the number is enough.
abbrev write_digits : ℕ → ℕ → String → String
write_digits zero n out = out
write_digits (suc fuel) n out =
    let longer = String.◌∷◌ (char_at "0123456789" (n % 10)) out in
    elim (ltb n 10) [ true ↦ longer | false ↦ write_digits fuel (n / 10) longer ]

abbrev write_integer : ℤ → String
write_integer (pos n) = write_digits (suc n) n ""
write_integer (negsuc n) = String.◌∷◌ "-" (write_digits (suc (suc n)) (suc n) "")

-- `str(value)`; `repr` is Python's of floats, lists and dictionaries.
unfoldable pub str : (Json → String) → Json → String
str repr null = "None"
str repr (boolean true) = "True"
str repr (boolean false) = "False"
str repr (integer i) = write_integer i
str repr (string s) = s
str repr value = repr value
