-- ===== src/Value.antt =====
-- The JSON values that the program parses and prints: what `json.loads` returns, without floats.
-- Keys of objects are texts, as JSON has them.
pub mod Canonical
use amnesic_pi.Prelude.{
  String, str_eq, Bool, true, false, Option, none, some, List, [], ◌∷◌, if◌then◌else◌,
}
use amnesic_pi.Prelude.Int.{ℤ, pos}
use amnesic_pi.Errors.{Exn, Result, ok, err, key_error, or_raise}

mutual
  pub data Value : Type 0 where
    null : Value
    bool : Bool → Value
    int : ℤ → Value
    str : String → Value
    arr : Items → Value
    obj : Fields → Value

  pub data Items : Type 0 where
    cons : Value → Items → Items
    nil : Items

  pub data Fields : Type 0 where
    field : String → Value → Fields → Fields
    end : Fields

abbrev pub items_of : List Value → Items
items_of [] = nil
items_of (v ∷ vs) = cons v (items_of vs)

abbrev pub list_of : Items → List Value
list_of nil = []
list_of (cons v vs) = v ∷ list_of vs

abbrev pub strs : List String → List Value
strs [] = []
strs (s ∷ ss) = str s ∷ strs ss

-- The keys of an object, in its order.
abbrev pub keys : Fields → List String
keys end = []
keys (field k v fs) = k ∷ keys fs

-- `d.get(k)`, where a missing key is `none`.
abbrev pub get : Fields → String → Option Value
get end k = none
get (field j v fs) k = if str_eq k j then some v else get fs k

-- `d.get(k)` in Python's reading, where a missing key is `None`.
abbrev pub get_or_null : Fields → String → Value
get_or_null fs k = elim (get fs k) [ none ↦ null | some v ↦ v ]

-- `d[k]`
abbrev pub item : Fields → String → Result Value
item fs k = or_raise (get fs k) key_error
