-- ===== src/Opack.antt =====
-- src/atvr4samsung/companion/protocol/opack.py: the values that OPACK carries. A text is the list of its
-- code points, a float the eight bytes of its IEEE 754 double. What Python's runtime does with them
-- (UTF-8, `struct`, the equality of floats) is a value of `Runtime`.
pub mod Pack
pub mod Unpack
pub mod Heads
pub mod Fuel
mod Tests
use atvr4samsung.Common.{
  ℕ, ◌+◌, ◌-◌, ◌==◌, Bool, true, false, ◌&&◌, List, [], ◌∷◌, Option, none, some, if◌then◌else◌,
}
use atvr4samsung.Common.Bytes.{bytes_eq}
use atvr4samsung.Common.Int.{ℤ, pos, negsuc}

pub record Runtime : Type 0 where
  -- none where UnicodeEncodeError or UnicodeDecodeError is raised
  pub encode_utf8 : List ℕ → Option (List ℕ)
  pub decode_utf8 : List ℕ → Option (List ℕ)
  -- the double of a float of four bytes
  pub widen : List ℕ → List ℕ
  -- `==` of two floats, and of an integer and a float
  pub float_eq : List ℕ → List ℕ → Bool
  pub int_float_eq : ℤ → List ℕ → Bool

-- `int` carries the attribute `size` that `_sized_int` gives. `datetime` and `other` stand for the
-- values that `_pack` refuses.
mutual
  pub data Value : Type 0 where
    null datetime other : Value
    bool : Bool → Value
    uuid : List ℕ → Value
    int : Option ℕ → ℤ → Value
    float : List ℕ → Value
    text : List ℕ → Value
    bytes : List ℕ → Value
    array : Items → Value
    object : Fields → Value

  pub data Items : Type 0 where
    no_items : Items
    item : Value → Items → Items

  pub data Fields : Type 0 where
    no_fields : Fields
    field : Value → Value → Fields → Fields

abbrev pub int_eq : ℤ → ℤ → Bool
int_eq (pos a) (pos b) = a == b
int_eq (pos a) (negsuc b) = false
int_eq (negsuc a) (pos b) = false
int_eq (negsuc a) (negsuc b) = a == b

-- The number that a bool or an int is for `==`.
abbrev pub number : Value → Option ℤ
number (bool b) = some (pos (if b then 1 else 0))
number (int size n) = some n
number _ = none

abbrev pub same_numbers : Runtime → Value → Value → Option ℤ → Option ℤ → Bool
same_numbers r v w (some m) (some n) = int_eq m n
same_numbers r v (float b) (some m) none = r.int_float_eq m b
same_numbers r (float a) w none (some n) = r.int_float_eq n a
same_numbers r (float a) (float b) none none = r.float_eq a b
same_numbers r null null none none = true
same_numbers r (uuid a) (uuid b) none none = bytes_eq a b
same_numbers r (text a) (text b) none none = bytes_eq a b
same_numbers r (bytes a) (bytes b) none none = bytes_eq a b
same_numbers r _ _ _ _ = false

-- `==` of two values that can be keys or entries of the object table; no container is either.
unfoldable pub same : Runtime → Value → Value → Bool
same r v w = same_numbers r v w (number v) (number w)

abbrev pub is_hashable : Value → Bool
is_hashable (array xs) = false
is_hashable (object fs) = false
is_hashable _ = true

-- `value in object_list`
unfoldable pub holds : Runtime → Value → List Value → Bool
unfolding same
holds r v [] = false
holds r v (w ∷ ws) = if same r w v then true else holds r v ws

-- `output[key] = value`: a key that is there keeps its place and gets the new value.
unfoldable pub set_field : Runtime → Value → Value → Fields → Fields
unfolding same
set_field r key value no_fields = field key value no_fields
set_field r key value (field k v fs) =
    let rest = set_field r key value fs in if same r k key then field k value fs else field k v rest

-- `data.get(key)` for a text
unfoldable pub get_text : List ℕ → Fields → Option Value
get_text key no_fields = none
get_text key (field (text k) v fs) = if bytes_eq k key then some v else get_text key fs
get_text key (field _ v fs) = get_text key fs
