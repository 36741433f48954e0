-- ===== src/Opack/Unpack.antt =====
-- `_unpack` of opack.py. Each call takes a unit of fuel, which Python's recursion has no count of.
use atvr4samsung.Common.{
  ℕ, zero, suc, ◌+◌, ◌-◌, ◌*◌, ◌^◌, ◌/◌, ◌%◌, ◌==◌, Bool, true, false, ◌&&◌, List, [], ◌∷◌, ◌++◌,
  Option, none, some, length, take, drop, leb, if◌then◌else◌,
}
use atvr4samsung.Common.Bytes.{from_le}
use atvr4samsung.Common.Int.{pos}
use atvr4samsung.Opack.{
  Runtime, Value, null, bool, uuid, int, float, text, bytes, array, object, Items, no_items, item,
  Fields, no_fields, holds, set_field, same, is_hashable,
}

-- The result of a step with the object table behind it, whose entries are oldest first, and the rest
-- of the data.
pub data Step {ℓ} (A : Type ℓ) : Type ℓ where
  got : A → List Value → List ℕ → Step A
  raised : Step A
  out_of_fuel : Step A

-- What the first byte announces: a value of its own with the rest, and whether it is put into the
-- object table; a list or a dict, with the count of entries if it has no terminator; a value that the
-- object table holds; or an exception.
pub data Head : Type 0 where
  single : Bool → Value → List ℕ → Head
  list_of dict_of : Option ℕ → Head
  held : Value → List ℕ → Head
  refused : Head

abbrev pub uuid_head : List ℕ → Head
uuid_head ds =
    if length (take 16 ds) == 16 then single true (uuid (take 16 ds)) (drop 16 ds) else refused

abbrev pub float_head : ℕ → (List ℕ → List ℕ) → List ℕ → Head
float_head size read ds =
    if length (take size ds) == size
    then single true (float (read (take size ds))) (drop size ds)
    else refused

-- A slice past the end of the data is short and no error.
abbrev pub int_head : ℕ → List ℕ → Head
int_head size ds = single true (int (some size) (pos (from_le (take size ds)))) (drop size ds)

abbrev pub text_value : Option (List ℕ) → List ℕ → Head
text_value none rest = refused
text_value (some s) rest = single true (text s) rest

abbrev pub text_head : Runtime → ℕ → List ℕ → Head
text_head r size ds = text_value (r.decode_utf8 (take size ds)) (drop size ds)

abbrev pub bytes_head : ℕ → List ℕ → Head
bytes_head size ds = single true (bytes (take size ds)) (drop size ds)

-- `object_list[i]`
unfoldable pub entry : ℕ → List Value → Option Value
entry i [] = none
entry zero (v ∷ table) = some v
entry (suc i) (v ∷ table) = entry i table

abbrev pub held_head : Option Value → List ℕ → Head
held_head none rest = refused
held_head (some v) rest = held v rest

abbrev pub counted : ℕ → Option ℕ
counted count = if count == 15 then none else some count

-- The head of the first case that holds, as in a chain of `elif`.
unfoldable pub first_case : List (Bool × Head) → Head
first_case [] = refused
first_case ((test, head) ∷ cases) = if test then head else first_case cases

-- The tests on `data[0]`, in the order of the source. From 40 to 60 hex the length is in the tag.
unfoldable pub cases_of : Runtime → List Value → ℕ → List ℕ → List (Bool × Head)
unfolding entry from_le
cases_of r table b ds =
    (b == 1, single false (bool true) ds)
    ∷ (b == 2, single false (bool false) ds)
    ∷ (b == 4, single false null ds)
    ∷ (b == 5, uuid_head ds)
    ∷ (b == 6, single true (int none (pos (from_le (take 8 ds)))) (drop 8 ds))
    ∷ (leb 8 b && leb b 47, single false (int none (pos (b - 8))) ds)
    ∷ (b == 53, float_head 4 r.widen ds)
    ∷ (b == 54, float_head 8 (λ (bs : List ℕ). bs) ds)
    ∷ (b / 16 == 3, int_head (2 ^ (b % 16)) ds)
    ∷ (leb 64 b && leb b 96, text_head r (b - 64) ds)
    ∷ (leb 97 b && leb b 100, text_head r (from_le (take (b % 16) ds)) (drop (b % 16) ds))
    ∷ (leb 112 b && leb b 144, bytes_head (b - 112) ds)
    ∷ (
      leb 145 b && leb b 148,
      bytes_head (from_le (take (2 ^ (b % 16 - 1)) ds)) (drop (2 ^ (b % 16 - 1)) ds),
    )
    ∷ (b / 16 == 13, list_of (counted (b % 16)))
    ∷ (b / 32 == 7, dict_of (counted (b % 16)))
    ∷ (leb 160 b && leb b 192, held_head (entry (b - 160) table) ds)
    ∷ (
      leb 193 b && leb b 196,
      held_head (entry (from_le (take (b - 192) ds)) table) (drop (b - 192) ds),
    )
    ∷ []

unfoldable pub head_of : Runtime → List Value → ℕ → List ℕ → Head
unfolding first_case cases_of
head_of r table b ds = first_case (cases_of r table b ds)

-- `if add_to_object_list and value not in object_list: object_list.append(value)`
unfoldable pub remember : Runtime → Bool → Value → List Value → List Value
unfolding holds same
remember r add v table =
    if add then (if holds r v table then table else table ++ (v ∷ [])) else table

abbrev pub and_array : Step Items → Step Value
and_array (got xs table rest) = got (array xs) table rest
and_array raised = raised
and_array out_of_fuel = out_of_fuel

abbrev pub and_object : Step Fields → Step Value
and_object (got fs table rest) = got (object fs) table rest
and_object raised = raised
and_object out_of_fuel = out_of_fuel

abbrev pub then_do {ℓ κ} :
    {A : Type ℓ} {B : Type κ} → Step A → (A → List Value → List ℕ → Step B) → Step B
then_do (got a table rest) f = f a table rest
then_do raised f = raised
then_do out_of_fuel f = out_of_fuel

abbrev pub add_item : Value → Step Items → Step Items
add_item v (got xs table rest) = got (item v xs) table rest
add_item v raised = raised
add_item v out_of_fuel = out_of_fuel

-- Whether the entries of a container are at their end, and what is then left; none where `ptr[0]`
-- raises IndexError.
abbrev pub at_end : Option ℕ → List ℕ → Option (Bool × List ℕ)
at_end (some zero) ds = some (true, ds)
at_end (some (suc k)) ds = some (false, ds)
at_end none [] = none
at_end none (b ∷ ds) = some (if b == 3 then (true, ds) else (false, b ∷ ds))

abbrev pub one_less : Option ℕ → Option ℕ
one_less none = none
one_less (some k) = some (k - 1)

-- `unpack_items` and `unpack_fields` run the loops of a list and a dict; the dict so far is an argument.
unfoldable mutual
  pub unpack_value : Runtime → ℕ → List Value → List ℕ → Step Value
  unpack_value r zero table ds = out_of_fuel
  unpack_value r (suc n) table [] = raised
  unpack_value r (suc n) table (b ∷ ds) = elim (head_of r table b ds) [
    | single add v rest ↦ got v (remember r add v table) rest
    | list_of count ↦ and_array (unpack_items r n count table ds)
    | dict_of count ↦ and_object (unpack_fields r n count no_fields table ds)
    | held v rest ↦ got v table rest
    | refused ↦ raised
  ]

  pub unpack_items : Runtime → ℕ → Option ℕ → List Value → List ℕ → Step Items
  unpack_items r zero count table ds = out_of_fuel
  unpack_items r (suc n) count table ds = elim (at_end count ds) [
    | none ↦ raised
    | some end ↦ elim end.0 [
      | true ↦ got no_items table end.1
      | false ↦
          then_do (unpack_value r n table ds)
            (λ v t ds'. add_item v (unpack_items r n (one_less count) t ds'))
    ]
  ]

  pub unpack_fields : Runtime → ℕ → Option ℕ → Fields → List Value → List ℕ → Step Fields
  unpack_fields r zero count output table ds = out_of_fuel
  unpack_fields r (suc n) count output table ds = elim (at_end count ds) [
    | none ↦ raised
    | some end ↦ elim end.0 [
      | true ↦ got output table end.1
      | false ↦ then_do (unpack_value r n table ds) (λ k t ds'.
          then_do (unpack_value r n t ds') (λ v t' ds''. elim (is_hashable k) [
            | true ↦ unpack_fields r n (one_less count) (set_field r k v output) t' ds''
            | false ↦ raised
          ]))
    ]
  ]

-- Twice the length of the data and one more is enough.
abbrev pub enough : List ℕ → ℕ
enough ds = 2 * length ds + 1

-- `unpack`
unfoldable pub unpack : Runtime → List ℕ → Step Value
unfolding unpack_value head_of cases_of first_case remember set_field holds same entry
unpack r ds = unpack_value r (enough ds) [] ds
