-- ===== src/Opack/Pack.antt =====
-- `_pack` of opack.py; none where it raises. The object table is the list of the encodings that later
-- occurrences refer to, oldest first.
use atvr4samsung.Common.{
  ℕ, suc, ◌+◌, ◌-◌, ◌^◌, min, ◌==◌, List, [], ◌∷◌, ◌++◌, Option, none, some, length, ltb,
  if◌then◌else◌,
}
use atvr4samsung.Common.Bytes.{bytes_eq, to_le}
use atvr4samsung.Common.Int.{ℤ, pos, negsuc}
use atvr4samsung.Common.Options.{◌>>=◌}
use atvr4samsung.Opack.{
  Runtime, Value, null, datetime, other, bool, uuid, int, float, text, bytes, array, object, Items,
  no_items, item, Fields, no_fields, field,
}

abbrev pub Table : Type 0
Table = List (List ℕ)

-- `bytes([tag]) + n.to_bytes(size)`, which raises OverflowError where n does not fit.
unfoldable pub tagged : ℕ → ℕ → ℕ → Option (List ℕ)
tagged tag size n = if ltb n (256 ^ size) then some (tag ∷ to_le size n) else none

-- The branches of a natural number; the size hint is none where the value has no attribute `size`.
unfoldable pub pack_nat : Option ℕ → ℕ → Option (List ℕ)
unfolding tagged
pack_nat none n =
    if ltb n 40
    then some ((n + 8) ∷ [])
    else if ltb n (256 ^ 1)
    then tagged 48 1 n
    else if ltb n (256 ^ 2)
    then tagged 49 2 n
    else if ltb n (256 ^ 4)
    then tagged 50 4 n
    else tagged 51 8 n
pack_nat (some size) n =
    if size == 1
    then tagged 48 1 n
    else if size == 2
    then tagged 49 2 n
    else if size == 4
    then tagged 50 4 n
    else tagged 51 8 n

-- A negative number without a size passes the first test too: `bytes([data + 8])` is a byte down to
-- -8 and raises ValueError below; with a size `to_bytes` raises OverflowError.
unfoldable pub pack_int : Option ℕ → ℤ → Option (List ℕ)
unfolding pack_nat tagged
pack_int size (pos n) = pack_nat size n
pack_int none (negsuc n) = if ltb n 8 then some ((7 - n) ∷ []) else none
pack_int (some size) (negsuc n) = none

-- A length behind its tag, then the content.
abbrev pub sized : ℕ → ℕ → List ℕ → Option (List ℕ)
sized tag size content = some ((tag ∷ to_le size (length content)) ++ content)

unfoldable pub pack_text : List ℕ → Option (List ℕ)
pack_text encoded =
    if ltb (length encoded) 33
    then some ((64 + length encoded) ∷ encoded)
    else if ltb (length encoded) (256 ^ 1)
    then sized 97 1 encoded
    else if ltb (length encoded) (256 ^ 2)
    then sized 98 2 encoded
    else if ltb (length encoded) (256 ^ 3)
    then sized 99 3 encoded
    else if ltb (length encoded) (256 ^ 4)
    then sized 100 4 encoded
    else none

unfoldable pub pack_bytes : List ℕ → Option (List ℕ)
pack_bytes content =
    if ltb (length content) 33
    then some ((112 + length content) ∷ content)
    else if ltb (length content) (256 ^ 1)
    then sized 145 1 content
    else if ltb (length content) (256 ^ 2)
    then sized 146 2 content
    else if ltb (length content) (256 ^ 4)
    then sized 147 4 content
    else if ltb (length content) (256 ^ 8)
    then sized 148 8 content
    else none

-- `object_list.index(packed_bytes)`
unfoldable pub index_of : List ℕ → Table → Option ℕ
index_of packed [] = none
index_of packed (entry ∷ table) =
    if bytes_eq entry packed then some 0 else (do i ← index_of packed table; some (i + 1))

unfoldable pub reference : ℕ → List ℕ
reference i =
    if ltb i 33
    then (160 + i) ∷ []
    else if ltb i (256 ^ 1)
    then 193 ∷ to_le 1 i
    else if ltb i (256 ^ 2)
    then 194 ∷ to_le 2 i
    else if ltb i (256 ^ 4)
    then 195 ∷ to_le 4 i
    else 196 ∷ to_le 8 i

abbrev pub registered : Table → List ℕ → Option ℕ → List ℕ × Table
registered table packed (some i) = (reference i, table)
registered table packed none =
    (packed, if ltb 1 (length packed) then table ++ (packed ∷ []) else table)

-- The end of `_pack`: a repeated encoding becomes a reference, a new one of more than a byte an entry.
unfoldable pub register : Table → List ℕ → List ℕ × Table
unfolding index_of reference
register table packed = registered table packed (index_of packed table)

abbrev pub count_items : Items → ℕ
count_items no_items = 0
count_items (item v xs) = suc (count_items xs)

abbrev pub count_fields : Fields → ℕ
count_fields no_fields = 0
count_fields (field k v fs) = suc (count_fields fs)

-- The encoding of a container from its tag, its number of entries and what they were packed to.
abbrev pub container : ℕ → ℕ → List ℕ × Table → List ℕ × Table
container tag count (content, table) =
    register table ((tag + min count 15) ∷ (content ++ (if ltb count 15 then [] else 3 ∷ [])))

abbrev pub register_some : Table → Option (List ℕ) → Option (List ℕ × Table)
register_some table none = none
register_some table (some packed) = some (register table packed)

unfoldable mutual
  pub pack_value : Runtime → Value → Table → Option (List ℕ × Table)
  pack_value r null table = some (register table (4 ∷ []))
  pack_value r (bool b) table = some (register table ((if b then 1 else 2) ∷ []))
  pack_value r (uuid b) table = some (register table (5 ∷ b))
  pack_value r datetime table = none
  pack_value r other table = none
  pack_value r (int size n) table = register_some table (pack_int size n)
  pack_value r (float b) table = some (register table (54 ∷ b))
  pack_value r (text s) table = register_some table (r.encode_utf8 s >>= pack_text)
  pack_value r (bytes b) table = register_some table (pack_bytes b)
  pack_value r (array xs) table = do
    packed ← pack_items r xs table
    some (container 208 (count_items xs) packed)
  pack_value r (object fs) table = do
    packed ← pack_fields r fs table
    some (container 224 (count_fields fs) packed)

  pub pack_items : Runtime → Items → Table → Option (List ℕ × Table)
  pack_items r no_items table = some ([], table)
  pack_items r (item v xs) table = do
    first ← pack_value r v table
    rest ← pack_items r xs first.1
    some (first.0 ++ rest.0, rest.1)

  pub pack_fields : Runtime → Fields → Table → Option (List ℕ × Table)
  pack_fields r no_fields table = some ([], table)
  pack_fields r (field k v fs) table = do
    key ← pack_value r k table
    value ← pack_value r v key.1
    rest ← pack_fields r fs value.1
    some (key.0 ++ value.0 ++ rest.0, rest.1)

-- `pack`
unfoldable pub pack : Runtime → Value → Option (List ℕ)
unfolding pack_value pack_int pack_nat tagged pack_text pack_bytes register index_of reference
pack r v = do packed ← pack_value r v []; some packed.0
