-- ===== src/Opack/Tests.antt =====
-- Runs of the codec, and its theorems at concrete values. Texts are ASCII here.
use atvr4samsung.Common.{ℕ, ◌≡◌, refl, true, false, List, [], ◌∷◌, none, some}
use atvr4samsung.Common.Bytes.{bytes_eq, to_le}
use atvr4samsung.Common.Int.{pos, negsuc}
use atvr4samsung.Opack.{
  Runtime, Value, null, bool, int, text, array, object, no_items, item, no_fields, field,
}
use atvr4samsung.Opack.Pack.{pack}
use atvr4samsung.Opack.Unpack.{got, raised, unpack}
use atvr4samsung.Opack.Fuel.{Ends, unpack-Ends}

abbrev ascii : Runtime
ascii = record {
  encode_utf8 = λ s. some s;
  decode_utf8 = λ s. some s;
  widen = λ b. b;
  float_eq = bytes_eq;
  int_float_eq = λ n b. false;
}

-- {"_i": "ab", "_t": [True, 300]}
abbrev sample : Value
sample = object (
    field (text (95 ∷ 105 ∷ [])) (text (97 ∷ 98 ∷ [])) (
      field (text (95 ∷ 116 ∷ [])) (array (item (bool true) (item (int none (pos 300)) no_items)))
        no_fields))

abbrev sample_bytes : List ℕ
sample_bytes = 226 ∷ 66 ∷ 95 ∷ 105 ∷ 66 ∷ 97 ∷ 98 ∷ 66 ∷ 95 ∷ 116 ∷ 210 ∷ 1 ∷ 49 ∷ 44 ∷ 1 ∷ []

pack-sample : pack ascii sample ≡ some sample_bytes
unfolding pack bytes_eq to_le
pack-sample = refl

-- The second "ab" is a reference to the first.
pack_repeated :
    pack ascii (array (item (text (97 ∷ 98 ∷ [])) (item (text (97 ∷ 98 ∷ [])) no_items)))
    ≡ some (210 ∷ 66 ∷ 97 ∷ 98 ∷ 160 ∷ [])
unfolding pack bytes_eq to_le
pack_repeated = refl

unpack_repeated :
    unpack ascii (210 ∷ 66 ∷ 97 ∷ 98 ∷ 160 ∷ [])
    ≡ got
        (array (item (text (97 ∷ 98 ∷ [])) (item (text (97 ∷ 98 ∷ [])) no_items)))
        (text (97 ∷ 98 ∷ []) ∷ [])
        []
unfolding unpack
unpack_repeated = refl

-- [["ab"], "cd", "cd"]: the inner list takes an entry of the packer's table, and none of the other's.
pack_nested :
    pack ascii (
      array (
        item
          (array (item (text (97 ∷ 98 ∷ [])) no_items))
          (item (text (99 ∷ 100 ∷ [])) (item (text (99 ∷ 100 ∷ [])) no_items))))
    ≡ some (211 ∷ 209 ∷ 66 ∷ 97 ∷ 98 ∷ 66 ∷ 99 ∷ 100 ∷ 162 ∷ [])
unfolding pack bytes_eq to_le
pack_nested = refl

unpack_nested : unpack ascii (211 ∷ 209 ∷ 66 ∷ 97 ∷ 98 ∷ 66 ∷ 99 ∷ 100 ∷ 162 ∷ []) ≡ raised
unfolding unpack bytes_eq
unpack_nested = refl

-- -4 is packed as None is.
pack_negative : pack ascii (int none (negsuc 3)) ≡ pack ascii null
unfolding pack bytes_eq to_le
pack_negative = refl

unpack_cut : unpack ascii (223 ∷ 1 ∷ []) ≡ raised
unfolding unpack
unpack_cut = refl

unpack-Ends_example : Ends 5 (unpack ascii (210 ∷ 66 ∷ 97 ∷ 98 ∷ 160 ∷ []))
unpack-Ends_example = unpack-Ends ascii (210 ∷ 66 ∷ 97 ∷ 98 ∷ 160 ∷ [])
