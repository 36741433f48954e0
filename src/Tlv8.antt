-- ===== src/Tlv8.antt =====
-- src/atvr4samsung/companion/protocol/tlv8.py: the TLV8 codec of the HomeKit pairing messages.
-- A Python dict is the list of its entries in insertion order.
pub mod Merge
pub mod RoundTrip
mod Tests
use atvr4samsung.Common.{
  ℕ, zero, suc, ◌+◌, ◌-◌, min, List, [], ◌∷◌, ◌++◌, length, take, drop, ltb, ◌==◌, if◌then◌else◌,
}

-- What Python raises, and the end of the fuel, which `read_tlv` and `write_tlv` never meet.
pub data Error : Type 0 where
  index_error value_error out_of_fuel : Error

pub data Result {ℓ} (A : Type ℓ) : Type ℓ where
  ok : A → Result A
  err : Error → Result A

infixl 5 ◌>>=◌
abbrev pub ◌>>=◌ {ℓ κ} : {A : Type ℓ} {B : Type κ} → Result A → (A → Result B) → Result B
ok a >>= f = f a
err e >>= f = err e

abbrev pub Dict : Type 0
Dict = List (ℕ × List ℕ)

-- `if tag in result: result[tag] += value else: result[tag] = value`
unfoldable pub extend : ℕ → List ℕ → Dict → Dict
extend tag value [] = (tag, value) ∷ []
extend tag value ((k, v) ∷ result) =
    if k == tag then (k, v ++ value) ∷ result else (k, v) ∷ extend tag value result

-- `_parse`, over the bytes from `pos` on. A slice past the end is cut, `data[pos + 1]` is not. `_parse`
-- calls itself for each fragment: the RecursionError of about a thousand fragments is left out.
unfoldable pub parse : ℕ → List ℕ → Dict → Result Dict
parse fuel [] result = ok result
parse zero (tag ∷ rest) result = err out_of_fuel
parse (suc fuel) (tag ∷ []) result = err index_error
parse (suc fuel) (tag ∷ len ∷ rest) result =
    parse fuel (drop len rest) (extend tag (take len rest) result)

-- Each call takes two bytes at least, so one call for each byte is enough.
unfoldable pub read_tlv : List ℕ → Result Dict
unfolding parse extend
read_tlv bytes = parse (length bytes) bytes []

-- The loop `while pos < len(value)` for one tag.
unfoldable pub write_value : ℕ → ℕ → List ℕ → ℕ → ℕ → List ℕ → Result (List ℕ)
write_value zero tag value pos len tlv = if ltb pos (length value) then err out_of_fuel else ok tlv
write_value (suc fuel) tag value pos len tlv =
    let size = min len 255 in
    let tlv' = tlv ++ (tag ∷ size ∷ take size (drop pos value)) in
    let rest = write_value fuel tag value (pos + size) (len - size) tlv' in
    if ltb pos (length value) then rest else ok tlv

-- `for key, value in data.items()`; `bytes([int(key)])` refuses a key above 255.
unfoldable pub write_items : Dict → List ℕ → Result (List ℕ)
write_items [] tlv = ok tlv
write_items ((key, value) ∷ items) tlv =
    let written = write_value (length value) key value 0 (length value) tlv in
    let rest = written >>= write_items items in if ltb key 256 then rest else err value_error

unfoldable pub write_tlv : Dict → Result (List ℕ)
unfolding write_items write_value
write_tlv items = write_items items []
