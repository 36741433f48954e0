-- ===== src/Enrollment.antt =====
-- src/atvr4samsung/pairing_window.py: the enrollment windows. A time is a number of ticks, and a text the
-- list of its code points. What Python's `isdigit` and `int` make of a character is a value of `Digits`;
-- the numbers that `secrets` draws are lists, and a list that ends before a loop does is `undrawn`.
pub mod Drawing
pub mod Pin
pub mod Replaced
pub mod Opening
mod Tests
use atvr4samsung.Common.{
  ℕ, suc, ◌+◌, ◌*◌, ◌/◌, ◌%◌, ◌==◌, Bool, true, false, not, ◌&&◌, ◌||◌, List, [], ◌∷◌, Option, none,
  some, length, ltb, leb, if◌then◌else◌,
}
use atvr4samsung.Common.Bytes.{bytes_eq}
use atvr4samsung.Common.Int.{ℤ, pos, negsuc}
use atvr4samsung.Common.Options.{◌>>=◌}

pub record Digits : Type 0 where
  -- `char.isdigit()`, and `int(char)`, which raises ValueError on some characters of that kind
  pub is_digit : ℕ → Bool
  pub int_of : ℕ → Option ℕ

pub record PairingWindow : Type 0 where
  pub pin : List ℕ
  pub expires_at : ℤ
  pub generation : List ℕ
  pub server_identifier : List ℕ
  pub server_generation : List ℕ

abbrev pub window_pin_length : ℕ
window_pin_length = 4

-- `_COMMON_WEAK_WINDOW_PINS`
abbrev pub weak_pins : List (List ℕ)
weak_pins =
    (48 ∷ 48 ∷ 48 ∷ 48 ∷ [])
    ∷ (49 ∷ 50 ∷ 51 ∷ 52 ∷ [])
    ∷ (52 ∷ 51 ∷ 50 ∷ 49 ∷ [])
    ∷ (49 ∷ 50 ∷ 49 ∷ 50 ∷ [])
    ∷ (49 ∷ 49 ∷ 50 ∷ 50 ∷ [])
    ∷ (50 ∷ 53 ∷ 56 ∷ 48 ∷ [])
    ∷ (54 ∷ 57 ∷ 54 ∷ 57 ∷ [])
    ∷ []

unfoldable pub is_in : List ℕ → List (List ℕ) → Bool
is_in pin [] = false
is_in pin (p ∷ ps) = if bytes_eq p pin then true else is_in pin ps

unfoldable pub all_chars : (ℕ → Bool) → List ℕ → Bool
all_chars test [] = true
all_chars test (c ∷ cs) = test c && all_chars test cs

-- `isdigit` of a text, which is false of the empty one.
abbrev pub all_digits : Digits → List ℕ → Bool
all_digits d [] = false
all_digits d (c ∷ cs) = all_chars d.is_digit (c ∷ cs)

-- `len(set(pin)) == 1`
abbrev pub is_repeated : List ℕ → Bool
is_repeated [] = false
is_repeated (c ∷ cs) = all_chars (λ x. x == c) cs

-- `all(… for current, next_ in zip(pin, pin[1:]))`, up to the first pair that fails; `follows a b`
-- stands for `int(current) ± 1 == int(next_)`.
unfoldable pub all_pairs : Digits → (ℕ → ℕ → Bool) → List ℕ → Option Bool
all_pairs d follows [] = some true
all_pairs d follows (c ∷ []) = some true
all_pairs d follows (c ∷ n ∷ cs) = do
  a ← d.int_of c
  b ← d.int_of n
  if follows a b then all_pairs d follows (n ∷ cs) else some false

-- `is_strong_window_pin`, none where it raises ValueError.
unfoldable pub is_strong_window_pin : Digits → List ℕ → Option Bool
unfolding all_chars is_in all_pairs
is_strong_window_pin d pin =
    if not (all_digits d pin && length pin == window_pin_length)
    then some false
    else if is_in pin weak_pins || is_repeated pin
    then some false
    else (do
      ascending ← all_pairs d (λ a b. a + 1 == b) pin
      descending ← all_pairs d (λ a b. a == b + 1) pin
      some (not ascending && not descending))

-- A value of the JSON record, as far as `_parse_window` looks at it. A `number` is in the range of
-- floats: on a larger integer `math.isfinite` raises OverflowError, which `active` does not catch.
pub data Entry : Type 0 where
  null nested non_finite : Entry
  truth : Bool → Entry
  number : ℤ → Entry
  text : List ℕ → Entry

-- The record that `json.loads` gives: a mapping with each key once, or something else.
pub data Document : Type 0 where
  mapping : List (List ℕ × Entry) → Document
  no_mapping : Document

-- `value.get(key)`
unfoldable pub get : List ℕ → List (List ℕ × Entry) → Entry
get key [] = null
get key ((k, v) ∷ entries) = if bytes_eq k key then v else get key entries

-- "pin", "expires_at", "generation", "server_identifier" and "server_generation"
abbrev pub pin_key : List ℕ
pin_key = 112 ∷ 105 ∷ 110 ∷ []

abbrev pub expires_at_key : List ℕ
expires_at_key = 101 ∷ 120 ∷ 112 ∷ 105 ∷ 114 ∷ 101 ∷ 115 ∷ 95 ∷ 97 ∷ 116 ∷ []

abbrev pub generation_key : List ℕ
generation_key = 103 ∷ 101 ∷ 110 ∷ 101 ∷ 114 ∷ 97 ∷ 116 ∷ 105 ∷ 111 ∷ 110 ∷ []

abbrev pub server_identifier_key : List ℕ
server_identifier_key =
    115 ∷ 101 ∷ 114 ∷ 118 ∷ 101 ∷ 114 ∷ 95 ∷ 105 ∷ 100 ∷ 101 ∷ 110 ∷ 116 ∷ 105 ∷ 102 ∷ 105 ∷ 101
    ∷ 114 ∷ []

abbrev pub server_generation_key : List ℕ
server_generation_key =
    115 ∷ 101 ∷ 114 ∷ 118 ∷ 101 ∷ 114 ∷ 95 ∷ 103 ∷ 101 ∷ 110 ∷ 101 ∷ 114 ∷ 97 ∷ 116 ∷ 105 ∷ 111
    ∷ 110 ∷ []

abbrev pub is_hex_digit : ℕ → Bool
is_hex_digit c = leb 48 c && leb c 57 || leb 97 c && leb c 102

-- 32 characters of "0123456789abcdef"
unfoldable pub is_generation : List ℕ → Bool
unfolding all_chars
is_generation g = length g == 32 && all_chars is_hex_digit g

abbrev pub is_non_empty : List ℕ → Bool
is_non_empty [] = false
is_non_empty (c ∷ cs) = true

-- `_is_valid_binding`, of two texts
unfoldable pub is_valid_binding : List ℕ → List ℕ → Bool
unfolding is_generation
is_valid_binding server_identifier server_generation =
    is_non_empty server_identifier && is_generation server_generation

abbrev pub text_of : Entry → Option (List ℕ)
text_of (text s) = some s
text_of _ = none

abbrev pub expiry_of : Entry → Option ℤ
expiry_of (number n) = some n
expiry_of _ = none

abbrev pub require : Bool → Option (Unit {0})
require true = some tt
require false = none

-- `_parse_window`, none where it raises ValueError.
unfoldable pub parse_window : Digits → Document → Option PairingWindow
unfolding get is_strong_window_pin is_generation is_valid_binding
parse_window d no_mapping = none
parse_window d (mapping entries) = do
  pin ← text_of (get pin_key entries)
  strong ← is_strong_window_pin d pin
  checked ← require strong
  generation ← text_of (get generation_key entries)
  checked ← require (is_generation generation)
  expires_at ← expiry_of (get expires_at_key entries)
  server_identifier ← text_of (get server_identifier_key entries)
  server_generation ← text_of (get server_generation_key entries)
  checked ← require (is_valid_binding server_identifier server_generation)
  some (record {
    pin = pin;
    expires_at = expires_at;
    generation = generation;
    server_identifier = server_identifier;
    server_generation = server_generation;
  })

-- The state directory: what reading and decoding the record gives, none where that raises, and whether
-- a recovery marker is in it.
pub record Store : Type 0 where
  pub document : Option Document
  pub reset_in_progress : Bool

-- `expires_at > clock`
abbrev pub is_later : ℤ → ℕ → Bool
is_later (pos n) now = ltb now n
is_later (negsuc n) now = false

-- `active`
unfoldable pub active : Digits → Store → ℕ → Option PairingWindow
unfolding parse_window
active d s now = if s.reset_in_progress then none else (do
  document ← s.document
  window ← parse_window d document
  if is_later window.expires_at now then some window else none)

abbrev pub is_server : List ℕ → List ℕ → PairingWindow → Bool
is_server server_identifier server_generation w =
    bytes_eq w.server_identifier server_identifier && bytes_eq w.server_generation server_generation

abbrev pub for_server : List ℕ → List ℕ → PairingWindow → Option PairingWindow
for_server server_identifier server_generation w =
    if is_server server_identifier server_generation w then some w else none

-- `active_for_server`, with `_active_for_server_locked`
unfoldable pub active_for_server : Digits → Store → ℕ → List ℕ → List ℕ → Option PairingWindow
unfolding active is_valid_binding
active_for_server d s now server_identifier server_generation =
    if is_valid_binding server_identifier server_generation
    then active d s now >>= for_server server_identifier server_generation
    else none

abbrev pub if_current {ℓ} : {A : Type ℓ} → List ℕ → A → Option PairingWindow → Bool × Option A
if_current generation mutation none = (false, none)
if_current generation mutation (some window) =
    if bytes_eq window.generation generation then (true, some mutation) else (false, none)

-- `mutate_if_current`: whether `mutation` runs, and what it gives then.
unfoldable pub mutate_if_current {ℓ} :
    {A : Type ℓ} → Digits → Store → ℕ → List ℕ → List ℕ → List ℕ → A → Bool × Option A
unfolding active_for_server
mutate_if_current d s now generation server_identifier server_generation mutation =
    if_current generation mutation (active_for_server d s now server_identifier server_generation)

-- `clear_state_locked`
abbrev pub clear_state_locked : Store → Store
clear_state_locked s = record s { document = none }
