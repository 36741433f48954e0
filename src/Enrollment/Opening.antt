-- ===== src/Enrollment/Opening.antt =====
-- `generate_window_pin` and `open_locked` of pairing_window.py.
use atvr4samsung.Common.{
  ℕ, zero, suc, ◌+◌, ◌*◌, ◌/◌, ◌%◌, Bool, true, false, not, ◌&&◌, List, [], ◌∷◌, Option, none, some,
  length, leb, if◌then◌else◌,
}
use atvr4samsung.Common.Bytes.{bytes_eq}
use atvr4samsung.Common.Int.{pos}
use atvr4samsung.Enrollment.{
  Digits, PairingWindow, Store, mapping, number, text, is_strong_window_pin, is_valid_binding,
  active, pin_key, expires_at_key, generation_key, server_identifier_key, server_generation_key,
}

-- The result of a loop over what is drawn: a value with the draws left, an exception, or no end yet.
pub data Drawn (A : Type 0) (B : Type 0) : Type 0 where
  drew : A → List B → Drawn A B
  failed : Drawn A B
  undrawn : Drawn A B

-- `f"{n:04d}"`
abbrev pub format_pin : ℕ → List ℕ
format_pin n = (48 + n / 1000 % 10) ∷ (48 + n / 100 % 10) ∷ (48 + n / 10 % 10) ∷ (48 + n % 10) ∷ []

-- `generate_window_pin`
unfoldable pub generate_window_pin : Digits → List ℕ → Drawn (List ℕ) ℕ
unfolding is_strong_window_pin
generate_window_pin d [] = undrawn
generate_window_pin d (n ∷ draws) = elim (is_strong_window_pin d (format_pin n)) [
  | none ↦ failed
  | some true ↦ drew (format_pin n) draws
  | some false ↦ generate_window_pin d draws
]

abbrev pub is_pin_of : Option PairingWindow → List ℕ → Bool
is_pin_of none pin = false
is_pin_of (some w) pin = bytes_eq pin w.pin

abbrev pub is_generation_of : Option PairingWindow → List ℕ → Bool
is_generation_of none generation = false
is_generation_of (some w) generation = bytes_eq generation w.generation

-- `while previous is not None and pin == previous.pin: pin = generate_window_pin()`. Each round takes
-- a draw at least, so that their number bounds the rounds.
unfoldable pub fresh_pin : ℕ → Digits → Option PairingWindow → List ℕ → Drawn (List ℕ) ℕ
unfolding generate_window_pin
fresh_pin zero d previous draws = undrawn
fresh_pin (suc rounds) d previous draws = elim (generate_window_pin d draws) [
  | drew pin rest ↦ elim (is_pin_of previous pin) [
    | true ↦ fresh_pin rounds d previous rest
    | false ↦ drew pin rest
  ]
  | failed ↦ failed
  | undrawn ↦ undrawn
]

-- `generation = secrets.token_hex(16)`, again while it is the previous one.
unfoldable pub fresh_generation : Option PairingWindow → List (List ℕ) → Drawn (List ℕ) (List ℕ)
fresh_generation previous [] = undrawn
fresh_generation previous (token ∷ tokens) =
    let rest = fresh_generation previous tokens in
    if is_generation_of previous token then rest else drew token tokens

pub data Opened : Type 0 where
  opened : PairingWindow → Store → Opened
  reset_error value_error undecided : Opened

-- The record that is written, each field under its key.
abbrev pub write_window : PairingWindow → Store → Store
write_window w s = record s {
  document = some (
      mapping (
        (expires_at_key, number w.expires_at)
        ∷ (generation_key, text w.generation)
        ∷ (pin_key, text w.pin)
        ∷ (server_generation_key, text w.server_generation)
        ∷ (server_identifier_key, text w.server_identifier)
        ∷ []));
}

-- 24 hours in ticks
abbrev pub max_duration : ℕ → ℕ
max_duration ticks = 24 * 60 * 60 * ticks

abbrev pub open_with :
    Store → ℕ → List ℕ → List ℕ → Drawn (List ℕ) ℕ → Drawn (List ℕ) (List ℕ) → Opened
open_with s expires_at server_identifier server_generation (drew pin draws)
      (drew generation tokens) =
    let w : PairingWindow = record {
      pin = pin;
      expires_at = pos expires_at;
      generation = generation;
      server_identifier = server_identifier;
      server_generation = server_generation;
    } in
    opened w (write_window w s)
open_with s expires_at server_identifier server_generation failed g = value_error
open_with s expires_at server_identifier server_generation (drew pin draws) failed = value_error
open_with s expires_at server_identifier server_generation (drew pin draws) undrawn = undecided
open_with s expires_at server_identifier server_generation undrawn g = undecided

-- `open_locked`, with the clock read once for `active` and once for the expiry.
unfoldable pub open_locked :
    Digits → ℕ → Store → ℕ → ℕ → ℕ → List ℕ → List (List ℕ) → List ℕ → List ℕ → Opened
unfolding active fresh_pin fresh_generation is_valid_binding
open_locked d ticks s now later duration draws tokens server_identifier server_generation =
    if s.reset_in_progress
    then reset_error
    else if not (leb 1 duration && leb duration (max_duration ticks))
    then value_error
    else if not (is_valid_binding server_identifier server_generation)
    then value_error
    else (let previous = active d s now in
        open_with s (later + duration) server_identifier server_generation
          (fresh_pin (suc (length draws)) d previous draws) (fresh_generation previous tokens))
