-- ===== src/Enrollment/Tests.antt =====
-- Runs of the enrollment window, and its theorems at concrete windows.
use native.Mathlib.Omega.{arith}
use atvr4samsung.Common.{
  ℕ, ◌-◌, ◌≡◌, refl, Bool, true, false, ◌&&◌, List, [], ◌∷◌, none, some, leb, replicate,
  if◌then◌else◌,
}
use atvr4samsung.Common.Bytes.{bytes_eq}
use atvr4samsung.Common.Int.{pos}
use atvr4samsung.Enrollment.{
  Digits, PairingWindow, Store, is_strong_window_pin, active, mutate_if_current, is_generation,
}
use atvr4samsung.Enrollment.Opening.{
  drew, opened, format_pin, generate_window_pin, open_locked, write_window,
}
use atvr4samsung.Enrollment.Drawing.{FirstStrong, generate_window_pin-drew}
use atvr4samsung.Enrollment.Replaced.{active-open_locked, open_locked-replaces}

abbrev ascii_digits : Digits
ascii_digits = record {
  is_digit = λ c. leb 48 c && leb c 57;
  int_of = λ c. if leb 48 c then some (c - 48) else none;
}

strong_pin : is_strong_window_pin ascii_digits (format_pin 2794) ≡ some true
unfolding is_strong_window_pin bytes_eq
strong_pin = refl

descending_pin : is_strong_window_pin ascii_digits (format_pin 9876) ≡ some false
unfolding is_strong_window_pin bytes_eq
descending_pin = refl

generate_window_pin-drew_example :
    (pin : List ℕ) × (rest : List ℕ) × (generate_window_pin ascii_digits
        (1234 ∷ 7777 ∷ 2794 ∷ 8305 ∷ [])
      ≡ drew pin rest)
    × FirstStrong ascii_digits (1234 ∷ 7777 ∷ 2794 ∷ 8305 ∷ []) pin rest
generate_window_pin-drew_example =
    generate_window_pin-drew ascii_digits (1234 ∷ 7777 ∷ []) (8305 ∷ []) 2794 (λ k h. ground arith)
      strong_pin

abbrev gen_a : List ℕ
gen_a = replicate 32 97

abbrev gen_b : List ℕ
gen_b = replicate 32 98

abbrev empty_store : Store
empty_store = record { document = none; reset_in_progress = false }

abbrev first_window : PairingWindow
first_window = record {
  pin = format_pin 2794;
  expires_at = pos 400;
  generation = gen_a;
  server_identifier = 115 ∷ [];
  server_generation = gen_a;
}

abbrev second_window : PairingWindow
second_window = record {
  pin = format_pin 8305;
  expires_at = pos 500;
  generation = gen_b;
  server_identifier = 115 ∷ [];
  server_generation = gen_a;
}

open_first :
    open_locked ascii_digits 1 empty_store 100 100 300
      (1234 ∷ 2794 ∷ [])
      (gen_a ∷ [])
      (115 ∷ [])
      gen_a
    ≡ opened first_window (write_window first_window empty_store)
unfolding open_locked bytes_eq
open_first = refl

gen_a_valid : is_generation gen_a ≡ true
unfolding is_generation
gen_a_valid = refl

gen_b_valid : is_generation gen_b ≡ true
unfolding is_generation
gen_b_valid = refl

active-open_locked_example :
    active ascii_digits (write_window first_window empty_store) 399 ≡ some first_window
active-open_locked_example =
    active-open_locked ascii_digits 1 empty_store 100 100 300 (1234 ∷ 2794 ∷ []) (gen_a ∷ [])
      (115 ∷ []) gen_a first_window (write_window first_window empty_store) 399 (gen_a_valid, tt)
      open_first

-- The PIN of the first window and its generation are drawn again, and passed over.
open_second :
    open_locked ascii_digits 1
      (write_window first_window empty_store)
      150
      200
      300
      (2794 ∷ 8305 ∷ [])
      (gen_a ∷ gen_b ∷ [])
      (115 ∷ [])
      gen_a
    ≡ opened second_window (write_window second_window empty_store)
unfolding open_locked bytes_eq
open_second = refl

open_locked-replaces_example :
    (bytes_eq second_window.pin first_window.pin ≡ false)
    × (bytes_eq second_window.generation first_window.generation ≡ false)
    × (mutate_if_current ascii_digits
          (write_window second_window empty_store)
          210
          gen_a
          (115 ∷ [])
          gen_a
          true
        ≡ (false, none))
open_locked-replaces_example =
    open_locked-replaces Bool true ascii_digits 1 (write_window first_window empty_store) 150 200
      300 (2794 ∷ 8305 ∷ []) (gen_a ∷ gen_b ∷ []) (115 ∷ []) gen_a first_window second_window
      (write_window second_window empty_store) 210 (115 ∷ []) gen_a (gen_a_valid, (gen_b_valid, tt))
      (active-open_locked ascii_digits 1 empty_store 100 100 300 (1234 ∷ 2794 ∷ []) (gen_a ∷ [])
        (115 ∷ []) gen_a first_window (write_window first_window empty_store) 150 (gen_a_valid, tt)
        open_first)
      open_second
