-- ===== src/Clients/Tests.antt =====
-- Runs of the store, and its theorems at a concrete directory.
use native.Mathlib.Omega.{arith}
use atvr4samsung.Common.{
  ℕ, ◌+◌, ◌/◌, ◌≡◌, refl, ap, true, false, List, [], ◌∷◌, none, some, length, replicate,
}
use atvr4samsung.Clients.{Clients, PairedClients, Env, Moment, FromHex, opened, hex}
use atvr4samsung.Clients.Calls.{new_store}
use atvr4samsung.Clients.Capacity.{IsValid}
use atvr4samsung.Clients.Bounded.{ReadsHex, adds, removes, asks, serve_all, new_store-IsValid}

-- Two digits to a byte.
abbrev half : FromHex
half text = some (length text / 2)

length-hex : (b : List ℕ) → length (hex b) ≡ length b + length b
unfolding hex
length-hex [] = refl
length-hex (b ∷ bs) = omega (arith, length-hex bs)

half-ReadsHex : ReadsHex half
half-ReadsHex b = ap some (omega (arith, length-hex b))

abbrev key : List ℕ
key = replicate 32 17

abbrev stored : Clients
stored = (80 ∷ [], hex key) ∷ []

-- The record with the stamp 5, and no marker.
abbrev moment : Moment
moment = record {
  fails = false;
  stamps = record { clients = some 5; legacy_clear_all = none; identity_reset = none };
  content = some stored;
}

abbrev still : Env
still = record { opening = opened 1; chain_is_current = true; at = λ k. moment }

abbrev new_file_store : PairedClients
new_file_store = new_store true

new_store-IsValid_example : IsValid half (
    serve_all half new_file_store (
      adds (λ n. still) true (81 ∷ []) key
      ∷ asks still (80 ∷ []) key
      ∷ removes (λ n. still) true (80 ∷ [])
      ∷ []))
new_store-IsValid_example = new_store-IsValid half half-ReadsHex true (
    adds (λ n. still) true (81 ∷ []) key
    ∷ asks still (80 ∷ []) key
    ∷ removes (λ n. still) true (80 ∷ [])
    ∷ [])
