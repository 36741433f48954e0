-- ===== src/Cipher/Tests.antt =====
-- Runs of the cipher, with a toy AEAD that puts the nonce in front of the message.
use atvr4samsung.Common.{
  ℕ, ◌≡◌, refl, ap, List, [], ◌∷◌, ◌++◌, Option, none, some, length, drop, drop-append,
}
use atvr4samsung.Common.Bytes.{to_le}
use atvr4samsung.Cipher.{Aead, Cipher, new_cipher, counter_nonce, encrypt, decrypt}
use atvr4samsung.Cipher.Nonces.{InStep, decrypt-encrypt}
use atvr4samsung.Cipher.Runs.{
  Use, sends, receives, run_uses, Sealed, AllDistinct, run_uses-AllDistinct,
}

abbrev toy : Aead
toy = record {
  seal = λ key nonce plain aad. nonce ++ plain;
  unseal = λ key nonce coded aad. some (drop (length nonce) coded);
}

toy-law :
    (key nonce plain : List ℕ) (aad : Option (List ℕ))
    → toy.unseal key nonce (toy.seal key nonce plain aad) aad ≡ some plain
toy-law key nonce plain aad = ap some (drop-append (length nonce) nonce plain refl)

-- The two ends of a connection.
abbrev server : Cipher
server = new_cipher (1 ∷ []) (2 ∷ []) 12

abbrev phone : Cipher
phone = new_cipher (2 ∷ []) (1 ∷ []) 12

abbrev zeros : List ℕ
zeros = 0 ∷ 0 ∷ 0 ∷ 0 ∷ 0 ∷ 0 ∷ 0 ∷ 0 ∷ 0 ∷ 0 ∷ 0 ∷ 0 ∷ []

abbrev start : ℕ
start = 0

first_nonce : counter_nonce 12 0 ≡ some zeros
unfolding counter_nonce to_le
first_nonce = refl

padded_nonce : counter_nonce 8 258 ≡ some (0 ∷ 0 ∷ 0 ∷ 0 ∷ 2 ∷ 1 ∷ 0 ∷ 0 ∷ 0 ∷ 0 ∷ 0 ∷ 0 ∷ [])
unfolding counter_nonce to_le
padded_nonce = refl

overflow : counter_nonce 1 256 ≡ none
unfolding counter_nonce to_le
overflow = refl

encrypt-seven :
    encrypt toy (7 ∷ []) none none server
    ≡ some (record server { out_counter = 1 }, zeros ++ (7 ∷ []))
unfolding encrypt to_le
encrypt-seven = refl

decrypt-encrypt_example :
    (got : Cipher) × (decrypt toy (zeros ++ (7 ∷ [])) none none phone ≡ some (got, some (7 ∷ [])))
    × InStep (record server { out_counter = 1 }) got
decrypt-encrypt_example =
    decrypt-encrypt toy toy-law (7 ∷ []) none server phone (record server { out_counter = 1 })
      (zeros ++ (7 ∷ [])) (refl, refl, refl) encrypt-seven

-- The same message twice, with one that came between.
abbrev talk : List Use
talk = sends (7 ∷ []) none ∷ receives (9 ∷ []) none ∷ sends (7 ∷ []) none ∷ []

abbrev ones : List ℕ
ones = 1 ∷ 0 ∷ 0 ∷ 0 ∷ 0 ∷ 0 ∷ 0 ∷ 0 ∷ 0 ∷ 0 ∷ 0 ∷ 0 ∷ []

run_uses-talk :
    run_uses toy talk server
    ≡ some (
      record server { out_counter = 2; in_counter = 1 },
      (zeros ++ (7 ∷ [])) ∷ (ones ++ (7 ∷ [])) ∷ [],
    )
unfolding encrypt decrypt to_le
run_uses-talk = refl

run_uses-AllDistinct_example :
    (nonces : List (List ℕ)) × Sealed toy
      (1 ∷ [])
      talk
      nonces
      ((zeros ++ (7 ∷ [])) ∷ (ones ++ (7 ∷ [])) ∷ [])
    × AllDistinct nonces
run_uses-AllDistinct_example =
    run_uses-AllDistinct toy talk server (record server { out_counter = 2; in_counter = 1 })
      ((zeros ++ (7 ∷ [])) ∷ (ones ++ (7 ∷ [])) ∷ []) run_uses-talk
