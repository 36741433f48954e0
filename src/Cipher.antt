-- ===== src/Cipher.antt =====
-- src/atvr4samsung/companion/protocol/chacha20.py: the counters and nonces of the session cipher.
-- ChaCha20-Poly1305 itself is a value of `Aead`: `seal` encrypts, `unseal` has none on InvalidTag.
pub mod Nonces
pub mod Runs
mod Tests
use atvr4samsung.Common.{
  ℕ, ◌+◌, ◌-◌, ◌^◌, Bool, true, false, List, [], ◌∷◌, ◌++◌, Option, none, some, length, replicate,
  ltb, ◌==◌, if◌then◌else◌,
}
use atvr4samsung.Common.Bytes.{to_le}

pub record Aead : Type 0 where
  pub seal : List ℕ → List ℕ → List ℕ → Option (List ℕ) → List ℕ
  pub unseal : List ℕ → List ℕ → List ℕ → Option (List ℕ) → Option (List ℕ)

pub record Cipher : Type 0 where
  pub out_key : List ℕ
  pub in_key : List ℕ
  pub out_counter : ℕ
  pub in_counter : ℕ
  pub counter_length : ℕ

abbrev pub nonce_length : ℕ
nonce_length = 12

abbrev pub new_cipher : List ℕ → List ℕ → ℕ → Cipher
new_cipher out_key in_key counter_length = record {
  out_key = out_key;
  in_key = in_key;
  out_counter = 0;
  in_counter = 0;
  counter_length = counter_length;
}

-- `_pad_nonce`
unfoldable pub pad_nonce : List ℕ → List ℕ
pad_nonce nonce = replicate (nonce_length - length nonce) 0 ++ nonce

-- `out_nonce` and `in_nonce`: `to_bytes` raises OverflowError once the counter does not fit.
unfoldable pub counter_nonce : ℕ → ℕ → Option (List ℕ)
unfolding pad_nonce
counter_nonce size counter =
    if ltb counter (256 ^ size)
    then some (if size == nonce_length then to_le size counter else pad_nonce (to_le size counter))
    else none

abbrev pub given_nonce : List ℕ → List ℕ
given_nonce nonce = if ltb (length nonce) nonce_length then pad_nonce nonce else nonce

abbrev pub encrypt_with :
    Aead → List ℕ → Option (List ℕ) → Cipher → Option (List ℕ) → Option (Cipher × List ℕ)
encrypt_with aead plain aad c none = none
encrypt_with aead plain aad c (some nonce) =
    some (record c { out_counter = c.out_counter + 1 }, aead.seal c.out_key nonce plain aad)

-- `encrypt`: none where it raises OverflowError, with the counter as it was.
unfoldable pub encrypt :
    Aead → List ℕ → Option (List ℕ) → Option (List ℕ) → Cipher → Option (Cipher × List ℕ)
unfolding counter_nonce pad_nonce
encrypt aead plain none aad c =
    encrypt_with aead plain aad c (counter_nonce c.counter_length c.out_counter)
encrypt aead plain (some nonce) aad c = some (c, aead.seal c.out_key (given_nonce nonce) plain aad)

abbrev pub decrypt_with :
    Aead → List ℕ → Option (List ℕ) → Cipher → Option (List ℕ) → Option (Cipher × Option (List ℕ))
decrypt_with aead coded aad c none = none
decrypt_with aead coded aad c (some nonce) =
    some (record c { in_counter = c.in_counter + 1 }, aead.unseal c.in_key nonce coded aad)

-- `decrypt`: the counter moves on even where the message is refused.
unfoldable pub decrypt :
    Aead → List ℕ → Option (List ℕ) → Option (List ℕ) → Cipher → Option (Cipher × Option (List ℕ))
unfolding counter_nonce pad_nonce
decrypt aead coded none aad c =
    decrypt_with aead coded aad c (counter_nonce c.counter_length c.in_counter)
decrypt aead coded (some nonce) aad c = some (c, aead.unseal c.in_key (given_nonce nonce) coded aad)
