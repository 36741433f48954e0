-- ===== src/Cipher/Nonces.antt =====
-- No counter gives the nonce of another one, and two ends in step understand each other.
use mathlib.Core.Path.{subst}
use mathlib.Core.Option.{some-injective, none-ne-some}
use atvr4samsung.Common.{
  ℕ, ◌+◌, ◌-◌, ◌^◌, ◌<◌, ◌≡◌, refl, sym, ap, ◌∙◌, Bool, true, false, List, Option, none, some,
  length, length-replicate, drop, drop-append, replicate, ltb, ltb→lt, ◌==◌, if◌then◌else◌,
}
use atvr4samsung.Common.Bytes.{to_le, from_le, from_le-to_le, length-to_le}
use atvr4samsung.Cipher.{
  Aead, Cipher, nonce_length, pad_nonce, counter_nonce, encrypt, encrypt_with, decrypt,
  decrypt_with,
}

-- The counter that a nonce stands for.
counter_of : Bool → ℕ → List ℕ → ℕ
counter_of true size nonce = from_le nonce
counter_of false size nonce = from_le (drop (nonce_length - size) nonce)

drop-pad_nonce :
    (size : ℕ) (nonce : List ℕ)
    → length nonce ≡ size
    → drop (nonce_length - size) (pad_nonce nonce) ≡ nonce
unfolding pad_nonce
drop-pad_nonce size nonce e =
    subst (λ n. drop (nonce_length - n) (pad_nonce nonce) ≡ nonce) e
      (drop-append (nonce_length - length nonce) (replicate (nonce_length - length nonce) 0) nonce
        (length-replicate (nonce_length - length nonce) 0))

counter_of-nonce :
    (size counter : ℕ) (t : Bool)
    → counter < 256 ^ size
    → counter_of t size (if t then to_le size counter else pad_nonce (to_le size counter)) ≡ counter
unfolding counter_of
counter_of-nonce size counter true h = from_le-to_le size counter h
counter_of-nonce size counter false h =
    ap from_le (drop-pad_nonce size (to_le size counter) (length-to_le size counter))
    ∙ from_le-to_le size counter h

counter_nonce-some :
    (size counter : ℕ) (nonce : List ℕ)
    → counter_nonce size counter ≡ some nonce
    → counter_of (size == nonce_length) size nonce ≡ counter
unfolding counter_nonce
counter_nonce-some size counter nonce e = fits (ltb counter (256 ^ size)) refl e
  where
    fits :
        (t : Bool)
        → ltb counter (256 ^ size) ≡ t
        → (if t
            then some (
                if size == nonce_length then to_le size counter else pad_nonce (to_le size counter))
            else none)
          ≡ some nonce
        → counter_of (size == nonce_length) size nonce ≡ counter
    fits false h f = absurd (none-ne-some nonce f)
    fits true h f =
        ap (counter_of (size == nonce_length) size) (
          sym (
            some-injective
              (if size == nonce_length then to_le size counter else pad_nonce (to_le size counter))
              nonce f))
        ∙ counter_of-nonce size counter (size == nonce_length) (ltb→lt counter (256 ^ size) h)

-- The same counter nonce means the same counter, for every length of the counter, padded or not.
pub counter_nonce-injective :
    (size i j : ℕ) (nonce : List ℕ)
    → counter_nonce size i ≡ some nonce
    → counter_nonce size j ≡ some nonce
    → i ≡ j
counter_nonce-injective size i j nonce a b =
    sym (counter_nonce-some size i nonce a) ∙ counter_nonce-some size j nonce b

-- The receiver expects the sender's next message.
abbrev pub InStep : Cipher → Cipher → Type 0
InStep s r =
    (s.out_key ≡ r.in_key) × (s.counter_length ≡ r.counter_length) × (s.out_counter ≡ r.in_counter)

-- Where the receiver is in step with the sender, it reads each message that the sender encrypts under
-- its counter as the plain text that went in, and both stay in step.
pub decrypt-encrypt :
    (aead : Aead)
    (law : (key nonce plain : List ℕ) (aad : Option (List ℕ))
      → aead.unseal key nonce (aead.seal key nonce plain aad) aad ≡ some plain)
    (plain : List ℕ) (aad : Option (List ℕ)) (s r sent : Cipher) (coded : List ℕ)
    → InStep s r
    → encrypt aead plain none aad s ≡ some (sent, coded)
    → (got : Cipher) × (decrypt aead coded none aad r ≡ some (got, some plain)) × InStep sent got
unfolding encrypt decrypt
decrypt-encrypt aead law plain aad s r sent coded (k, l, c) e =
    numbered (counter_nonce s.counter_length s.out_counter) same e
  where
    same :
        counter_nonce r.counter_length r.in_counter ≡ counter_nonce s.counter_length s.out_counter
    same = sym (ap (λ n. counter_nonce n s.out_counter) l ∙ ap (counter_nonce r.counter_length) c)

    numbered :
        (o : Option (List ℕ))
        → counter_nonce r.counter_length r.in_counter ≡ o
        → encrypt_with aead plain aad s o ≡ some (sent, coded)
        → (got : Cipher) × (decrypt_with aead coded aad r
              (counter_nonce r.counter_length r.in_counter)
            ≡ some (got, some plain))
          × InStep sent got
    numbered none f g = absurd (none-ne-some (sent, coded) g)
    numbered (some nonce) f g =
        let made =
          some-injective
            (record s { out_counter = s.out_counter + 1 }, aead.seal s.out_key nonce plain aad)
            (sent, coded) g in
        (
          record r { in_counter = r.in_counter + 1 },
          ap (decrypt_with aead coded aad r) f
              ∙ ap (λ d. some (record r { in_counter = r.in_counter + 1 }, d))
                  (ap (λ x. aead.unseal r.in_key nonce x aad) (sym (ap (λ p. p.1) made))
                    ∙ ap (λ x. aead.unseal r.in_key nonce (aead.seal x nonce plain aad) aad) k
                    ∙ law r.in_key nonce plain aad),
          (
            sym (ap (λ p. p.0.out_key) made) ∙ k,
            sym (ap (λ p. p.0.counter_length) made) ∙ l,
            sym (ap (λ p. p.0.out_counter) made) ∙ ap (λ n. n + 1) c,
          ),
        )
