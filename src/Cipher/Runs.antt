-- ===== src/Cipher/Runs.antt =====
-- Runs of a cipher: what it encrypts and decrypts under its counters, in any order.
use mathlib.Core.Path.{subst}
use mathlib.Core.Option.{some-injective, none-ne-some}
use atvr4samsung.Common.{
  ℕ, ◌+◌, ◌≤◌, ◌≡◌, ◌≢◌, refl, sym, ap, ◌∙◌, List, [], ◌∷◌, Option, none, some, All, arith,
}
use atvr4samsung.Common.Options.{◌>>=◌, bind_some}
use atvr4samsung.Cipher.{Aead, Cipher, counter_nonce, encrypt, encrypt_with, decrypt, decrypt_with}
use atvr4samsung.Cipher.Nonces.{counter_nonce-injective}

-- A use of the cipher: a message to send, or one that came, with its additional data.
pub data Use : Type 0 where
  sends receives : List ℕ → Option (List ℕ) → Use

-- The cipher behind the uses, and what it encrypted; none where a counter overflowed.
abbrev pub run_uses : Aead → List Use → Cipher → Option (Cipher × List (List ℕ))
run_uses aead [] c = some (c, [])
run_uses aead (sends plain aad ∷ uses) c = do
  sent ← encrypt aead plain none aad c
  rest ← run_uses aead uses sent.0
  some (rest.0, sent.1 ∷ rest.1)
run_uses aead (receives coded aad ∷ uses) c = do
  got ← decrypt aead coded none aad c
  run_uses aead uses got.0

-- Each message is sealed under the key with a nonce of its own in the list.
pub data Sealed (aead : Aead) (key : List ℕ)
    : List Use → List (List ℕ) → List (List ℕ) → Type 0 where
  nothing : Sealed aead key [] [] []
  sealed :
      {plain : List ℕ} {aad : Option (List ℕ)} {uses : List Use} {nonce : List ℕ}
      {nonces codeds : List (List ℕ)}
      → Sealed aead key uses nonces codeds
      → Sealed aead key
          (sends plain aad ∷ uses)
          (nonce ∷ nonces)
          (aead.seal key nonce plain aad ∷ codeds)
  passed :
      {coded : List ℕ} {aad : Option (List ℕ)} {uses : List Use} {nonces codeds : List (List ℕ)}
      → Sealed aead key uses nonces codeds
      → Sealed aead key (receives coded aad ∷ uses) nonces codeds

abbrev pub AllDistinct : List (List ℕ) → Type 0
AllDistinct [] = Unit
AllDistinct (n ∷ ns) = All (λ m. m ≢ n) ns × AllDistinct ns

-- The nonce of a counter that is not behind `from`.
abbrev NonceFrom : ℕ → ℕ → List ℕ → Type 0
NonceFrom size from nonce = (j : ℕ) × (from ≤ j) × (counter_nonce size j ≡ some nonce)

All-later :
    (size from to : ℕ) (ns : List (List ℕ))
    → from ≤ to
    → All (NonceFrom size to) ns
    → All (NonceFrom size from) ns
All-later size from to [] h a = tt
All-later size from to (n ∷ ns) h ((j, l, e), a) =
    ((j, omega arith, e), All-later size from to ns h a)

All-unlike :
    (size i : ℕ) (nonce : List ℕ) (ns : List (List ℕ))
    → counter_nonce size i ≡ some nonce
    → All (NonceFrom size (i + 1)) ns
    → All (λ m. m ≢ nonce) ns
All-unlike size i nonce [] e a = tt
All-unlike size i nonce (n ∷ ns) e ((j, l, f), a) = (
  λ same.
      let g = counter_nonce-injective size i j nonce e (f ∙ ap some same) in absurd (omega arith),
  All-unlike size i nonce ns e a,
)

encrypt-some :
    (aead : Aead) (plain : List ℕ) (aad : Option (List ℕ)) (c d : Cipher) (coded : List ℕ)
    → encrypt aead plain none aad c ≡ some (d, coded)
    → (nonce : List ℕ) × (counter_nonce c.counter_length c.out_counter ≡ some nonce)
      × (d ≡ record c { out_counter = c.out_counter + 1 })
      × (coded ≡ aead.seal c.out_key nonce plain aad)
unfolding encrypt
encrypt-some aead plain aad c d coded = numbered _ refl
  where
    numbered :
        (o : Option (List ℕ))
        → counter_nonce c.counter_length c.out_counter ≡ o
        → encrypt_with aead plain aad c o ≡ some (d, coded)
        → (nonce : List ℕ) × (counter_nonce c.counter_length c.out_counter ≡ some nonce)
          × (d ≡ record c { out_counter = c.out_counter + 1 })
          × (coded ≡ aead.seal c.out_key nonce plain aad)
    numbered none p e = absurd (none-ne-some _ e)
    numbered (some nonce) p e =
        let made = some-injective _ _ e in
        (
          nonce,
          p,
          sym (ap (λ (r : Cipher × List ℕ). r.0) made),
          sym (ap (λ (r : Cipher × List ℕ). r.1) made),
        )

decrypt-some :
    (aead : Aead) (coded : List ℕ) (aad : Option (List ℕ)) (c d : Cipher) (o : Option (List ℕ))
    → decrypt aead coded none aad c ≡ some (d, o)
    → d ≡ record c { in_counter = c.in_counter + 1 }
unfolding decrypt
decrypt-some aead coded aad c d o = numbered _
  where
    numbered :
        (n : Option (List ℕ))
        → decrypt_with aead coded aad c n ≡ some (d, o)
        → d ≡ record c { in_counter = c.in_counter + 1 }
    numbered none e = absurd (none-ne-some _ e)
    numbered (some nonce) e =
        sym (ap (λ (r : Cipher × Option (List ℕ)). r.0) (some-injective _ _ e))

-- What a run sealed, with the counters that its nonces come from.
abbrev Ran : Aead → List Use → Cipher → Cipher × List (List ℕ) → Type 0
Ran aead uses c (d, codeds) =
    (nonces : List (List ℕ)) × Sealed aead c.out_key uses nonces codeds
    × AllDistinct nonces
    × All (NonceFrom c.counter_length c.out_counter) nonces

run_uses-Ran :
    (aead : Aead) (uses : List Use) (c : Cipher) (r : Cipher × List (List ℕ))
    → run_uses aead uses c ≡ some r
    → Ran aead uses c r
run_uses-Ran aead [] c r e = subst (Ran aead [] c) (some-injective _ _ e) ([], nothing, tt, tt)
run_uses-Ran aead (sends plain aad ∷ uses) c r e =
    let (sent, p, f) = bind_some (encrypt aead plain none aad c) e in
    let (rest, q, g) = bind_some (run_uses aead uses sent.0) f in
    let (nonce, n, s, k) = encrypt-some aead plain aad c sent.0 sent.1 p in
    let (nonces, sl, dis, from) =
      run_uses-Ran aead uses (record c { out_counter = c.out_counter + 1 }) rest
        (subst (λ d. run_uses aead uses d ≡ some rest) s q) in
    subst (Ran aead (sends plain aad ∷ uses) c) (some-injective _ _ g) (
      nonce ∷ nonces,
      subst (λ x. Sealed aead c.out_key (sends plain aad ∷ uses) (nonce ∷ nonces) (x ∷ rest.1))
          (sym k) (sealed sl),
      (All-unlike c.counter_length c.out_counter nonce nonces n from, dis),
      (
        (c.out_counter, omega arith, n),
        All-later c.counter_length c.out_counter (c.out_counter + 1) nonces (omega arith) from,
      ),
    )
run_uses-Ran aead (receives coded aad ∷ uses) c r e =
    let (got, p, f) = bind_some (decrypt aead coded none aad c) e in
    let (nonces, sl, dis, from) =
      run_uses-Ran aead uses (record c { in_counter = c.in_counter + 1 }) r
        (subst (λ d. run_uses aead uses d ≡ some r) (decrypt-some aead coded aad c got.0 got.1 p)
          f) in
    (nonces, passed sl, dis, from)

-- No two messages that one cipher encrypts under its counter share a nonce: whatever it encrypts and
-- decrypts, in any order, as long as no counter overflows, each message is sealed under the cipher's
-- one key, and the nonces of the messages are pairwise distinct.
pub run_uses-AllDistinct :
    (aead : Aead) (uses : List Use) (c d : Cipher) (codeds : List (List ℕ))
    → run_uses aead uses c ≡ some (d, codeds)
    → (nonces : List (List ℕ)) × Sealed aead c.out_key uses nonces codeds × AllDistinct nonces
run_uses-AllDistinct aead uses c d codeds e =
    let (nonces, s, a, from) = run_uses-Ran aead uses c (d, codeds) e in (nonces, s, a)
