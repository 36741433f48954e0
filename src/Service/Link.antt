-- ===== src/Service/Link.antt =====
-- What `send_to_client` writes is what the parser and the cipher at the other end read.
use mathlib.Core.Option.{some-injective, none-ne-some}
use mathlib.Core.Path.{subst}
use atvr4samsung.Common.{
  ℕ, ◌+◌, ◌≤◌, ◌<◌, ◌≡◌, refl, sym, ap, ◌∙◌, ltb, List, [], ◌∷◌, ◌++◌, Option, none, some, arith,
  length, take_all, drop_all, le→ltb, if◌then◌else◌,
}
use atvr4samsung.Common.Bytes.{to_be, from_be}
use atvr4samsung.Common.Options.{◌>>=◌}
use atvr4samsung.Enums.{FrameType, find_frame_code}
use atvr4samsung.Cipher.{Cipher, Aead, encrypt, encrypt_with, decrypt}
use atvr4samsung.Cipher.Nonces.{InStep, decrypt-encrypt}
use atvr4samsung.Framing.{
  CompanionFrame, finished, max_application_payload, max_wire_payload, new_parser, declared, feed,
  frame_of,
}
use atvr4samsung.Framing.Stream.{
  Splits, frame, part_header, waiting, Reads-unique, feed-Reads, new_parser-IsValid,
}
use atvr4samsung.Opack.{Value}
use atvr4samsung.Opack.Pack.{pack}
use atvr4samsung.Auth.Proof.{bind_some}
use atvr4samsung.Service.{Service, World, connected, is_open}
use atvr4samsung.Service.Wire.{header_of, tag_size, send_to_client, sealed, write}
use atvr4samsung.Service.Frames.{type_of_header}

declared-header_of :
    (t : FrameType) (n : ℕ) (payload : List ℕ)
    → n < 16777216
    → declared (header_of t n ++ payload) ≡ n
unfolding declared to_be from_be
declared-header_of t n payload h = omega arith

abbrev pub whole : FrameType → List ℕ → CompanionFrame
whole t payload = record { header = header_of t (length payload); payload = payload }

length-header_of :
    (t : FrameType) (n : ℕ) (payload : List ℕ)
    → length (header_of t n ++ payload) ≡ 4 + length payload
unfolding to_be
length-header_of t n payload = omega arith

frame_of-header_of :
    (t : FrameType) (n : ℕ) (payload : List ℕ)
    → frame_of (header_of t n ++ payload) ≡ record { header = header_of t n; payload = payload }
unfolding to_be
frame_of-header_of t n payload = refl

-- A new parser reads a frame back whole and is a new one again.
feed-header_of :
    (max_payload : ℕ) (t : FrameType) (payload : List ℕ)
    → length payload ≤ max_payload
    → length payload < 16777216
    → feed (new_parser max_payload) (header_of t (length payload) ++ payload)
      ≡ (whole t payload ∷ [], finished, new_parser max_payload)
feed-header_of max_payload t payload b h =
    Reads-unique max_payload all _ _
      (feed-Reads (new_parser max_payload) all (new_parser-IsValid max_payload))
      (
        subst (λ (f : CompanionFrame). Splits max_payload all (f ∷ []) (waiting []))
            (ap frame_of (take_all (4 + declared all) all (omega (arith, l, e)))
              ∙ frame_of-header_of t _ payload)
            (frame all (omega (arith, l)) (omega (arith, e)) (omega (arith, l, e)) (
              subst (λ rest. Splits max_payload rest [] (waiting []))
                (sym (drop_all (4 + declared all) all (omega (arith, l, e))))
                (part_header [] (omega arith)))),
        new_parser-IsValid max_payload,
        refl,
        tt,
      )
  where
    all : List ℕ
    all = header_of t (length payload) ++ payload

    l : length all ≡ 4 + length payload
    l = length-header_of t (length payload) payload

    e : declared all ≡ length payload
    e = declared-header_of t (length payload) payload h

-- What the other end makes of a frame that carries `encoded`: a new parser reads one frame of that
-- type and nothing is left over, and its cipher opens the payload under the frame's header.
pub record Delivered (aead : Aead) (t : FrameType) (encoded written : List ℕ) (r : Cipher)
    (sent : Option Cipher) : Type 0 where
  pub read : CompanionFrame
  pub parsed :
      feed (new_parser max_wire_payload) written
      ≡ (read ∷ [], finished, new_parser max_wire_payload)
  pub typed : type_of_header read.header ≡ some t
  pub next : Cipher × Cipher
  pub opens : decrypt aead read.payload none (some read.header) r ≡ some (next.1, some encoded)
  pub sender : sent ≡ some next.0
  pub in_step : InStep next.0 next.1

write-connected :
    {D : Type 0} (made : List ℕ) (s : Service D)
    → s.transport ≡ connected
    → write made s ≡ record s { written = s.written ++ (made ∷ []) }
write-connected made s w =
    ap (λ t. if is_open t then record s { written = s.written ++ (made ∷ []) } else s) w

length-encrypt :
    (aead : Aead) (encoded : List ℕ) (aad : Option (List ℕ)) (c c' : Cipher) (coded : List ℕ)
    → ((key nonce plain : List ℕ) (aad : Option (List ℕ))
        → length (aead.seal key nonce plain aad) ≡ length plain + tag_size)
    → encrypt aead encoded none aad c ≡ some (c', coded)
    → length coded ≡ length encoded + tag_size
unfolding encrypt
length-encrypt aead encoded aad c c' coded size = numbered _
  where
    numbered :
        (o : Option (List ℕ))
        → encrypt_with aead encoded aad c o ≡ some (c', coded)
        → length coded ≡ length encoded + tag_size
    numbered none e = absurd (none-ne-some _ e)
    numbered (some nonce) e =
        ap (λ (r : Cipher × List ℕ). length r.1) (sym (some-injective _ _ e))
        ∙ size c.out_key nonce encoded aad

-- `send_to_client` over an installed cipher is `sealed`.
sealed-send_to_client :
    {D : Type 0} (world : World) (t : FrameType) (value : Value) (s : Service D) (c : Cipher)
    (encoded : List ℕ)
    → s.chacha ≡ some c
    → pack world.runtime value ≡ some encoded
    → length encoded ≤ max_application_payload
    → send_to_client world t value s ≡ sealed world t encoded s (some c)
unfolding send_to_client
sealed-send_to_client world t value s c encoded k p l =
    ap
      (λ o. o >>= (λ e.
        if ltb max_application_payload (length e) then some s else sealed world t e s s.chacha))
      p
    ∙ ap (λ b. if b then some s else sealed world t encoded s s.chacha) (le→ltb _ _ l)
    ∙ ap (sealed world t encoded s) k

-- A message that is sent over an installed cipher, whose packed form is within the limit, is written
-- as one frame more, which the other end delivers: where that end holds the mirrored cipher, and the
-- AEAD opens what it sealed and adds a tag of sixteen bytes.
pub send_to_client-Delivered :
    (D : Type 0) (world : World) (t : FrameType) (value : Value) (s sent : Service D) (c r : Cipher)
    (encoded : List ℕ)
    → ((key nonce plain : List ℕ) (aad : Option (List ℕ))
        → world.aead.unseal key nonce (world.aead.seal key nonce plain aad) aad ≡ some plain)
    → ((key nonce plain : List ℕ) (aad : Option (List ℕ))
        → length (world.aead.seal key nonce plain aad) ≡ length plain + tag_size)
    → s.transport ≡ connected
    → s.chacha ≡ some c
    → InStep c r
    → pack world.runtime value ≡ some encoded
    → length encoded ≤ max_application_payload
    → send_to_client world t value s ≡ some sent
    → (written : List ℕ) × (sent.written ≡ s.written ++ (written ∷ []))
      × Delivered world.aead t encoded written r sent.chacha
send_to_client-Delivered D world t value s sent c r encoded law size w k i p l e =
    let header = header_of t (length encoded + tag_size) in
    let ((c', coded), f, g) =
      bind_some (encrypt world.aead encoded none (some header) c)
        (sym (sealed-send_to_client world t value s c encoded k p l) ∙ e) in
    let n = length-encrypt world.aead encoded (some header) c c' coded size f in
    let made =
      sym (some-injective _ _ g)
      ∙ write-connected (header ++ coded) (record s { chacha = some c' }) w in
    let (got, d, j) = decrypt-encrypt world.aead law encoded (some header) c r c' coded i f in
    (
      header ++ coded,
      ap (λ (u : Service D). u.written) made,
      record {
        read = record { header = header; payload = coded };
        parsed =
            subst
              (λ (m : ℕ). feed (new_parser max_wire_payload) (header_of t m ++ coded) ≡ (
                record { header = header_of t m; payload = coded } ∷ [],
                finished,
                new_parser max_wire_payload,
              ))
              n
              (feed-header_of max_wire_payload t coded (omega (arith, n, l)) (omega (arith, n, l)));
        typed = find_frame_code t;
        next = (c', got);
        opens = d;
        sender = ap (λ (u : Service D). u.chacha) made;
        in_step = j;
      },
    )
