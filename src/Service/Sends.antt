-- ===== src/Service/Sends.antt =====
-- What sending leaves of a connection, and that authentication and malformed frames leave the session.
use mathlib.Core.Option.{some-injective}
use mathlib.Core.Path.{subst}
use atvr4samsung.Common.{
  ℕ, suc, ◌≡◌, refl, ap, ◌∙◌, Bool, true, false, ◌&&◌, ltb, leb, List, [], ◌∷◌, ◌++◌, Option, none,
  some, ◌+◌, arith, length, drop, if◌then◌else◌,
}
use atvr4samsung.Enums.{FrameType, e_opack}
use atvr4samsung.Tlv8.{Dict, Result, write_tlv, ok, err}
use atvr4samsung.Cipher.{Cipher, encrypt}
use atvr4samsung.Auth.Proof.{bind_some}
use atvr4samsung.Auth.Exchange.{handle_auth_frame}
use atvr4samsung.Opack.{Value, text, bytes, object, no_fields, field}
use atvr4samsung.Opack.Pack.{pack}
use atvr4samsung.Framing.{CompanionFrame, max_application_payload}
use atvr4samsung.Service.{
  Service, World, Transport, no_transport, connected, closing, is_some, is_open, close_connection,
  malformed_frame, malformed_frame_limit,
}
use atvr4samsung.Service.Wire.{
  send_to_client, send_error, send_handler_not_supported, item_of, key_i, key_x, key_pd, sealed,
  write, error_message, error_domain, no_handler, header_of, tag_size,
}
use atvr4samsung.Service.Frames.{
  verified_client_is_authorized, send_encoded, send_replies, enable_encryption, authenticate,
  bytes_of,
}
use atvr4samsung.Service.Outcome.{Opened, opened}

module _ {D : Type 0} where
  -- Only the cipher's counters and what was written differ.
  abbrev pub Sends : Service D → Service D → Type 0
  Sends s t = t ≡ record s { chacha = t.chacha; written = t.written }

  pub Sends-write : (frame : List ℕ) (s : Service D) → Sends s (write frame s)
  Sends-write frame s = written s.transport
    where
      written :
          (t : Transport)
          → Sends s (if is_open t then record s { written = s.written ++ (frame ∷ []) } else s)
      written no_transport = refl
      written connected = refl
      written closing = refl

  pub Sends-trans : (s t u : Service D) → Sends s t → Sends t u → Sends s u
  Sends-trans s t u p q =
      q ∙ ap (λ (v : Service D). record v { chacha = u.chacha; written = u.written }) p

  pub Sends-sealed :
      (world : World) (frame_type : FrameType) (encoded : List ℕ) (s : Service D)
      (o : Option Cipher) (t : Service D)
      → sealed world frame_type encoded s o ≡ some t
      → Sends s t
  Sends-sealed world frame_type encoded s none t e =
      subst (Sends s) (some-injective _ _ e) (Sends-write _ s)
  Sends-sealed world frame_type encoded s (some c) t e =
      let (sent, p, w) =
        bind_some
          (encrypt world.aead encoded none (some (header_of frame_type (length encoded + tag_size)))
            c)
          e in
      subst (Sends s) (some-injective _ _ w) (Sends-write _ (record s { chacha = some sent.0 }))

  pub Sends-send_to_client :
      (world : World) (frame_type : FrameType) (value : Value) (s t : Service D)
      → send_to_client world frame_type value s ≡ some t
      → Sends s t
  unfolding send_to_client
  Sends-send_to_client world frame_type value s t e =
      let (encoded, p, w) = bind_some (pack world.runtime value) e in
      fits encoded (ltb max_application_payload (length encoded)) w
    where
      fits :
          (encoded : List ℕ) (b : Bool)
          → (if b then some s else sealed world frame_type encoded s s.chacha) ≡ some t
          → Sends s t
      fits encoded true w = subst (Sends s) (some-injective _ _ w) refl
      fits encoded false w = Sends-sealed world frame_type encoded s s.chacha t w

  pub Sends-send_handler_not_supported :
      (world : World) (value : Value) (s t : Service D)
      → send_handler_not_supported world value s ≡ some t
      → Sends s t
  unfolding send_handler_not_supported send_error
  Sends-send_handler_not_supported world value s t e =
      let (i, p, w) = bind_some (item_of key_i value) e in
      let (x, q, w') = bind_some (item_of key_x value) w in
      Sends-send_to_client world e_opack (error_message i x no_handler 58822 error_domain) s t w'

  pub Sends-send_replies :
      (world : World) (replies : List (FrameType × Dict)) (s : Service D)
      → Sends s (send_replies world replies s)
  unfolding send_replies
  Sends-send_replies world [] s = refl
  Sends-send_replies world ((frame_type, tlv) ∷ replies) s =
      Sends-trans s _ _ (encoded (write_tlv tlv)) (Sends-send_replies world replies _)
    where
      sent :
          (o : Option (Service D)) (value : Value)
          → send_to_client world frame_type value s ≡ o
          → Sends s (elim o [ none ↦ s | some t ↦ t ])
      sent none value e = refl
      sent (some t) value e = Sends-send_to_client world frame_type value s t e

      encoded : (r : Result (List ℕ)) → Sends s (send_encoded world frame_type r s)
      encoded (err e) = refl
      encoded (ok bs) =
          let value = object (field (text key_pd) (bytes bs) no_fields) in
          sent (send_to_client world frame_type value s) value refl

  pub session-authenticate :
      (world : World) (frame_type : FrameType) (v : Value) (s : Service D)
      → (authenticate world frame_type v s).0.session ≡ s.session
  unfolding authenticate
  session-authenticate world frame_type v s =
      let (a, more) =
        handle_auth_frame world.auth frame_type (bytes_of (item_of key_pd v)) s.auth in
      let replies = drop (length s.auth.sent) a.sent in
      installed a.cipher (send_replies world replies (record s { auth = a }))
      ∙ ap (λ (t : Service D). t.session) (Sends-send_replies world replies (record s { auth = a }))
    where
      installed :
          (keys : Option (List ℕ × List ℕ)) (t : Service D)
          → (enable_encryption keys t).session ≡ t.session
      installed none t = refl
      installed (some (output_key, input_key)) t = refl

  abbrev pub session_of : Service D × Bool → D
  session_of r = r.0.session

  pub session-malformed_frame : (s : Service D) → (malformed_frame s).0.session ≡ s.session
  unfolding malformed_frame
  session-malformed_frame s = over (leb malformed_frame_limit (suc s.malformed_frames))
    where
      over :
          (t : Bool)
          → session_of (
              if t
              then (
                close_connection (record s { malformed_frames = suc s.malformed_frames }),
                false,
              )
              else (record s { malformed_frames = suc s.malformed_frames }, true))
            ≡ s.session
      over true = refl
      over false = refl

  pub session-Opened :
      (world : World) (frame : CompanionFrame) (s t : Service D) (payload : List ℕ)
      → Opened world frame s payload t
      → (t.session ≡ s.session)
        × ((is_some s.chacha && verified_client_is_authorized world s.auth) ≡ true)
  session-Opened world frame s _ payload (opened c c' p k a e) =
      (refl, ground (arith, ap is_some k))
