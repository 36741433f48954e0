-- ===== src/Service/Commanded.antt =====
-- What changes the session: one method, on one message that the cipher opened.
use atvr4samsung.Common.{
  ℕ, ◌≡◌, refl, arith, ◌∙◌, Bool, true, false, not, ◌&&◌, ◌||◌, ltb, length, List, Option, none,
  some, if◌then◌else◌,
}
use atvr4samsung.Common.Options.{◌>>=◌}
use atvr4samsung.Enums.{FrameType}
use atvr4samsung.Cipher.{Cipher, decrypt}
use atvr4samsung.Framing.{CompanionFrame, max_application_payload}
use atvr4samsung.Opack.{Value}
use atvr4samsung.Opack.Unpack.{Step, got, raised, out_of_fuel, unpack}
use atvr4samsung.Auth.Exchange.{is_encrypted}
use atvr4samsung.Service.{Service, Handlers, World, is_some, malformed_frame}
use atvr4samsung.Service.Wire.{item_of, key_i}
use atvr4samsung.Service.Frames.{
  is_auth_frame, is_no_op, is_empty, type_of_header, verified_client_is_authorized, refuse, go_on,
  authenticate, handle_auth, handle_identified, is_bare_response, handle_message, handle_unpacked,
  handle_data, handle_decrypted, handle_open, handle_typed, handle_frame,
}
use atvr4samsung.Service.Sends.{session-authenticate, session-malformed_frame, session_of}
use atvr4samsung.Service.Command.{
  require, command_in, command_of, commanded, commanded_of_session, session-handle_data,
}

module _ {D : Type 0} where
  session-handle_auth : (r : Service D × Bool) → session_of (handle_auth r) ≡ r.0.session
  session-handle_auth (t, true) = refl
  session-handle_auth (t, false) = refl

  -- Without a cipher, or for a pairing frame, no method runs.
  kept-handle_data :
      (h : Handlers D) (world : World) (frame_type : FrameType) (payload : List ℕ) (s : Service D)
      → (is_auth_frame frame_type || not (is_some s.chacha)) ≡ true
      → session_of (handle_data h world frame_type payload s) ≡ s.session
  unfolding handle_data handle_message
  kept-handle_data h world frame_type payload s k =
      sized (ltb max_application_payload (length payload))
    where
      message :
          (v : Value) (b c : Bool)
          → (b || not c) ≡ true
          → session_of (
              if b
              then handle_auth (authenticate world frame_type v s)
              else if c
              then (if is_bare_response v
                  then go_on s
                  else handle_identified h world v s (item_of key_i v))
              else malformed_frame s)
            ≡ s.session
      message v true c e =
          session-handle_auth (authenticate world frame_type v s)
          ∙ session-authenticate world frame_type v s
      message v false true e = cc
      message v false false e = session-malformed_frame s

      read :
          (step : Step Value) → session_of (handle_unpacked h world frame_type s step) ≡ s.session
      read (got v table rest) = message v (is_auth_frame frame_type) (is_some s.chacha) k
      read raised = session-malformed_frame s
      read out_of_fuel = session-malformed_frame s

      sized :
          (b : Bool)
          → session_of (
              if b
              then refuse s
              else handle_unpacked h world frame_type s (unpack world.runtime payload))
            ≡ s.session
      sized true = refl
      sized false = read (unpack world.runtime payload)

  module _ (h : Handlers D) (world : World) (frame : CompanionFrame) (s : Service D) where
    opened :
        (frame_type : FrameType) (o : Option (Cipher × Option (List ℕ)))
        → is_auth_frame frame_type ≡ false
        → session_of (handle_decrypted h world frame_type s o)
          ≡ commanded s (do
            opened ← o
            payload ← opened.1
            command_in h world (record s { chacha = some opened.0 }) payload)
    opened frame_type none n = refl
    opened frame_type (some (c, none)) n = refl
    opened frame_type (some (c, some payload)) n =
        session-handle_data h world frame_type payload s c n
        ∙ commanded_of_session s (record s { chacha = some c })
            (command_in h world (record s { chacha = some c }) payload) refl

    -- A frame that is refused leaves the session as it is.
    refused :
        (b : Bool) (r : Service D × Bool)
        → session_of r ≡ s.session
        → session_of (if b then refuse s else r) ≡ s.session
    refused true r e = refl
    refused false r e = e

    allowed :
        (frame_type : FrameType) (c : Cipher) (a b : Bool)
        → is_auth_frame frame_type ≡ false
        → session_of (
            if not a
            then refuse s
            else if b
            then go_on s
            else handle_decrypted h world frame_type s
                (decrypt world.aead frame.payload none (some frame.header) c))
          ≡ commanded s (do
            allowed ← require a
            filled ← require (not b)
            opened ← decrypt world.aead frame.payload none (some frame.header) c
            payload ← opened.1
            command_in h world (record s { chacha = some opened.0 }) payload)
    allowed frame_type c false b n = refl
    allowed frame_type c true true n = refl
    allowed frame_type c true false n =
        opened frame_type (decrypt world.aead frame.payload none (some frame.header) c) n

    paired :
        (frame_type : FrameType) (o : Option Cipher)
        → is_auth_frame frame_type ≡ true
        → session_of (handle_open h world frame_type frame.header frame.payload s o) ≡ s.session
    paired frame_type none n =
        kept-handle_data h world frame_type frame.payload s (ground (arith, n))
    paired frame_type (some c) n =
        rw n (kept-handle_data h world frame_type frame.payload s (ground (arith, n)))

    cased :
        (frame_type : FrameType) (a : Bool) (o : Option Cipher)
        → is_auth_frame frame_type ≡ a
        → s.chacha ≡ o
        → session_of (
            if a && (is_some o || is_encrypted s.auth.phase)
            then refuse s
            else if ltb max_application_payload (length frame.payload) && (not (is_some o) || a)
            then refuse s
            else handle_open h world frame_type frame.header frame.payload s o)
          ≡ commanded s (do
            message ← require (not a)
            c ← o
            allowed ← require (verified_client_is_authorized world s.auth)
            filled ← require (not (is_no_op frame_type && is_empty frame.payload))
            opened ← decrypt world.aead frame.payload none (some frame.header) c
            payload ← opened.1
            command_in h world (record s { chacha = some opened.0 }) payload)
    cased frame_type true o n k = refused (is_some o || is_encrypted s.auth.phase) _ (
        refused (ltb max_application_payload (length frame.payload) && (not (is_some o) || true))
          (handle_open h world frame_type frame.header frame.payload s o) (paired frame_type o n))
    cased frame_type false none n k =
        refused (ltb max_application_payload (length frame.payload) && true)
          (handle_open h world frame_type frame.header frame.payload s none)
          (kept-handle_data h world frame_type frame.payload s (rw k (ground arith)))
    cased frame_type false (some c) n k =
        never (ltb max_application_payload (length frame.payload))
          (handle_open h world frame_type frame.header frame.payload s (some c)) _
          (rw n (
            allowed frame_type c (verified_client_is_authorized world s.auth)
              (is_no_op frame_type && is_empty frame.payload) n))
      where
        never :
            (b : Bool) (r : Service D × Bool) (x : D)
            → session_of r ≡ x
            → session_of (if b && false then refuse s else r) ≡ x
        never true r x e = e
        never false r x e = e

    typed :
        (o : Option FrameType)
        → session_of (handle_typed h world frame.header frame.payload s o)
          ≡ commanded s (do
            frame_type ← o
            message ← require (not (is_auth_frame frame_type))
            c ← s.chacha
            allowed ← require (verified_client_is_authorized world s.auth)
            filled ← require (not (is_no_op frame_type && is_empty frame.payload))
            opened ← decrypt world.aead frame.payload none (some frame.header) c
            payload ← opened.1
            command_in h world (record s { chacha = some opened.0 }) payload)
    typed none = session-malformed_frame s
    typed (some frame_type) = cased frame_type (is_auth_frame frame_type) s.chacha refl refl

    -- Whatever frame comes in, the session is left as it is unless the frame is a command, and then it
    -- becomes what the command's method makes of it: the one method of the message's lower-cased name,
    -- called once with the message that the connection's cipher opened under the frame's header, for a
    -- client that the store authorizes.
    pub handle_frame-commanded :
        (handle_frame h world frame s).0.session ≡ commanded s (command_of h world frame s)
    unfolding handle_frame
    handle_frame-commanded = typed (type_of_header frame.header)
