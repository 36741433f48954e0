-- ===== src/Service/Command.antt =====
-- The command that a frame is, by itself, and what it makes of the session.
use atvr4samsung.Common.{
  ℕ, ◌≡◌, refl, ap, Bool, true, false, not, ◌&&◌, ltb, length, List, Option, none, some,
  if◌then◌else◌,
}
use atvr4samsung.Common.Options.{◌>>=◌}
use atvr4samsung.Enums.{FrameType}
use atvr4samsung.Cipher.{Cipher, decrypt}
use atvr4samsung.Framing.{CompanionFrame, max_application_payload}
use atvr4samsung.Opack.{Value, text, bytes}
use atvr4samsung.Opack.Unpack.{Step, got, raised, out_of_fuel, unpack}
use atvr4samsung.Service.{Service, Handlers, World}
use atvr4samsung.Service.Wire.{item_of, key_i, send_handler_not_supported}
use atvr4samsung.Service.Frames.{
  is_auth_frame, is_no_op, is_empty, type_of_header, verified_client_is_authorized, refuse, go_on,
  or_malformed, handled, call_handler, handle_identified, is_bare_response, handle_message,
  handle_unpacked, handle_data,
}
use atvr4samsung.Service.Sends.{
  Sends-send_handler_not_supported, session-malformed_frame, session_of,
}

abbrev pub require : Bool → Option (Unit {0})
require true = some tt
require false = none

abbrev pub value_of : Step Value → Option Value
value_of (got v table rest) = some v
value_of _ = none

abbrev pub name_of : Option Value → Option (List ℕ)
name_of (some (text name)) = some name
name_of _ = none

-- A method, the message to call it with, and the connection to call it on.
abbrev pub Command : Type 0 → Type 0
Command D = (Value → Service D → Service D × Bool) × Value × Service D

module _ {D : Type 0} where
  -- The command in a message that the cipher opened on a connection.
  abbrev pub command_in : Handlers D → World → Service D → List ℕ → Option (Command D)
  command_in h world t payload = do
    fits ← require (not (ltb max_application_payload (length payload)))
    v ← value_of (unpack world.runtime payload)
    asks ← require (not (is_bare_response v))
    name ← name_of (item_of key_i v)
    handler ← h.find (world.lower name)
    some (handler, v, t)

  -- The command that a frame is: it is no pairing frame and no keepalive, the cipher opens it under its
  -- header, the store authorizes the client, and its payload names a method.
  abbrev pub command_of : Handlers D → World → CompanionFrame → Service D → Option (Command D)
  command_of h world frame s = do
    frame_type ← type_of_header frame.header
    message ← require (not (is_auth_frame frame_type))
    c ← s.chacha
    allowed ← require (verified_client_is_authorized world s.auth)
    filled ← require (not (is_no_op frame_type && is_empty frame.payload))
    opened ← decrypt world.aead frame.payload none (some frame.header) c
    payload ← opened.1
    command_in h world (record s { chacha = some opened.0 }) payload

  -- The session behind a command: what its method makes of it.
  abbrev pub commanded : Service D → Option (Command D) → D
  commanded s none = s.session
  commanded s (some (handler, v, t)) = (handler v t).0.session

  pub commanded_of_session :
      (s t : Service D) (o : Option (Command D))
      → t.session ≡ s.session
      → commanded t o ≡ commanded s o
  commanded_of_session s t none e = e
  commanded_of_session s t (some (handler, v, u)) e = refl

  session-call_handler :
      (world : World) (v : Value) (t : Service D)
      (o : Option (Value → Service D → Service D × Bool))
      → session_of (call_handler world v t o) ≡ commanded t (do handler ← o; some (handler, v, t))
  session-call_handler world v t none = answered (send_handler_not_supported world v t) refl
    where
      answered :
          (o : Option (Service D))
          → send_handler_not_supported world v t ≡ o
          → session_of (or_malformed t o) ≡ t.session
      answered none e = session-malformed_frame t
      answered (some u) e =
          ap (λ (w : Service D). w.session) (Sends-send_handler_not_supported world v t u e)
  session-call_handler world v t (some handler) = ended (handler v t)
    where
      ended : (r : Service D × Bool) → session_of (handled r) ≡ r.0.session
      ended (u, true) = session-malformed_frame u
      ended (u, false) = refl

  session-handle_identified :
      (h : Handlers D) (world : World) (v : Value) (t : Service D) (i : Option Value)
      → session_of (handle_identified h world v t i)
        ≡ commanded t
            (do name ← name_of i; handler ← h.find (world.lower name); some (handler, v, t))
  session-handle_identified h world v t none = session-malformed_frame t
  session-handle_identified h world v t (some (text name)) =
      session-call_handler world v t (h.find (world.lower name))
  session-handle_identified h world v t (some (bytes name)) = session-call_handler world v t none
  session-handle_identified h world v t (some _) = session-malformed_frame t

  pub session-handle_data :
      (h : Handlers D) (world : World) (frame_type : FrameType) (payload : List ℕ) (s : Service D)
      (c : Cipher)
      → is_auth_frame frame_type ≡ false
      → let t = record s { chacha = some c } in
        session_of (handle_data h world frame_type payload t)
        ≡ commanded t (command_in h world t payload)
  unfolding handle_data handle_message
  session-handle_data h world frame_type payload s c n =
      sized (ltb max_application_payload (length payload))
    where
      t : Service D
      t = record s { chacha = some c }

      bare :
          (v : Value) (b : Bool)
          → session_of (if b then go_on t else handle_identified h world v t (item_of key_i v))
            ≡ commanded t (do
              asks ← require (not b)
              name ← name_of (item_of key_i v)
              handler ← h.find (world.lower name)
              some (handler, v, t))
      bare v true = refl
      bare v false = session-handle_identified h world v t (item_of key_i v)

      read :
          (step : Step Value)
          → session_of (handle_unpacked h world frame_type t step)
            ≡ commanded t (do
              v ← value_of step
              asks ← require (not (is_bare_response v))
              name ← name_of (item_of key_i v)
              handler ← h.find (world.lower name)
              some (handler, v, t))
      read (got v table rest) = rw n (bare v (is_bare_response v))
      read raised = session-malformed_frame t
      read out_of_fuel = session-malformed_frame t

      sized :
          (b : Bool)
          → session_of (
              if b
              then refuse t
              else handle_unpacked h world frame_type t (unpack world.runtime payload))
            ≡ commanded t (do
              fits ← require (not b)
              v ← value_of (unpack world.runtime payload)
              asks ← require (not (is_bare_response v))
              name ← name_of (item_of key_i v)
              handler ← h.find (world.lower name)
              some (handler, v, t))
      sized true = refl
      sized false = read (unpack world.runtime payload)
