-- ===== src/Service/Outcome.antt =====
-- What a frame makes of the connection, and how it ends: the case analysis of `_handle_frame`.
use atvr4samsung.Common.{
  ℕ, ◌≡◌, refl, ap, Bool, true, false, not, ◌&&◌, ◌||◌, ltb, List, Option, none, some, arith,
  length, if◌then◌else◌,
}
use atvr4samsung.Enums.{FrameType}
use atvr4samsung.Cipher.{Cipher, decrypt}
use atvr4samsung.Auth.Exchange.{is_encrypted}
use atvr4samsung.Opack.{
  Value, null, datetime, other, bool, uuid, int, float, text, bytes, array, object,
}
use atvr4samsung.Opack.Unpack.{Step, got, raised, out_of_fuel, unpack}
use atvr4samsung.Framing.{CompanionFrame, max_application_payload}
use atvr4samsung.Service.{Service, Handlers, World, is_some, malformed_frame}
use atvr4samsung.Service.Wire.{send_handler_not_supported, item_of, key_i}
use atvr4samsung.Service.Frames.{
  is_auth_frame, is_no_op, is_empty, type_of_header, verified_client_is_authorized, refuse, go_on,
  authenticate, handle_auth, or_malformed, handled, call_handler, handle_identified,
  is_bare_response, handle_message, handle_unpacked, handle_data, handle_decrypted, handle_open,
  handle_typed, handle_frame,
}

-- The message that a payload carries.
pub data Carries (world : World) (payload : List ℕ) : Value → Type 0 where
  carries :
      (v : Value) (table : List Value) (rest : List ℕ)
      → unpack world.runtime payload ≡ got v table rest
      → Carries world payload v

module _ {D : Type 0} where
  -- The connection behind a payload that its cipher opened for an authorised client.
  pub data Opened (world : World) (frame : CompanionFrame) (s : Service D)
      : List ℕ → Service D → Type 0 where
    opened :
        (c c' : Cipher) (payload : List ℕ)
        → s.chacha ≡ some c
        → verified_client_is_authorized world s.auth ≡ true
        → decrypt world.aead frame.payload none (some frame.header) c ≡ some (c', some payload)
        → Opened world frame s payload (record s { chacha = some c' })

  pub data Became (h : Handlers D) (world : World) (frame : CompanionFrame) (s : Service D)
      : Service D → Type 0 where
    same : Became h world frame s s
    unopened :
        (c c' : Cipher)
        → s.chacha ≡ some c
        → decrypt world.aead frame.payload none (some frame.header) c ≡ some (c', none)
        → Became h world frame s (record s { chacha = some c' })
    read :
        (payload : List ℕ) (t : Service D)
        → Opened world frame s payload t
        → Became h world frame s t
    answered :
        (payload : List ℕ) (v : Value) (t u : Service D)
        → Opened world frame s payload t
        → send_handler_not_supported world v t ≡ some u
        → Became h world frame s u
    ran :
        (payload name : List ℕ) (v : Value) (handler : Value → Service D → Service D × Bool)
        (t : Service D)
        → Opened world frame s payload t
        → Carries world payload v
        → item_of key_i v ≡ some (text name)
        → h.find (world.lower name) ≡ some handler
        → Became h world frame s (handler v t).0
    authenticated :
        (frame_type : FrameType) (v : Value)
        → s.chacha ≡ none
        → is_encrypted s.auth.phase ≡ false
        → Became h world frame s (authenticate world frame_type v s).0

  -- The three ends of a frame.
  pub data Ended (h : Handlers D) (world : World) (frame : CompanionFrame) (s : Service D)
      : Service D × Bool → Type 0 where
    ends : (t : Service D) → Became h world frame s t → Ended h world frame s (refuse t)
    tolerates :
        (t : Service D) → Became h world frame s t → Ended h world frame s (malformed_frame t)
    continues : (t : Service D) → Became h world frame s t → Ended h world frame s (go_on t)

  module _ (h : Handlers D) (world : World) (frame : CompanionFrame) (s : Service D) where
    abbrev Ending : Service D × Bool → Type 0
    Ending = Ended h world frame s

    Ended-if :
        (t : Bool) (p q : Service D × Bool)
        → (t ≡ true → Ending p)
        → (t ≡ false → Ending q)
        → Ending (if t then p else q)
    Ended-if true p q l r = l refl
    Ended-if false p q l r = r refl

    Ended-call_handler :
        (payload name : List ℕ) (v : Value) (t : Service D)
        → Opened world frame s payload t
        → Carries world payload v
        → item_of key_i v ≡ some (text name)
        → Ending (call_handler world v t (h.find (world.lower name)))
    Ended-call_handler payload name v t o k i = found (h.find (world.lower name)) refl
      where
        answer :
            (u : Option (Service D))
            → send_handler_not_supported world v t ≡ u
            → Ending (or_malformed t u)
        answer none e = tolerates t (read payload t o)
        answer (some u) e = continues u (answered payload v t u o e)

        ended : (r : Service D × Bool) → Became h world frame s r.0 → Ending (handled r)
        ended (u, true) b = tolerates u b
        ended (u, false) b = continues u b

        found :
            (f : Option (Value → Service D → Service D × Bool))
            → h.find (world.lower name) ≡ f
            → Ending (call_handler world v t f)
        found none e = answer (send_handler_not_supported world v t) refl
        found (some handler) e = ended (handler v t) (ran payload name v handler t o k i e)

    Ended-handle_identified :
        (payload : List ℕ) (v : Value) (t : Service D) (i : Option Value)
        → Opened world frame s payload t
        → Carries world payload v
        → item_of key_i v ≡ i
        → Ending (handle_identified h world v t i)
    Ended-handle_identified payload v t none o k e = tolerates t (read payload t o)
    Ended-handle_identified payload v t (some (text name)) o k e =
        Ended-call_handler payload name v t o k e
    Ended-handle_identified payload v t (some (bytes name)) o k e =
        answer (send_handler_not_supported world v t) refl
      where
        answer :
            (u : Option (Service D))
            → send_handler_not_supported world v t ≡ u
            → Ending (or_malformed t u)
        answer none e = tolerates t (read payload t o)
        answer (some u) e = continues u (answered payload v t u o e)
    Ended-handle_identified payload v t (some null) o k e = tolerates t (read payload t o)
    Ended-handle_identified payload v t (some datetime) o k e = tolerates t (read payload t o)
    Ended-handle_identified payload v t (some other) o k e = tolerates t (read payload t o)
    Ended-handle_identified payload v t (some (bool b)) o k e = tolerates t (read payload t o)
    Ended-handle_identified payload v t (some (uuid b)) o k e = tolerates t (read payload t o)
    Ended-handle_identified payload v t (some (int size n)) o k e = tolerates t (read payload t o)
    Ended-handle_identified payload v t (some (float b)) o k e = tolerates t (read payload t o)
    Ended-handle_identified payload v t (some (array xs)) o k e = tolerates t (read payload t o)
    Ended-handle_identified payload v t (some (object fs)) o k e = tolerates t (read payload t o)

    -- A payload that the cipher opened is a message or malformed.
    Ended-opened_data :
        (frame_type : FrameType) (payload : List ℕ) (t : Service D)
        → Opened world frame s payload t
        → is_auth_frame frame_type ≡ false
        → Ending (handle_data h world frame_type payload t)
    unfolding handle_data handle_message
    Ended-opened_data frame_type payload t o n =
        Ended-if (ltb max_application_payload (length payload)) _ _ (λ e. ends t (read payload t o))
          (λ e. unpacked (unpack world.runtime payload) refl)
      where
        unpacked :
            (step : Step Value)
            → unpack world.runtime payload ≡ step
            → Ending (handle_unpacked h world frame_type t step)
        unpacked (got v table rest) e =
            Ended-if (is_auth_frame frame_type) _ _ (λ a. absurd (ground arith))
              (λ a.
                Ended-if (is_some t.chacha) _ _
                  (λ b.
                    Ended-if (is_bare_response v) _ _ (λ r. continues t (read payload t o))
                      (λ r.
                        Ended-handle_identified payload v t (item_of key_i v) o
                          (carries v table rest e) refl))
                  (λ b. tolerates t (read payload t o)))
        unpacked raised e = tolerates t (read payload t o)
        unpacked out_of_fuel e = tolerates t (read payload t o)

    -- Without a cipher only the authentication is handled.
    Ended-clear_data :
        (frame_type : FrameType)
        → s.chacha ≡ none
        → (is_auth_frame frame_type ≡ true → is_encrypted s.auth.phase ≡ false)
        → Ending (handle_data h world frame_type frame.payload s)
    unfolding handle_data handle_message
    Ended-clear_data frame_type c p =
        Ended-if (ltb max_application_payload (length frame.payload)) _ _ (λ e. ends s same)
          (λ e. unpacked (unpack world.runtime frame.payload))
      where
        ended : (r : Service D × Bool) → Became h world frame s r.0 → Ending (handle_auth r)
        ended (t, true) b = continues t b
        ended (t, false) b = ends t b

        unpacked : (step : Step Value) → Ending (handle_unpacked h world frame_type s step)
        unpacked (got v table rest) =
            Ended-if (is_auth_frame frame_type) _ _
              (λ a. ended (authenticate world frame_type v s) (authenticated frame_type v c (p a)))
              (λ a.
                Ended-if (is_some s.chacha) _ _ (λ b. absurd (ground (arith, ap is_some c)))
                  (λ b. tolerates s same))
        unpacked raised = tolerates s same
        unpacked out_of_fuel = tolerates s same

    Ended-handle_decrypted :
        (frame_type : FrameType) (c : Cipher) (o : Option (Cipher × Option (List ℕ)))
        → s.chacha ≡ some c
        → verified_client_is_authorized world s.auth ≡ true
        → is_auth_frame frame_type ≡ false
        → decrypt world.aead frame.payload none (some frame.header) c ≡ o
        → Ending (handle_decrypted h world frame_type s o)
    Ended-handle_decrypted frame_type c none k a n e = ends s same
    Ended-handle_decrypted frame_type c (some (c', none)) k a n e = ends _ (unopened c c' k e)
    Ended-handle_decrypted frame_type c (some (c', some payload)) k a n e =
        Ended-opened_data frame_type payload _ (opened c c' payload k a e) n

    Ended-handle_open :
        (frame_type : FrameType) (o : Option Cipher)
        → s.chacha ≡ o
        → (is_auth_frame frame_type && (is_some s.chacha || is_encrypted s.auth.phase)) ≡ false
        → Ending (handle_open h world frame_type frame.header frame.payload s o)
    Ended-handle_open frame_type none e g =
        Ended-clear_data frame_type e (λ a. ground (arith, ap is_some e))
    Ended-handle_open frame_type (some c) e g =
        Ended-if (is_auth_frame frame_type) _ _ (λ a. absurd (ground (arith, ap is_some e)))
          (λ a.
            Ended-if (not (verified_client_is_authorized world s.auth)) _ _ (λ u. ends s same)
              (λ u.
                Ended-if (is_no_op frame_type && is_empty frame.payload) _ _ (λ k. continues s same)
                  (λ k. Ended-handle_decrypted frame_type c _ e (ground arith) a refl)))

    pub handle_frame-Ended : Ended h world frame s (handle_frame h world frame s)
    unfolding handle_frame
    handle_frame-Ended = typed (type_of_header frame.header)
      where
        typed :
            (o : Option FrameType) → Ending (handle_typed h world frame.header frame.payload s o)
        typed none = tolerates s same
        typed (some frame_type) =
            Ended-if (is_auth_frame frame_type && (is_some s.chacha || is_encrypted s.auth.phase)) _
              _ (λ e. ends s same)
              (λ e.
                Ended-if
                  (ltb max_application_payload (length frame.payload)
                    && (not (is_some s.chacha) || is_auth_frame frame_type))
                  _ _ (λ b. ends s same) (λ b. Ended-handle_open frame_type s.chacha refl e))
