-- ===== src/Service/Frames.antt =====
-- `data_received` and `_handle_frame` of appletv.py.
pub use atvr4samsung.Enums.{is_auth_frame}
use atvr4samsung.Common.{
  ℕ, suc, ◌==◌, Bool, true, false, not, ◌&&◌, ◌||◌, List, [], ◌∷◌, Option, none, some, length, drop,
  ltb, if◌then◌else◌,
}
use atvr4samsung.Common.Int.{pos}
use atvr4samsung.Enums.{FrameType, frame_types, find_frame_type, no_op}
use atvr4samsung.Framing.{CompanionFrame, Outcome, too_large, max_application_payload, feed}
use atvr4samsung.Tlv8.{Dict, Result, write_tlv, ok, err}
use atvr4samsung.Cipher.{Cipher, decrypt, new_cipher, nonce_length}
use atvr4samsung.Auth.{Auth}
use atvr4samsung.Auth.Exchange.{handle_auth_frame, is_encrypted}
use atvr4samsung.Opack.{Value, int, text, bytes, object, no_fields, field, get_text}
use atvr4samsung.Opack.Unpack.{Step, got, unpack}
use atvr4samsung.Service.{
  Service, Handlers, World, is_some, not_closing, is_connection_active, close_connection,
  malformed_frame, admission_authenticated,
}
use atvr4samsung.Service.Wire.{
  send_to_client, send_handler_not_supported, item_of, key_i, key_x, key_t, key_pd, response_type,
}

abbrev pub is_no_op : FrameType → Bool
is_no_op no_op = true
is_no_op _ = false

abbrev pub is_empty : List ℕ → Bool
is_empty [] = true
is_empty (b ∷ bs) = false

-- `FrameType(header[0])`
abbrev pub type_of_header : List ℕ → Option FrameType
type_of_header [] = none
type_of_header (b ∷ bs) = find_frame_type b frame_types

-- The "_pd" entry of an auth message, none where it is not bytes.
abbrev pub bytes_of : Option Value → Option (List ℕ)
bytes_of (some (bytes b)) = some b
bytes_of _ = none

abbrev pub is_response_type : Option Value → Bool
is_response_type (some (int size (pos n))) = n == response_type
is_response_type _ = false

abbrev pub is_int : Option Value → Bool
is_int (some (int size n)) = true
is_int _ = false

-- `verified_client_is_authorized` of auth.py
abbrev pub is_identified : List ℕ → Option Bool → Bool
is_identified [] answer = false
is_identified (b ∷ bs) none = false
is_identified (b ∷ bs) (some answer) = answer

abbrev pub client_is_authorized : World → Option (List ℕ × List ℕ) → Bool
client_is_authorized world none = false
client_is_authorized world (some (identifier, ltpk)) =
    is_identified identifier (world.authorizes identifier ltpk)

unfoldable pub verified_client_is_authorized : World → Auth → Bool
verified_client_is_authorized world a =
    if world.auth.require_paired then client_is_authorized world a.client else true

-- A response without "_i" is no command.
unfoldable pub is_bare_response : Value → Bool
unfolding get_text
is_bare_response (object fs) =
    not (is_some (get_text key_i fs))
    && is_response_type (get_text key_t fs)
    && is_int (get_text key_x fs)
is_bare_response _ = false

module _ {D : Type 0} where
  abbrev pub refuse : Service D → Service D × Bool
  refuse s = (close_connection s, false)

  abbrev pub go_on : Service D → Service D × Bool
  go_on s = (s, not_closing s.transport)

  -- A message of the authentication on the wire; its TLV8 codes and values are bytes.
  abbrev pub send_encoded : World → FrameType → Result (List ℕ) → Service D → Service D
  send_encoded world frame_type (err e) s = s
  send_encoded world frame_type (ok tlv) s =
      elim (send_to_client world frame_type (object (field (text key_pd) (bytes tlv) no_fields))
        s) [ none ↦ s | some t ↦ t ]

  unfoldable pub send_replies : World → List (FrameType × Dict) → Service D → Service D
  unfolding send_to_client write_tlv
  send_replies world [] s = s
  send_replies world ((frame_type, tlv) ∷ replies) s =
      send_replies world replies (send_encoded world frame_type (write_tlv tlv) s)

  -- `enable_encryption`, called where the exchange ended with keys; there is no cipher before.
  abbrev pub enable_encryption : Option (List ℕ × List ℕ) → Service D → Service D
  enable_encryption none s = s
  enable_encryption (some (output_key, input_key)) s = record s {
    chacha = some (new_cipher output_key input_key nonce_length);
    deadline = false;
    admission = admission_authenticated s;
  }

  abbrev pub after_auth : Bool → Service D → Service D × Bool
  after_auth true s = go_on s
  after_auth false s = refuse s

  -- The exchange's turn: its replies go out before its keys are installed.
  unfoldable pub authenticate : World → FrameType → Value → Service D → Service D × Bool
  unfolding handle_auth_frame send_replies get_text
  authenticate world frame_type value s =
      let (a, more) =
        handle_auth_frame world.auth frame_type (bytes_of (item_of key_pd value)) s.auth in
      (
        enable_encryption a.cipher
            (send_replies world (drop (length s.auth.sent) a.sent) (record s { auth = a })),
        more,
      )

  abbrev pub handle_auth : Service D × Bool → Service D × Bool
  handle_auth (s, more) = after_auth more s

  abbrev pub or_malformed : Service D → Option (Service D) → Service D × Bool
  or_malformed s none = malformed_frame s
  or_malformed s (some t) = go_on t

  abbrev pub handled : Service D × Bool → Service D × Bool
  handled (s, true) = malformed_frame s
  handled (s, false) = go_on s

  -- `getattr(self, "handle_" + identifier)(unpacked)`
  abbrev pub call_handler :
      World → Value → Service D → Option (Value → Service D → Service D × Bool) → Service D × Bool
  call_handler world value s none = or_malformed s (send_handler_not_supported world value s)
  call_handler world value s (some handler) = handled (handler value s)

  -- "_i" of a message. Bytes have `lower` too, but no method is named after them.
  abbrev pub handle_identified :
      Handlers D → World → Value → Service D → Option Value → Service D × Bool
  handle_identified h world value s (some (text name)) =
      call_handler world value s (h.find (world.lower name))
  handle_identified h world value s (some (bytes name)) = call_handler world value s none
  handle_identified h world value s _ = malformed_frame s

  unfoldable pub handle_message : Handlers D → World → Value → Service D → Service D × Bool
  unfolding is_bare_response send_handler_not_supported malformed_frame get_text
  handle_message h world value s =
      if is_some s.chacha
      then (if is_bare_response value
          then go_on s
          else handle_identified h world value s (item_of key_i value))
      else malformed_frame s

  abbrev pub handle_unpacked :
      Handlers D → World → FrameType → Service D → Step Value → Service D × Bool
  handle_unpacked h world frame_type s (got value table rest) =
      if is_auth_frame frame_type
      then handle_auth (authenticate world frame_type value s)
      else handle_message h world value s
  handle_unpacked h world frame_type s _ = malformed_frame s

  unfoldable pub handle_data :
      Handlers D → World → FrameType → List ℕ → Service D → Service D × Bool
  unfolding unpack authenticate handle_message malformed_frame
  handle_data h world frame_type payload s =
      if ltb max_application_payload (length payload)
      then refuse s
      else handle_unpacked h world frame_type s (unpack world.runtime payload)

  abbrev pub handle_decrypted :
      Handlers D
      → World
      → FrameType
      → Service D
      → Option (Cipher × Option (List ℕ))
      → Service D × Bool
  handle_decrypted h world frame_type s none = refuse s
  handle_decrypted h world frame_type s (some (c, none)) = refuse (record s { chacha = some c })
  handle_decrypted h world frame_type s (some (c, some payload)) =
      handle_data h world frame_type payload (record s { chacha = some c })

  -- A frame behind the guards on its type and size, by the installed cipher.
  abbrev pub handle_open :
      Handlers D
      → World
      → FrameType
      → List ℕ
      → List ℕ
      → Service D
      → Option Cipher
      → Service D × Bool
  handle_open h world frame_type header payload s none = handle_data h world frame_type payload s
  handle_open h world frame_type header payload s (some c) =
      if is_auth_frame frame_type
      then handle_data h world frame_type payload s
      else if not (verified_client_is_authorized world s.auth)
      then refuse s
      else if is_no_op frame_type && is_empty payload
      then go_on s
      else handle_decrypted h world frame_type s (decrypt world.aead payload none (some header) c)

  abbrev pub handle_typed :
      Handlers D → World → List ℕ → List ℕ → Service D → Option FrameType → Service D × Bool
  handle_typed h world header payload s none = malformed_frame s
  handle_typed h world header payload s (some frame_type) =
      if is_auth_frame frame_type && (is_some s.chacha || is_encrypted s.auth.phase)
      then refuse s
      else if ltb max_application_payload (length payload)
          && (not (is_some s.chacha) || is_auth_frame frame_type)
      then refuse s
      else handle_open h world frame_type header payload s s.chacha

  -- `_handle_frame`: whether the next frame is read.
  unfoldable pub handle_frame : Handlers D → World → CompanionFrame → Service D → Service D × Bool
  unfolding malformed_frame handle_data decrypt verified_client_is_authorized is_encrypted
      find_frame_type
  handle_frame h world frame s =
      handle_typed h world frame.header frame.payload s (type_of_header frame.header)

  -- The loop of `data_received`; the world may answer each frame anew.
  unfoldable pub handle_frames :
      Handlers D → (ℕ → World) → List CompanionFrame → Service D → Service D × Bool
  unfolding handle_frame
  handle_frames h world [] s = (s, true)
  handle_frames h world (frame ∷ frames) s =
      let (t, more) = handle_frame h (world 0) frame s in
      elim more [ true ↦ handle_frames h (λ n. world (suc n)) frames t | false ↦ (t, false) ]

  abbrev pub received : Outcome → Service D × Bool → Service D
  received too_large (s, true) = close_connection s
  received _ (s, more) = s

  -- `data_received`. The parser's new state is taken before the frames are handled; a connection that
  -- ends at a frame reads nothing more.
  unfoldable pub data_received : Handlers D → (ℕ → World) → List ℕ → Service D → Service D
  unfolding handle_frames
  data_received h world incoming s =
      if is_connection_active s
      then (let (frames, outcome, parser) = feed s.parser incoming in
          received outcome (handle_frames h world frames (record s { parser = parser })))
      else s
