-- ===== src/Service/Wire.antt =====
-- `send_to_client` of appletv.py and the messages built on it.
use atvr4samsung.Common.{
  ℕ, ◌+◌, List, [], ◌∷◌, ◌++◌, Option, none, some, length, ltb, if◌then◌else◌,
}
use atvr4samsung.Common.Bytes.{to_be}
use atvr4samsung.Common.Options.{◌>>=◌}
use atvr4samsung.Common.Int.{pos}
use atvr4samsung.Enums.{FrameType, frame_code, e_opack}
use atvr4samsung.Framing.{max_application_payload}
use atvr4samsung.Cipher.{Cipher, encrypt}
use atvr4samsung.Opack.{Value, int, text, object, no_fields, field, get_text}
use atvr4samsung.Opack.Pack.{pack}
use atvr4samsung.Service.{Service, World, is_open}

abbrev pub tag_size : ℕ
tag_size = 16

abbrev pub header_of : FrameType → ℕ → List ℕ
header_of frame_type payload_length = frame_code frame_type ∷ to_be 3 payload_length

module _ {D : Type 0} where
  abbrev pub write : List ℕ → Service D → Service D
  write frame s =
      if is_open s.transport then record s { written = s.written ++ (frame ∷ []) } else s

  abbrev pub sealed : World → FrameType → List ℕ → Service D → Option Cipher → Option (Service D)
  sealed world frame_type encoded s none =
      some (write (header_of frame_type (length encoded) ++ encoded) s)
  sealed world frame_type encoded s (some c) = do
    sent ←
        encrypt world.aead encoded none (some (header_of frame_type (length encoded + tag_size))) c
    some (
        write (header_of frame_type (length encoded + tag_size) ++ sent.1)
          (record s { chacha = some sent.0 }))

  -- none where `pack` or `encrypt` raises; an oversized message is dropped.
  unfoldable pub send_to_client : World → FrameType → Value → Service D → Option (Service D)
  unfolding pack encrypt
  send_to_client world frame_type value s = do
    encoded ← pack world.runtime value
    if ltb max_application_payload (length encoded)
        then some s
        else sealed world frame_type encoded s s.chacha

-- The keys of a message: "_i", "_x", "_t", "_c", "_ec", "_ed", "_em", "_pd".
abbrev pub key_i : List ℕ
key_i = 95 ∷ 105 ∷ []

abbrev pub key_x : List ℕ
key_x = 95 ∷ 120 ∷ []

abbrev pub key_t : List ℕ
key_t = 95 ∷ 116 ∷ []

abbrev pub key_c : List ℕ
key_c = 95 ∷ 99 ∷ []

abbrev pub key_ec : List ℕ
key_ec = 95 ∷ 101 ∷ 99 ∷ []

abbrev pub key_ed : List ℕ
key_ed = 95 ∷ 101 ∷ 100 ∷ []

abbrev pub key_em : List ℕ
key_em = 95 ∷ 101 ∷ 109 ∷ []

abbrev pub key_pd : List ℕ
key_pd = 95 ∷ 112 ∷ 100 ∷ []

abbrev pub response_type : ℕ
response_type = 3

abbrev pub event_type : ℕ
event_type = 1

-- `request[key]` raises on what is no dict and on a key that is not there.
abbrev pub item_of : List ℕ → Value → Option Value
item_of key (object fs) = get_text key fs
item_of key _ = none

abbrev pub int_of : ℕ → Value
int_of n = int none (pos n)

-- "RPErrorDomain"
abbrev pub error_domain : List ℕ
error_domain = 82 ∷ 80 ∷ 69 ∷ 114 ∷ 114 ∷ 111 ∷ 114 ∷ 68 ∷ 111 ∷ 109 ∷ 97 ∷ 105 ∷ 110 ∷ []

-- "No request handler"
abbrev pub no_handler : List ℕ
no_handler =
    78 ∷ 111 ∷ 32 ∷ 114 ∷ 101 ∷ 113 ∷ 117 ∷ 101 ∷ 115 ∷ 116 ∷ 32 ∷ 104 ∷ 97 ∷ 110 ∷ 100 ∷ 108 ∷ 101
    ∷ 114 ∷ []

abbrev pub error_message : Value → Value → List ℕ → ℕ → List ℕ → Value
error_message i x message code domain = object (
    field (text key_i) i (
      field (text key_x) x (
        field (text key_t) (int_of response_type) (
          field (text key_ec) (int_of code)
            (field (text key_ed) (text domain) (field (text key_em) (text message) no_fields))))))

module _ {D : Type 0} where
  -- `send_response`
  unfoldable pub send_response : World → Value → Value → Service D → Option (Service D)
  unfolding send_to_client get_text
  send_response world request content s = do
    i ← item_of key_i request
    x ← item_of key_x request
    send_to_client world e_opack
        (object (
          field (text key_i) i (
            field (text key_x) x
              (field (text key_t) (int_of response_type) (field (text key_c) content no_fields)))))
        s

  -- `send_event`
  unfoldable pub send_event : World → Value → Value → Value → Service D → Option (Service D)
  unfolding send_to_client
  send_event world identifier xid content s =
      send_to_client world e_opack
        (object (
          field (text key_i) identifier (
            field (text key_x) xid
              (field (text key_t) (int_of event_type) (field (text key_c) content no_fields)))))
        s

  -- `send_error`
  unfoldable pub send_error : World → Value → List ℕ → ℕ → List ℕ → Service D → Option (Service D)
  unfolding send_to_client get_text
  send_error world request message code domain s = do
    i ← item_of key_i request
    x ← item_of key_x request
    send_to_client world e_opack (error_message i x message code domain) s

  unfoldable pub send_handler_not_supported : World → Value → Service D → Option (Service D)
  unfolding send_error
  send_handler_not_supported world request s =
      send_error world request no_handler 58822 error_domain s
