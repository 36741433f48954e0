-- ===== src/Enums.antt =====
-- The enums of src/atvr4samsung/companion/protocol: frame types (enums.py) and TLV codes (tlv8.py).
pub mod Tag
use mathlib.Core.Option.{some-injective}
use atvr4samsung.Common.{
  ℕ, Bool, true, false, List, [], ◌∷◌, Option, none, some, ◌==◌, ◌≡◌, refl, sym, ap, ◌∙◌,
  if◌then◌else◌,
}

pub data FrameType : Type 0 where
  unknown no_op ps_start ps_next pv_start pv_next u_opack e_opack p_opack pa_req pa_rsp : FrameType
  session_start_request session_start_response session_data : FrameType
  family_identity_request family_identity_response family_identity_update : FrameType

abbrev pub frame_code : FrameType → ℕ
frame_code unknown = 0
frame_code no_op = 1
frame_code ps_start = 3
frame_code ps_next = 4
frame_code pv_start = 5
frame_code pv_next = 6
frame_code u_opack = 7
frame_code e_opack = 8
frame_code p_opack = 9
frame_code pa_req = 10
frame_code pa_rsp = 11
frame_code session_start_request = 16
frame_code session_start_response = 17
frame_code session_data = 18
frame_code family_identity_request = 32
frame_code family_identity_response = 33
frame_code family_identity_update = 34

abbrev pub frame_types : List FrameType
frame_types =
    unknown ∷ no_op ∷ ps_start ∷ ps_next ∷ pv_start ∷ pv_next ∷ u_opack ∷ e_opack ∷ p_opack ∷ pa_req
    ∷ pa_rsp ∷ session_start_request ∷ session_start_response ∷ session_data
    ∷ family_identity_request ∷ family_identity_response ∷ family_identity_update ∷ []

-- `FrameType(code)`: none where Python raises ValueError.
unfoldable pub find_frame_type : ℕ → List FrameType → Option FrameType
find_frame_type code [] = none
find_frame_type code (t ∷ ts) = if frame_code t == code then some t else find_frame_type code ts

pub find_frame_code : (t : FrameType) → find_frame_type (frame_code t) frame_types ≡ some t
unfolding find_frame_type
find_frame_code unknown = refl
find_frame_code no_op = refl
find_frame_code ps_start = refl
find_frame_code ps_next = refl
find_frame_code pv_start = refl
find_frame_code pv_next = refl
find_frame_code u_opack = refl
find_frame_code e_opack = refl
find_frame_code p_opack = refl
find_frame_code pa_req = refl
find_frame_code pa_rsp = refl
find_frame_code session_start_request = refl
find_frame_code session_start_response = refl
find_frame_code session_data = refl
find_frame_code family_identity_request = refl
find_frame_code family_identity_response = refl
find_frame_code family_identity_update = refl

pub frame_code-injective : (s t : FrameType) → frame_code s ≡ frame_code t → s ≡ t
frame_code-injective s t e =
    some-injective s t
      (sym (find_frame_code s) ∙ ap (λ c. find_frame_type c frame_types) e ∙ find_frame_code t)

-- `frame_type in COMPANION_AUTH_FRAMES`
abbrev pub is_auth_frame : FrameType → Bool
is_auth_frame ps_start = true
is_auth_frame ps_next = true
is_auth_frame pv_start = true
is_auth_frame pv_next = true
is_auth_frame _ = false

pub data ErrorCode : Type 0 where
  unknown_error authentication back_off max_peers max_tries unavailable busy : ErrorCode

abbrev pub error_value : ErrorCode → ℕ
error_value unknown_error = 1
error_value authentication = 2
error_value back_off = 3
error_value max_peers = 4
error_value max_tries = 5
error_value unavailable = 6
error_value busy = 7
