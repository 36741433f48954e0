-- ===== src/Auth.antt =====
-- src/atvr4samsung/companion/protocol/auth.py: the pair-setup and pair-verify exchange of one
-- connection. The cryptography, SRP, UTF-8 decoding, the stores, the limiters and the clock are a
-- value of `Env`, taken anew for each frame: what they answer while that frame is handled.
pub mod Setup
pub mod Verify
pub mod Coherence
pub mod Closed
pub mod Exchange
pub mod Outcome
pub mod Openings
pub mod Handlers
pub mod Transition
pub mod Ended
pub mod Proof
pub mod Enroll
mod Tests
pub use atvr4samsung.Common.Options.{◌>>=◌}
use atvr4samsung.Common.{
  ℕ, ◌+◌, ◌==◌, Bool, true, false, ◌&&◌, List, [], ◌∷◌, ◌++◌, Option, none, some, ltb,
  if◌then◌else◌,
}
use atvr4samsung.Common.Bytes.{bytes_eq, to_le}
use atvr4samsung.Enums
use atvr4samsung.Enums.{
  FrameType, ps_start, ps_next, pv_start, pv_next, ErrorCode, authentication, back_off, max_peers,
  busy, error_value,
}
use atvr4samsung.Tlv8
use atvr4samsung.Tlv8.{Dict, Result, read_tlv, ok, err}
use atvr4samsung.Guardrails.Setup.{AttemptAdmission}

pub data Phase : Type 0 where
  idle setup_m3 setup_m5 setup_complete verify_m3 encrypted failed closed : Phase

-- An enrollment window as the auth layer reads it.
pub record Window : Type 0 where
  pub pin : List ℕ
  pub expires_at : ℕ
  pub generation : List ℕ

-- The SRP session of a pair-setup with its salt and the window that it was opened under. The source
-- sets and clears these fields together.
pub record SetupSession : Type 0 where
  pub session : ℕ
  pub public_value : List ℕ
  pub salt : List ℕ
  pub window : Window

-- The ephemeral material of a pair-verify M1, again set and cleared together.
pub record VerifySession : Type 0 where
  pub session_key : List ℕ
  pub server_pub : List ℕ
  pub client_pub : List ℕ
  pub output_key : List ℕ
  pub input_key : List ℕ

-- How `mutate_if_current(generation, add_locked)` ends; `not_current` also without an identity binding.
pub data Commit : Type 0 where
  committed not_current full commit_failed : Commit

-- The salts and infos of `hkdf_expand`, and the nonces of the handshake messages.
pub data Purpose : Type 0 where
  verify_encrypt server_encrypt client_encrypt setup_encrypt accessory_sign : Purpose

pub data Nonce : Type 0 where
  pv_msg02 pv_msg03 ps_msg05 ps_msg06 : Nonce

pub record Env : Type 0 where
  -- configuration
  pub require_paired : Bool
  pub paired_store : Bool
  pub window_store : Bool
  pub unique_id : List ℕ
  pub auth_pub : List ℕ
  pub accessory_details : List ℕ
  -- the limiters and the stores
  pub admission : AttemptAdmission
  pub backoff : ℕ
  pub backoff_after_failure : ℕ
  pub reset_in_progress : Bool
  pub window : Option Window
  pub ltpk : List ℕ → Option (List ℕ)
  pub commit : List ℕ → List ℕ → List ℕ → Commit
  -- cryptography; none where the call raises
  pub new_session : List ℕ → Option (ℕ × List ℕ × List ℕ)
  pub srp_proof : ℕ → List ℕ → List ℕ → List ℕ → Option (Option (List ℕ))
  pub srp_key : ℕ → List ℕ
  pub server_pub : List ℕ
  pub exchange : List ℕ → Option (List ℕ)
  pub hkdf : Purpose → List ℕ → List ℕ
  pub sign : List ℕ → List ℕ
  pub encrypt : List ℕ → Nonce → List ℕ → List ℕ
  pub decrypt : List ℕ → Nonce → List ℕ → Option (List ℕ)
  pub decode_utf8 : List ℕ → Option (List ℕ)
  pub verify_signature : List ℕ → List ℕ → List ℕ → Bool
  pub verify_controller : List ℕ → List ℕ → List ℕ → List ℕ → Bool

pub record Auth : Type 0 where
  pub phase : Phase
  pub setup : Option SetupSession
  pub proof_verified : Bool
  pub verify : Option VerifySession
  pub client : Option (List ℕ × List ℕ)
  -- the keys of the installed cipher
  pub cipher : Option (List ℕ × List ℕ)
  -- what was sent, the failures that were reported and the clients that were stored, oldest first
  pub sent : List (FrameType × Dict)
  pub failures : ℕ
  pub has_paired : Bool
  pub enrolled : List (List ℕ × List ℕ)

abbrev pub new_auth : Auth
new_auth = record {
  phase = idle;
  setup = none;
  proof_verified = false;
  verify = none;
  client = none;
  cipher = none;
  sent = [];
  failures = 0;
  has_paired = false;
  enrolled = [];
}

-- How a handler ends; `raised` where it lets an exception out.
pub data Answer : Type 0 where
  done : Bool → Answer
  raised : Answer

abbrev pub send_to_client : FrameType → Dict → Auth → Auth
send_to_client frame_type tlv a = record a { sent = a.sent ++ ((frame_type, tlv) ∷ []) }

abbrev pub clear_verify_session : Auth → Auth
clear_verify_session a = record a { verify = none }

abbrev pub clear_verified_client : Auth → Auth
clear_verified_client a = record a { client = none }

abbrev pub clear_setup_session : Auth → Auth
clear_setup_session a = record a { setup = none; proof_verified = false }

abbrev pub clear_pending_auth_state : Auth → Auth
clear_pending_auth_state a = clear_verified_client (clear_verify_session (clear_setup_session a))

abbrev pub pairing_failed : Auth → Auth
pairing_failed a = record a { failures = a.failures + 1 }

abbrev pub error_tlv : ℕ → ErrorCode → Dict
error_tlv seqno error =
    (Enums.Tag.seq_no, seqno ∷ []) ∷ (Enums.Tag.error, error_value error ∷ []) ∷ []

abbrev pub send_verify_error : Auth → Auth
send_verify_error = send_to_client pv_next (error_tlv 4 authentication)

abbrev pub send_setup_error : ℕ → ErrorCode → Auth → Auth
send_setup_error seqno error = send_to_client ps_next (error_tlv seqno error)

abbrev pub backoff_tlv : ℕ → Dict
backoff_tlv retry_after =
    (Enums.Tag.seq_no, 2 ∷ [])
    ∷ (Enums.Tag.error, error_value back_off ∷ [])
    ∷ (Enums.Tag.back_off, to_le 2 retry_after)
    ∷ []

-- `to_bytes(2)` raises OverflowError for a delay of more than two bytes.
abbrev pub send_setup_backoff : ℕ → Auth → Auth × Answer
send_setup_backoff retry_after a =
    if ltb retry_after 65536
    then (send_to_client ps_next (backoff_tlv retry_after) a, done false)
    else (a, raised)

abbrev pub ok_or_none {ℓ} : {A : Type ℓ} → Result A → Option A
ok_or_none (ok a) = some a
ok_or_none (err e) = none

-- `pairing_data.get(tag)`
unfoldable pub get_value : ℕ → Dict → Option (List ℕ)
get_value tag [] = none
get_value tag ((k, v) ∷ d) = if k == tag then some v else get_value tag d

-- `_active_pairing_window`
unfoldable pub active_pairing_window : Env → Option Window
active_pairing_window env = if env.window_store then env.window else none

unfoldable pub same_window : Window → Window → Bool
same_window w w' =
    bytes_eq w.pin w'.pin && w.expires_at == w'.expires_at && bytes_eq w.generation w'.generation

abbrev pub is_window : Window → Option Window → Bool
is_window w none = false
is_window w (some w') = same_window w' w

-- `_setup_window_is_current`
unfoldable pub setup_window_is_current : Env → SetupSession → Bool
unfolding active_pairing_window
setup_window_is_current env s =
    if env.window_store then is_window s.window (active_pairing_window env) else true

-- `reset_authentication_state`
pub reset_authentication_state : Bool → Auth → Auth
reset_authentication_state connection_closed a = record (clear_pending_auth_state a) {
  phase = if connection_closed then closed else idle;
}

-- `enable_encryption` of the service: it refuses to replace an installed cipher.
abbrev pub enable_encryption : List ℕ → List ℕ → Option (List ℕ × List ℕ) → Auth → Auth × Answer
enable_encryption output_key input_key none a =
    (record a { cipher = some (output_key, input_key) }, done true)
enable_encryption output_key input_key (some keys) a = (a, raised)
