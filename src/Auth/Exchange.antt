-- ===== src/Auth/Exchange.antt =====
-- `handle_auth_frame` with `_decode_auth_frame`, `_next_auth_transition` and `_reject_auth_transition`.
use atvr4samsung.Common.{
  ℕ, ◌==◌, ◌&&◌, Bool, true, false, List, [], ◌∷◌, Option, none, some, leb, if◌then◌else◌,
}
use atvr4samsung.Enums
use atvr4samsung.Enums.{FrameType, frame_code, ps_start, ps_next, pv_start, pv_next, authentication}
use atvr4samsung.Tlv8.{Dict, read_tlv}
use atvr4samsung.Auth.{
  Env, Auth, Phase, idle, setup_m3, setup_m5, setup_complete, verify_m3, encrypted, failed, closed,
  Answer, done, raised, ◌>>=◌, ok_or_none, get_value, send_setup_error, send_verify_error,
  pairing_failed, clear_setup_session, clear_pending_auth_state,
}
use atvr4samsung.Auth.Setup.{m1_setup, m3_setup, m5_setup}
use atvr4samsung.Auth.Verify.{m1_verify, m3_verify}

-- The handlers that the table of transitions names.
pub data Handler : Type 0 where
  on_m1_setup on_m3_setup on_m5_setup on_m1_verify on_m3_verify : Handler

unfoldable pub run_handler : Handler → Env → Dict → Auth → Auth × Answer
run_handler on_m1_setup = m1_setup
run_handler on_m3_setup = m3_setup
run_handler on_m5_setup = m5_setup
run_handler on_m1_verify = m1_verify
run_handler on_m3_verify = m3_verify

abbrev pub one_byte : List ℕ → Option ℕ
one_byte (b ∷ []) = some b
one_byte _ = none

-- `_decode_auth_frame`: the argument is the `_pd` entry, none where the payload has no such bytes.
unfoldable pub decode_auth_frame : Option (List ℕ) → Option (Dict × ℕ)
decode_auth_frame payload = do
  blob ← payload
  pairing ← ok_or_none (read_tlv blob)
  value ← get_value Enums.Tag.seq_no pairing
  seqno ← one_byte value
  some (pairing, seqno)

unfoldable pub is_frame : FrameType → ℕ → FrameType → ℕ → Bool
is_frame expected seqno frame_type n = frame_code frame_type == frame_code expected && n == seqno

unfoldable pub next_auth_transition : Phase → FrameType → ℕ → Option (Handler × Phase)
unfolding is_frame
next_auth_transition idle t seqno =
    if is_frame ps_start 1 t seqno
    then some (on_m1_setup, setup_m3)
    else if is_frame pv_start 1 t seqno
    then some (on_m1_verify, verify_m3)
    else none
next_auth_transition setup_m3 t seqno =
    if is_frame ps_next 3 t seqno then some (on_m3_setup, setup_m5) else none
next_auth_transition setup_m5 t seqno =
    if is_frame ps_next 5 t seqno then some (on_m5_setup, setup_complete) else none
next_auth_transition setup_complete t seqno =
    if is_frame pv_start 1 t seqno then some (on_m1_verify, verify_m3) else none
next_auth_transition verify_m3 t seqno =
    if is_frame pv_next 3 t seqno
    then some (on_m3_verify, encrypted)
    else if is_frame ps_start 1 t seqno
    then some (on_m1_setup, setup_m3)
    else none
next_auth_transition encrypted t seqno = none
next_auth_transition failed t seqno = none
next_auth_transition closed t seqno = none

abbrev pub response_seqno : Option ℕ → ℕ
response_seqno none = 2
response_seqno (some seqno) = if leb seqno 1 then 2 else if leb seqno 3 then 4 else 6

-- `_reject_setup_sequence`
abbrev pub reject_setup_sequence : Option ℕ → Auth → Auth
reject_setup_sequence seqno a =
    send_setup_error (response_seqno seqno) authentication (clear_setup_session (pairing_failed a))

-- `frame_type in (FrameType.PS_Start, FrameType.PS_Next)`
abbrev pub is_setup_frame : FrameType → Bool
is_setup_frame ps_start = true
is_setup_frame ps_next = true
is_setup_frame _ = false

abbrev pub reject_frame : Bool → Option ℕ → Auth → Auth
reject_frame true seqno = reject_setup_sequence seqno
reject_frame false seqno = send_verify_error

-- `_reject_auth_transition`
abbrev pub reject_auth_transition : FrameType → Option ℕ → Auth → Auth × Bool
reject_auth_transition frame_type seqno a = (
  reject_frame (is_setup_frame frame_type) seqno
      (record (clear_pending_auth_state a) { phase = failed }),
  false,
)

abbrev pub after_handler : FrameType → ℕ → Phase → Auth × Answer → Auth × Bool
after_handler frame_type seqno next_phase (a, raised) =
    reject_auth_transition frame_type (some seqno) a
after_handler frame_type seqno next_phase (a, done false) =
    (record (clear_pending_auth_state a) { phase = failed }, false)
after_handler frame_type seqno next_phase (a, done true) = (record a { phase = next_phase }, true)

abbrev pub follow : Env → FrameType → Dict × ℕ → Auth → Option (Handler × Phase) → Auth × Bool
follow env frame_type (pairing, seqno) a none = reject_auth_transition frame_type (some seqno) a
follow env frame_type (pairing, seqno) a (some (handler, next_phase)) =
    after_handler frame_type seqno next_phase (run_handler handler env pairing a)

abbrev pub follow_decoded : Env → FrameType → Auth → Option (Dict × ℕ) → Auth × Bool
follow_decoded env frame_type a none = reject_auth_transition frame_type none a
follow_decoded env frame_type a (some (pairing, seqno)) =
    follow env frame_type (pairing, seqno) a (next_auth_transition a.phase frame_type seqno)

-- `authentication_is_encrypted`
unfoldable pub is_encrypted : Phase → Bool
is_encrypted encrypted = true
is_encrypted _ = false

unfoldable pub handle_auth_frame : Env → FrameType → Option (List ℕ) → Auth → Auth × Bool
unfolding run_handler decode_auth_frame next_auth_transition is_encrypted
handle_auth_frame env frame_type payload a =
    if is_encrypted a.phase
    then (a, false)
    else follow_decoded env frame_type a (decode_auth_frame payload)
