-- ===== src/Auth/Setup.antt =====
-- `_m1_setup`, `_m3_setup`, `_m5_setup` and `_register_setup_client`.
use atvr4samsung.Common.{
  ℕ, ◌==◌, true, false, List, [], ◌∷◌, ◌++◌, Option, none, some, length, if◌then◌else◌,
}
use atvr4samsung.Enums
use atvr4samsung.Enums.{ErrorCode, ps_next, authentication, back_off, max_peers, busy, error_value}
use atvr4samsung.Tlv8.{Dict, read_tlv, write_tlv}
use atvr4samsung.Guardrails.Setup.{AttemptAdmission}
use atvr4samsung.Auth.{
  Env, Auth, Window, SetupSession, Answer, done, raised, Commit, committed, not_current, full,
  commit_failed, setup_encrypt, accessory_sign, ps_msg05, ps_msg06, ◌>>=◌, ok_or_none, get_value,
  send_to_client, send_setup_error, send_setup_backoff, clear_setup_session, clear_verify_session,
  clear_verified_client, pairing_failed, active_pairing_window, setup_window_is_current,
}

abbrev pub send_admission_error_code : ℕ → Option ErrorCode → Auth → Auth × Answer
send_admission_error_code retry_after none a = (send_setup_error 2 busy a, done false)
send_admission_error_code retry_after (some back_off) a =
    send_setup_backoff (if retry_after == 0 then 1 else retry_after) a
send_admission_error_code retry_after (some error) a = (send_setup_error 2 error a, done false)

-- `_send_setup_admission_error`, with the answer of `_m1_setup` behind it.
abbrev pub send_setup_admission_error : AttemptAdmission → Auth → Auth × Answer
send_setup_admission_error admission =
    send_admission_error_code admission.retry_after admission.error

-- The end of `_m1_setup`: a new SRP session under the window. A reply stands for its TLV: the field
-- `_pwTy`, always 1 beside the `_pd` of this reply, is left out.
abbrev pub open_session : Window → Auth → Option (ℕ × List ℕ × List ℕ) → Auth × Answer
open_session w a none = (a, raised)
open_session w a (some (session, public_value, salt)) = (
  send_to_client ps_next
      ((Enums.Tag.seq_no, 2 ∷ [])
        ∷ (Enums.Tag.salt, salt)
        ∷ (Enums.Tag.public_key, public_value)
        ∷ (27, 1 ∷ [])
        ∷ [])
      (record a {
        setup =
            some
              (record { session = session; public_value = public_value; salt = salt; window = w });
        proof_verified = false;
      }),
  done true,
)

-- `_m1_setup` behind its guards; an unfinished handshake counts as a failure first.
abbrev pub begin_setup : Env → Window → Option SetupSession → Auth → Auth × Answer
begin_setup env w none a = open_session w a (env.new_session w.pin)
begin_setup env w (some s) a =
    let abandoned = clear_setup_session (pairing_failed a) in
    if env.backoff_after_failure == 0
    then open_session w abandoned (env.new_session w.pin)
    else send_setup_backoff env.backoff_after_failure abandoned

abbrev pub begin_in_window : Env → Option Window → Auth → Auth × Answer
begin_in_window env none a = (send_setup_error 2 authentication (clear_setup_session a), done false)
begin_in_window env (some w) a = begin_setup env w a.setup a

unfoldable pub m1_setup : Env → Dict → Auth → Auth × Answer
unfolding active_pairing_window
m1_setup env pairing a =
    let cleared = clear_verified_client (clear_verify_session a) in
    let refused = clear_setup_session cleared in
    if env.admission.allowed
    then (if env.reset_in_progress
        then (send_setup_error 2 authentication refused, done false)
        else if env.backoff == 0
        then begin_in_window env (active_pairing_window env) cleared
        else send_setup_backoff env.backoff refused)
    else send_setup_admission_error env.admission refused

-- A failed pair-setup: it is counted, the session is cleared and the error is sent.
abbrev pub fail_setup : ℕ → Auth → Auth × Answer
fail_setup seqno a =
    (send_setup_error seqno authentication (clear_setup_session (pairing_failed a)), done false)

-- `process` and `verify_proof` of the SRP session, none where one of them or a missing field raises.
unfoldable pub check_proof : Env → SetupSession → Dict → Option (Option (List ℕ))
check_proof env s pairing = do
  public_key ← get_value Enums.Tag.public_key pairing
  proof ← get_value Enums.Tag.proof pairing
  env.srp_proof s.session public_key s.salt proof

abbrev pub answer_proof : Auth → Option (Option (List ℕ)) → Auth × Answer
answer_proof a none = fail_setup 4 a
answer_proof a (some none) = (
  send_to_client ps_next
      ((Enums.Tag.error, error_value authentication ∷ []) ∷ (Enums.Tag.seq_no, 4 ∷ []) ∷ [])
      (clear_setup_session (pairing_failed a)),
  done false,
)
answer_proof a (some (some proof)) = (
  send_to_client ps_next ((Enums.Tag.proof, proof) ∷ (Enums.Tag.seq_no, 4 ∷ []) ∷ [])
      (record a { proof_verified = true }),
  done true,
)

abbrev pub m3_session : Env → Dict → Option SetupSession → Auth → Auth × Answer
m3_session env pairing none a = fail_setup 4 a
m3_session env pairing (some s) a =
    if a.proof_verified
    then fail_setup 4 a
    else if setup_window_is_current env s
    then answer_proof a (check_proof env s pairing)
    else (send_setup_error 4 authentication (clear_setup_session a), done false)

unfoldable pub m3_setup : Env → Dict → Auth → Auth × Answer
unfolding setup_window_is_current check_proof
m3_setup env pairing a = m3_session env pairing a.setup a

-- What `_register_setup_client` finds, with the client that it stored.
pub data Registration : Type 0 where
  registered : Option (List ℕ × List ℕ) → Registration
  rejected : ErrorCode → Registration

-- The controller that the M5 payload proves: all three fields, a key of 32 bytes, a UTF-8 identifier
-- and the signature.
unfoldable pub proven_controller : Env → SetupSession → Dict → Option (List ℕ × List ℕ)
proven_controller env s tlv = do
  identifier ← get_value Enums.Tag.identifier tlv
  ltpk ← get_value Enums.Tag.public_key tlv
  signature ← get_value Enums.Tag.signature tlv
  name ← if length ltpk == 32 then env.decode_utf8 identifier else none
  if env.verify_controller (env.srp_key s.session) identifier ltpk signature
      then some (name, ltpk)
      else none

abbrev pub registration_of : List ℕ × List ℕ → Commit → Registration
registration_of client committed = registered (some client)
registration_of client not_current = rejected authentication
registration_of client full = rejected max_peers
registration_of client commit_failed = rejected authentication

abbrev pub register_controller : Env → SetupSession → Option (List ℕ × List ℕ) → Registration
register_controller env s none = rejected authentication
register_controller env s (some (name, ltpk)) =
    registration_of (name, ltpk) (env.commit s.window.generation name ltpk)

unfoldable pub register_setup_client : Env → SetupSession → Dict → Registration
unfolding proven_controller
register_setup_client env s tlv =
    if env.paired_store
    then register_controller env s (proven_controller env s tlv)
    else registered none

-- The reply M6: the accessory's identity under its signature, encrypted for the session.
unfoldable pub accessory_reply : Env → SetupSession → Option Dict
accessory_reply env s = do
  let device = env.hkdf accessory_sign (env.srp_key s.session)
  tlv ← ok_or_none (
      write_tlv (
        (Enums.Tag.identifier, env.unique_id)
        ∷ (Enums.Tag.public_key, env.auth_pub)
        ∷ (Enums.Tag.signature, env.sign (device ++ env.unique_id ++ env.auth_pub))
        ∷ (17, env.accessory_details)
        ∷ []))
  some (
      (Enums.Tag.seq_no, 6 ∷ [])
      ∷ (
        Enums.Tag.encrypted_data,
        env.encrypt (env.hkdf setup_encrypt (env.srp_key s.session)) ps_msg06 tlv,
      )
      ∷ [])

abbrev pub store_client : Option (List ℕ × List ℕ) → Auth → Auth
store_client none a = a
store_client (some client) a = record a { enrolled = a.enrolled ++ (client ∷ []) }

abbrev pub finish_setup : Auth → Option Dict → Auth × Answer
finish_setup a none = (a, raised)
finish_setup a (some tlv) =
    (clear_setup_session (record (send_to_client ps_next tlv a) { has_paired = true }), done true)

abbrev pub answer_registration : Env → SetupSession → Auth → Registration → Auth × Answer
answer_registration env s a (registered client) =
    finish_setup (store_client client a) (accessory_reply env s)
answer_registration env s a (rejected authentication) = fail_setup 6 a
answer_registration env s a (rejected error) =
    (send_setup_error 6 error (clear_setup_session a), done false)

-- The decrypted payload of M5.
unfoldable pub setup_payload : Env → SetupSession → Dict → Option Dict
setup_payload env s pairing = do
  encrypted ← get_value Enums.Tag.encrypted_data pairing
  plain ← env.decrypt (env.hkdf setup_encrypt (env.srp_key s.session)) ps_msg05 encrypted
  ok_or_none (read_tlv plain)

abbrev pub register_payload : Env → SetupSession → Auth → Option Dict → Auth × Answer
register_payload env s a none = fail_setup 6 a
register_payload env s a (some tlv) = answer_registration env s a (register_setup_client env s tlv)

abbrev pub m5_session : Env → Dict → Option SetupSession → Auth → Auth × Answer
m5_session env pairing none a = fail_setup 6 a
m5_session env pairing (some s) a =
    if a.proof_verified
    then (if setup_window_is_current env s
        then register_payload env s a (setup_payload env s pairing)
        else (send_setup_error 6 authentication (clear_setup_session a), done false))
    else fail_setup 6 a

unfoldable pub m5_setup : Env → Dict → Auth → Auth × Answer
unfolding setup_window_is_current setup_payload register_setup_client accessory_reply
m5_setup env pairing a = m5_session env pairing a.setup a
