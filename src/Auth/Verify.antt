-- ===== src/Auth/Verify.antt =====
-- `_m1_verify`, `_verify_client` and `_m3_verify`.
use atvr4samsung.Common.{
  ℕ, Bool, true, false, List, [], ◌∷◌, ◌++◌, Option, none, some, if◌then◌else◌,
}
use atvr4samsung.Enums
use atvr4samsung.Enums.{pv_next}
use atvr4samsung.Tlv8.{Dict, read_tlv, write_tlv}
use atvr4samsung.Auth.{
  Env, Auth, VerifySession, Answer, done, raised, verify_encrypt, server_encrypt, client_encrypt,
  pv_msg02, pv_msg03, ◌>>=◌, ok_or_none, get_value, send_to_client, send_verify_error,
  clear_verify_session, clear_verified_client, enable_encryption,
}

-- What the `try` block of `_m1_verify` makes: the session and the encrypted proof of the accessory.
unfoldable pub new_verify_session : Env → Dict → Option (VerifySession × List ℕ)
new_verify_session env pairing = do
  client_pub ← get_value Enums.Tag.public_key pairing
  shared ← env.exchange client_pub
  let session_key = env.hkdf verify_encrypt shared
  tlv ← ok_or_none (
      write_tlv (
        (Enums.Tag.identifier, env.unique_id)
        ∷ (Enums.Tag.signature, env.sign (env.server_pub ++ env.unique_id ++ client_pub))
        ∷ []))
  some (
    record {
      session_key = session_key;
      server_pub = env.server_pub;
      client_pub = client_pub;
      output_key = env.hkdf server_encrypt shared;
      input_key = env.hkdf client_encrypt shared;
    },
    env.encrypt session_key pv_msg02 tlv,
  )

abbrev pub begin_verify : Auth → Option (VerifySession × List ℕ) → Auth × Answer
begin_verify a none = (send_verify_error (clear_verify_session a), done false)
begin_verify a (some (v, encrypted)) = (
  send_to_client pv_next
      ((Enums.Tag.seq_no, 2 ∷ [])
        ∷ (Enums.Tag.public_key, v.server_pub)
        ∷ (Enums.Tag.encrypted_data, encrypted)
        ∷ [])
      (record a { verify = some v }),
  done true,
)

unfoldable pub m1_verify : Env → Dict → Auth → Auth × Answer
unfolding new_verify_session
m1_verify env pairing a =
    let cleared = clear_verified_client (clear_verify_session a) in
    if env.reset_in_progress
    then (send_verify_error cleared, done false)
    else begin_verify cleared (new_verify_session env pairing)

-- The client that a pair-verify M3 proves, as the `try` block of `_verify_client` finds it.
unfoldable pub proven_client : Env → Option VerifySession → Dict → Option (List ℕ × List ℕ)
proven_client env session pairing = do
  v ← session
  encrypted ← get_value Enums.Tag.encrypted_data pairing
  plain ← env.decrypt v.session_key pv_msg03 encrypted
  sub ← ok_or_none (read_tlv plain)
  identifier ← get_value Enums.Tag.identifier sub
  name ← env.decode_utf8 identifier
  ltpk ← env.ltpk name
  signature ← get_value Enums.Tag.signature sub
  if env.verify_signature ltpk signature (v.client_pub ++ identifier ++ v.server_pub)
      then some (name, ltpk)
      else none

-- `_verify_client`: the client's state that it leaves, and what it answers.
abbrev pub bind_client : Auth → Option (List ℕ × List ℕ) → Auth × Bool
bind_client a none = (clear_verified_client a, false)
bind_client a (some client) = (record a { client = some client }, true)

unfoldable pub verify_client : Env → Dict → Auth → Auth × Bool
unfolding proven_client
verify_client env pairing a =
    if env.require_paired then bind_client a (proven_client env a.verify pairing) else (a, true)

abbrev pub after_encryption : Auth × Answer → Auth × Answer
after_encryption (a, done b) = (clear_verify_session a, done b)
after_encryption (a, raised) = (a, raised)

-- The keys of the session are not bytes where there is none.
abbrev pub finish_verify : Auth → Option VerifySession → Auth × Answer
finish_verify a none =
    (send_verify_error (clear_verify_session (clear_verified_client a)), done false)
finish_verify a (some v) =
    let sent = send_to_client pv_next ((Enums.Tag.seq_no, 4 ∷ []) ∷ []) a in
    after_encryption (enable_encryption v.output_key v.input_key a.cipher sent)

unfoldable pub m3_verify : Env → Dict → Auth → Auth × Answer
unfolding verify_client
m3_verify env pairing a =
    let checked = verify_client env pairing a in
    if checked.1
    then finish_verify checked.0 checked.0.verify
    else (clear_verify_session (send_verify_error checked.0), done false)
