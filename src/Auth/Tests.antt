-- ===== src/Auth/Tests.antt =====
-- A run of the exchange with toy cryptography, and its theorems along that run.
use atvr4samsung.Common.{
  ℕ, ◌≡◌, refl, true, false, List, [], ◌∷◌, ◌++◌, Option, none, some, if◌then◌else◌,
}
use atvr4samsung.Common.Bytes.{bytes_eq}
use atvr4samsung.Enums.{FrameType, ps_start, ps_next, pv_start, pv_next}
use atvr4samsung.Auth.{
  Env, Auth, setup_complete, verify_m3, encrypted, failed, committed, new_auth, get_value,
  same_window, setup_m5,
}
use atvr4samsung.Tlv8.{Dict, read_tlv, write_tlv}
use atvr4samsung.Auth.Exchange.{handle_auth_frame, run_handler, is_encrypted}
use atvr4samsung.Auth.Setup.{m1_setup, m3_setup, m5_setup}
use atvr4samsung.Auth.Verify.{m1_verify, m3_verify}
use atvr4samsung.Auth.Coherence.{Coherent, handle_auth_frame-Coherent}
use atvr4samsung.Auth.Closed.{
  IsFailed, Shut, handle_frames, handle_auth_frame-IsFailed, handle_frames-failed,
  handle_auth_frame-sent,
}
use atvr4samsung.Auth.Proof.{Verified, handle_auth_frame-Verified}
use atvr4samsung.Auth.Enroll.{Grows, handle_auth_frame-Grows}

abbrev key32 : List ℕ
key32 =
    1 ∷ 2 ∷ 3 ∷ 4 ∷ 5 ∷ 6 ∷ 7 ∷ 8 ∷ 1 ∷ 2 ∷ 3 ∷ 4 ∷ 5 ∷ 6 ∷ 7 ∷ 8 ∷ 1 ∷ 2 ∷ 3 ∷ 4 ∷ 5 ∷ 6 ∷ 7 ∷ 8
    ∷ 1 ∷ 2 ∷ 3 ∷ 4 ∷ 5 ∷ 6 ∷ 7 ∷ 8 ∷ []

-- The cipher changes nothing, a signature is the one byte 9, and the PIN's proof is the byte 5.
abbrev toy : Env
toy = record {
  require_paired = true;
  paired_store = true;
  window_store = true;
  unique_id = 65 ∷ [];
  auth_pub = 66 ∷ [];
  accessory_details = 67 ∷ [];
  admission = record { allowed = true; error = none; retry_after = 0 };
  backoff = 0;
  backoff_after_failure = 0;
  reset_in_progress = false;
  window = some (record { pin = 1 ∷ 2 ∷ []; expires_at = 900; generation = 7 ∷ [] });
  ltpk = λ name. if bytes_eq name (80 ∷ []) then some key32 else none;
  commit = λ generation name key. committed;
  new_session = λ pin. some (4, 70 ∷ [], 71 ∷ []);
  srp_proof = λ session public_key salt proof.
      if bytes_eq proof (5 ∷ []) then some (some (6 ∷ [])) else some none;
  srp_key = λ session. 72 ∷ [];
  server_pub = 90 ∷ [];
  exchange = λ client_pub. some (73 ∷ client_pub);
  hkdf = λ purpose secret. secret;
  sign = λ message. 9 ∷ [];
  encrypt = λ key nonce plain. plain;
  decrypt = λ key nonce coded. some coded;
  decode_utf8 = λ bytes. some bytes;
  verify_signature = λ key signature message. bytes_eq signature (9 ∷ []);
  verify_controller = λ secret identifier key signature. bytes_eq signature (9 ∷ []);
}

-- The frames of a pair-setup and of the pair-verify behind it.
abbrev setup_m1_frame : Option (List ℕ)
setup_m1_frame = some (6 ∷ 1 ∷ 1 ∷ [])

abbrev setup_m3_frame : Option (List ℕ)
setup_m3_frame = some (6 ∷ 1 ∷ 3 ∷ 3 ∷ 1 ∷ 88 ∷ 4 ∷ 1 ∷ 5 ∷ [])

abbrev setup_m5_frame : Option (List ℕ)
setup_m5_frame = some (6 ∷ 1 ∷ 5 ∷ 5 ∷ 40 ∷ 1 ∷ 1 ∷ 80 ∷ 10 ∷ 1 ∷ 9 ∷ 3 ∷ 32 ∷ key32)

abbrev verify_m1_frame : Option (List ℕ)
verify_m1_frame = some (6 ∷ 1 ∷ 1 ∷ 3 ∷ 1 ∷ 44 ∷ [])

abbrev verify_m3_frame : Option (List ℕ)
verify_m3_frame = some (6 ∷ 1 ∷ 3 ∷ 5 ∷ 6 ∷ 1 ∷ 1 ∷ 80 ∷ 10 ∷ 1 ∷ 9 ∷ [])

-- The connection behind the proof of the PIN, and behind a pair-verify M1.
abbrev in_m5 : Auth
in_m5 = record new_auth {
  phase = setup_m5;
  setup = some (record {
    session = 4;
    public_value = 70 ∷ [];
    salt = 71 ∷ [];
    window = record { pin = 1 ∷ 2 ∷ []; expires_at = 900; generation = 7 ∷ [] };
  });
  proof_verified = true;
}

abbrev in_verify : Auth
in_verify = record new_auth {
  phase = verify_m3;
  verify = some (record {
    session_key = 73 ∷ 44 ∷ [];
    server_pub = 90 ∷ [];
    client_pub = 44 ∷ [];
    output_key = 73 ∷ 44 ∷ [];
    input_key = 73 ∷ 44 ∷ [];
  });
}

run_proof :
    (handle_auth_frame toy ps_next setup_m3_frame
      (handle_auth_frame toy ps_start setup_m1_frame new_auth).0).0.setup
    ≡ in_m5.setup
unfolding handle_auth_frame run_handler m1_setup m3_setup m5_setup m1_verify m3_verify is_encrypted
    read_tlv write_tlv get_value bytes_eq same_window
run_proof = refl

run_begin : (handle_auth_frame toy pv_start verify_m1_frame new_auth).0.verify ≡ in_verify.verify
unfolding handle_auth_frame run_handler m1_setup m3_setup m5_setup m1_verify m3_verify is_encrypted
    read_tlv write_tlv get_value bytes_eq same_window
run_begin = refl

run_setup : (handle_auth_frame toy ps_next setup_m5_frame in_m5).0.enrolled ≡ (80 ∷ [], key32) ∷ []
unfolding handle_auth_frame run_handler m1_setup m3_setup m5_setup m1_verify m3_verify is_encrypted
    read_tlv write_tlv get_value bytes_eq same_window
run_setup = refl

run_phase : (handle_auth_frame toy ps_next setup_m5_frame in_m5).0.phase ≡ setup_complete
unfolding handle_auth_frame run_handler m1_setup m3_setup m5_setup m1_verify m3_verify is_encrypted
    read_tlv write_tlv get_value bytes_eq same_window
run_phase = refl

run_verify : (handle_auth_frame toy pv_next verify_m3_frame in_verify).0.phase ≡ encrypted
unfolding handle_auth_frame run_handler m1_setup m3_setup m5_setup m1_verify m3_verify is_encrypted
    read_tlv write_tlv get_value bytes_eq same_window
run_verify = refl

run_wrong_frame : (handle_auth_frame toy pv_next verify_m3_frame new_auth).0.phase ≡ failed
unfolding handle_auth_frame run_handler m1_setup m3_setup m5_setup m1_verify m3_verify is_encrypted
    read_tlv write_tlv get_value bytes_eq same_window
run_wrong_frame = refl

not_yet : is_encrypted in_verify.phase ≡ false
unfolding handle_auth_frame run_handler m1_setup m3_setup m5_setup m1_verify m3_verify is_encrypted
    read_tlv write_tlv get_value bytes_eq same_window
not_yet = refl

not_new : is_encrypted new_auth.phase ≡ false
unfolding is_encrypted
not_new = refl

becomes_encrypted :
    is_encrypted (handle_auth_frame toy pv_next verify_m3_frame in_verify).0.phase ≡ true
unfolding handle_auth_frame run_handler m1_setup m3_setup m5_setup m1_verify m3_verify is_encrypted
    read_tlv write_tlv get_value bytes_eq same_window
becomes_encrypted = refl

refused : (handle_auth_frame toy pv_next verify_m3_frame new_auth).1 ≡ false
unfolding handle_auth_frame run_handler m1_setup m3_setup m5_setup m1_verify m3_verify is_encrypted
    read_tlv write_tlv get_value bytes_eq same_window
refused = refl

handle_auth_frame-Verified_example :
    Verified toy pv_next in_verify in_verify.phase
      (handle_auth_frame toy pv_next verify_m3_frame in_verify).0
handle_auth_frame-Verified_example =
    handle_auth_frame-Verified toy pv_next verify_m3_frame in_verify refl not_yet becomes_encrypted

handle_auth_frame-Grows_example :
    Grows toy ps_next in_m5 in_m5.phase (handle_auth_frame toy ps_next setup_m5_frame in_m5).0
handle_auth_frame-Grows_example = handle_auth_frame-Grows toy ps_next setup_m5_frame in_m5

handle_auth_frame-Coherent_example :
    Coherent (handle_auth_frame toy ps_start setup_m1_frame new_auth).0
handle_auth_frame-Coherent_example =
    handle_auth_frame-Coherent toy ps_start setup_m1_frame new_auth ((refl, refl, refl, refl), refl)

handle_auth_frame-IsFailed_example :
    IsFailed (handle_auth_frame toy pv_next verify_m3_frame new_auth).0
handle_auth_frame-IsFailed_example =
    handle_auth_frame-IsFailed toy pv_next verify_m3_frame new_auth not_new refused

handle_frames-failed_example : Shut (handle_auth_frame toy pv_next verify_m3_frame new_auth).0 (
    handle_frames
      ((toy, ps_start, setup_m1_frame) ∷ [])
      (handle_auth_frame toy pv_next verify_m3_frame new_auth).0)
handle_frames-failed_example =
    handle_frames-failed toy pv_next verify_m3_frame new_auth ((toy, ps_start, setup_m1_frame) ∷ [])
      not_new refused

handle_auth_frame-sent_example :
    (reply : FrameType × Dict) × ((handle_auth_frame toy ps_start setup_m1_frame new_auth).0.sent
      ≡ [] ++ (reply ∷ []))
handle_auth_frame-sent_example =
    handle_auth_frame-sent toy ps_start setup_m1_frame new_auth ((refl, refl, refl, refl), refl)
      not_new
