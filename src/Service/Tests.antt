-- ===== src/Service/Tests.antt =====
-- Runs of a connection with toy cryptography, and its theorems at concrete states.
use native.Mathlib.Omega.{arith}
use atvr4samsung.Common.{
  ℕ, ◌+◌, ◌-◌, ◌≡◌, refl, ap, true, false, List, [], ◌∷◌, ◌++◌, Option, none, some, length, take,
  replicate, length-append, take-append, inl,
}
use atvr4samsung.Common.Bytes.{bytes_eq, to_be, from_be, to_le}
use atvr4samsung.Enums.{e_opack}
use atvr4samsung.Framing.{
  CompanionFrame, too_large, feed, begin_frame, begin_header, take_bytes, declared, size_frame,
  clear,
}
use atvr4samsung.Cipher.{Aead, new_cipher, nonce_length}
use atvr4samsung.Auth.{Env, committed}
use atvr4samsung.Opack.{Runtime, null}
use atvr4samsung.Opack.Pack.{pack}
use atvr4samsung.Service.{Service, Handlers, World, new_service, connected}
use atvr4samsung.Service.Wire.{send_to_client, tag_size}
use atvr4samsung.Service.Frames.{handle_frame, data_received}
use atvr4samsung.Service.Link.{Delivered, send_to_client-Delivered}
use atvr4samsung.Service.Guard.{data_received-ended, handle_frame-session}
use atvr4samsung.Service.Command.{command_of, commanded}
use atvr4samsung.Service.Commanded.{handle_frame-commanded}

abbrev env : Env
env = record {
  require_paired = true;
  paired_store = true;
  window_store = false;
  unique_id = 65 ∷ [];
  auth_pub = 66 ∷ [];
  accessory_details = 67 ∷ [];
  admission = record { allowed = true; error = none; retry_after = 0 };
  backoff = 0;
  backoff_after_failure = 0;
  reset_in_progress = false;
  window = none;
  ltpk = λ name. none;
  commit = λ generation name key. committed;
  new_session = λ pin. none;
  srp_proof = λ session public_key salt proof. none;
  srp_key = λ session. [];
  server_pub = 90 ∷ [];
  exchange = λ client_pub. none;
  hkdf = λ purpose secret. secret;
  sign = λ message. message;
  encrypt = λ key nonce plain. plain;
  decrypt = λ key nonce coded. some coded;
  decode_utf8 = λ bytes. some bytes;
  verify_signature = λ key signature message. false;
  verify_controller = λ secret identifier key signature. false;
}

-- Sealing appends sixteen zeros.
abbrev toy_aead : Aead
toy_aead = record {
  seal = λ key nonce plain aad. plain ++ replicate 16 0;
  unseal = λ key nonce coded aad. some (take (length coded - 16) coded);
}

abbrev ascii : Runtime
ascii = record {
  encode_utf8 = λ s. some s;
  decode_utf8 = λ s. some s;
  widen = λ b. b;
  float_eq = bytes_eq;
  int_float_eq = λ n b. false;
}

abbrev toy : World
toy = record {
  auth = env;
  aead = toy_aead;
  runtime = ascii;
  authorizes = λ name key. some true;
  lower = λ name. name;
}

-- The session is a count of the messages that had a method.
abbrev counting : Handlers ℕ
counting = record {
  create = 0;
  is_closed = λ n. false;
  attach = λ n. n;
  detach = λ n. 0;
  find = λ name. some (λ v s. (record s { session = s.session + 1 }, false));
}

abbrev fresh : Service ℕ
fresh = record (new_service 1 none 15 0) { transport = connected; admitted = true }

abbrev secured : Service ℕ
secured = record fresh { chacha = some (new_cipher (1 ∷ []) (2 ∷ []) nonce_length) }

-- {"_i": "a"} in the clear
abbrev command : CompanionFrame
command = record { header = 8 ∷ 0 ∷ 0 ∷ 6 ∷ []; payload = 225 ∷ 66 ∷ 95 ∷ 105 ∷ 65 ∷ 97 ∷ [] }

abbrev sealed_for_toy : CompanionFrame
sealed_for_toy = record {
  header = 8 ∷ 0 ∷ 0 ∷ 22 ∷ [];
  payload = (225 ∷ 66 ∷ 95 ∷ 105 ∷ 65 ∷ 97 ∷ []) ++ replicate 16 0;
}

abbrev paired : Service ℕ
paired = record secured { auth = record (secured.auth) { client = some (80 ∷ [], 81 ∷ []) } }

run_command : (handle_frame counting toy sealed_for_toy paired).0.session ≡ 1
unfolding handle_frame bytes_eq to_be to_le
run_command = refl

handle_frame-session_example : (handle_frame counting toy command fresh).0.session ≡ 0
handle_frame-session_example = handle_frame-session counting toy command fresh refl

-- A frame that announces 2^24 - 1 bytes.
too_large_header : (feed (fresh.parser) (8 ∷ 255 ∷ 255 ∷ 255 ∷ [])).1 ≡ too_large
unfolding feed begin_frame begin_header take_bytes declared size_frame clear from_be
too_large_header = refl

data_received-ended_example :
    data_received counting
      (λ n. toy)
      (1 ∷ [])
      (data_received counting (λ n. toy) (8 ∷ 255 ∷ 255 ∷ 255 ∷ []) fresh)
    ≡ data_received counting (λ n. toy) (8 ∷ 255 ∷ 255 ∷ 255 ∷ []) fresh
data_received-ended_example =
    data_received-ended counting (λ n. toy) (λ n. toy) (8 ∷ 255 ∷ 255 ∷ 255 ∷ []) (1 ∷ []) fresh
      refl (inl too_large_header)

toy_opens :
    (key nonce plain : List ℕ) (aad : Option (List ℕ))
    → toy_aead.unseal key nonce (toy_aead.seal key nonce plain aad) aad ≡ some plain
toy_opens key nonce plain aad =
    ap some
      (take-append _ plain (replicate 16 0) (omega (arith, length-append plain (replicate 16 0))))

toy_length :
    (key nonce plain : List ℕ) (aad : Option (List ℕ))
    → length (toy_aead.seal key nonce plain aad) ≡ length plain + tag_size
toy_length key nonce plain aad = length-append plain (replicate 16 0)

abbrev sent_null : Service ℕ
sent_null = record secured {
  chacha = some (record (new_cipher (1 ∷ []) (2 ∷ []) nonce_length) { out_counter = 1 });
  written = ((8 ∷ 0 ∷ 0 ∷ 17 ∷ []) ++ (4 ∷ replicate 16 0)) ∷ [];
}

send_null : send_to_client toy e_opack null secured ≡ some sent_null
unfolding send_to_client bytes_eq to_be to_le
send_null = refl

pack_null : pack ascii null ≡ some (4 ∷ [])
unfolding pack
pack_null = refl

send_to_client-Delivered_example :
    (written : List ℕ) × (sent_null.written ≡ secured.written ++ (written ∷ []))
    × Delivered toy_aead e_opack
        (4 ∷ [])
        written
        (new_cipher (2 ∷ []) (1 ∷ []) nonce_length)
        (sent_null.chacha)
send_to_client-Delivered_example =
    send_to_client-Delivered ℕ toy e_opack null secured sent_null
      (new_cipher (1 ∷ []) (2 ∷ []) nonce_length) (new_cipher (2 ∷ []) (1 ∷ []) nonce_length)
      (4 ∷ []) toy_opens toy_length refl refl (refl, refl, refl) pack_null (omega arith) send_null

handle_frame-commanded_example :
    (handle_frame counting toy sealed_for_toy paired).0.session
    ≡ commanded paired (command_of counting toy sealed_for_toy paired)
handle_frame-commanded_example = handle_frame-commanded counting toy sealed_for_toy paired
