-- ===== src/Auth/Outcome.antt =====
-- How each handler of the exchange can end, as one data type, and that each of them ends so.
use atvr4samsung.Common.{ℕ, ◌≡◌, true, false, List, [], ◌∷◌, ◌++◌, Option, none, some, ◌⊎◌}
use atvr4samsung.Enums.{FrameType}
use atvr4samsung.Tlv8.{Dict}
use atvr4samsung.Auth.{
  Env, Auth, SetupSession, VerifySession, Answer, done, raised, committed, setup_window_is_current,
  active_pairing_window,
}
use atvr4samsung.Auth.Setup.{check_proof, proven_controller, setup_payload}
use atvr4samsung.Auth.Verify.{proven_client}
use atvr4samsung.Auth.Exchange.{
  Handler, on_m1_setup, on_m3_setup, on_m5_setup, on_m1_verify, on_m3_verify,
}

abbrev pub Kept : Auth → Auth → Type 0
Kept a b = (b.cipher ≡ a.cipher) × (b.enrolled ≡ a.enrolled)

-- The client that M5 has stored: none without a paired-client store.
abbrev pub Stores :
    Env → SetupSession → Dict → List (List ℕ × List ℕ) → List (List ℕ × List ℕ) → Type 0
Stores env s tlv before after =
    (env.paired_store ≡ false) × (after ≡ before)
    ⊎ (name : List ℕ) × (key : List ℕ) × (env.paired_store ≡ true)
      × (proven_controller env s tlv ≡ some (name, key))
      × (env.commit s.window.generation name key ≡ committed)
      × (after ≡ before ++ ((name, key) ∷ []))

-- What the session must have gone through before M5 stores a client.
abbrev pub Enrolls : Env → Dict → Auth → SetupSession → List (List ℕ × List ℕ) → Type 0
Enrolls env pairing a s after =
    (tlv : Dict) × (a.setup ≡ some s)
    × (a.proof_verified ≡ true)
    × (setup_window_is_current env s ≡ true)
    × (setup_payload env s pairing ≡ some tlv)
    × Stores env s tlv a.enrolled after

-- The client that M3 has bound.
abbrev pub Binds : Env → Dict → Auth → Option (List ℕ × List ℕ) → Type 0
Binds env pairing a client =
    (env.require_paired ≡ false) × (client ≡ a.client)
    ⊎ (bound : List ℕ × List ℕ) × (proven_client env a.verify pairing ≡ some bound)
      × (client ≡ some bound)

pub data Outcome (env : Env) (pairing : Dict) (a : Auth) : Handler → Auth × Answer → Type 0 where
  refused :
      {h : Handler} (b : Auth) (reply : FrameType × Dict)
      → b.sent ≡ a.sent
      → Kept a b
      → Outcome env pairing a h (record b { sent = b.sent ++ (reply ∷ []) }, done false)
  escaped :
      {h : Handler} (b : Auth) → b.sent ≡ a.sent → Kept a b → Outcome env pairing a h (b, raised)
  verify_begun :
      (v : VerifySession) (reply : FrameType × Dict)
      → Outcome env pairing a on_m1_verify
          (record a { verify = some v; client = none; sent = a.sent ++ (reply ∷ []) }, done true)
  setup_begun :
      (s : SetupSession) (reply : FrameType × Dict) (failures : ℕ)
      → env.admission.allowed ≡ true
      → env.reset_in_progress ≡ false
      → active_pairing_window env ≡ some s.window
      → Outcome env pairing a on_m1_setup (
        record a {
          verify = none;
          client = none;
          setup = some s;
          proof_verified = false;
          failures = failures;
          sent = a.sent ++ (reply ∷ []);
        },
        done true,
      )
  proof_checked :
      (s : SetupSession) (proof : List ℕ) (reply : FrameType × Dict)
      → a.setup ≡ some s
      → setup_window_is_current env s ≡ true
      → check_proof env s pairing ≡ some (some proof)
      → Outcome env pairing a on_m3_setup
          (record a { proof_verified = true; sent = a.sent ++ (reply ∷ []) }, done true)
  enrolls :
      (s : SetupSession) (reply : FrameType × Dict) (after : List (List ℕ × List ℕ))
      → Enrolls env pairing a s after
      → Outcome env pairing a on_m5_setup (
        record a {
          setup = none;
          proof_verified = false;
          has_paired = true;
          enrolled = after;
          sent = a.sent ++ (reply ∷ []);
        },
        done true,
      )
  unanswered :
      (s : SetupSession) (after : List (List ℕ × List ℕ))
      → Enrolls env pairing a s after
      → Outcome env pairing a on_m5_setup (record a { enrolled = after }, raised)
  verified :
      (v : VerifySession) (client : Option (List ℕ × List ℕ)) (reply : FrameType × Dict)
      → a.verify ≡ some v
      → a.cipher ≡ none
      → Binds env pairing a client
      → Outcome env pairing a on_m3_verify (
        record a {
          verify = none;
          client = client;
          cipher = some (v.output_key, v.input_key);
          sent = a.sent ++ (reply ∷ []);
        },
        done true,
      )
  has_cipher :
      (b : Auth) (keys : List ℕ × List ℕ)
      → a.cipher ≡ some keys
      → Kept a b
      → Outcome env pairing a on_m3_verify (b, raised)
