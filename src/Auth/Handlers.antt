-- ===== src/Auth/Handlers.antt =====
-- Every handler of the exchange ends in one of the outcomes.
use atvr4samsung.Common.{
  ℕ, ◌≡◌, refl, Bool, true, false, List, [], ◌∷◌, Option, none, some, inl, inr, if◌then◌else◌,
}
use atvr4samsung.Enums.{
  FrameType, ps_next, pv_next, ErrorCode, unknown_error, authentication, back_off, max_peers,
  max_tries, unavailable, busy,
}
use atvr4samsung.Enums
use atvr4samsung.Tlv8.{Dict}
use atvr4samsung.Auth.{
  Env, Auth, SetupSession, VerifySession, done, Commit, committed, not_current, full, commit_failed,
  setup_window_is_current, send_to_client, send_setup_error, send_verify_error, clear_setup_session,
  clear_verify_session, enable_encryption,
}
use atvr4samsung.Auth.Setup.{
  m3_setup, m5_setup, m3_session, m5_session, check_proof, proven_controller, register_setup_client,
  setup_payload, accessory_reply, answer_proof, fail_setup, registered, rejected,
  register_controller, registration_of, answer_registration, finish_setup, register_payload,
  store_client,
}
use atvr4samsung.Auth.Verify.{
  m3_verify, proven_client, finish_verify, bind_client, verify_client, after_encryption,
}
use atvr4samsung.Auth.Exchange.{
  Handler, run_handler, on_m1_setup, on_m3_setup, on_m5_setup, on_m1_verify, on_m3_verify,
}
use atvr4samsung.Auth.Outcome.{
  Outcome, refused, proof_checked, enrolls, unanswered, verified, has_cipher, Enrolls, Binds,
}
use atvr4samsung.Auth.Openings.{m1_verify-Outcome, m1_setup-Outcome}

module _ (env : Env) (pairing : Dict) (a : Auth) where
  m3_setup-Outcome : Outcome env pairing a on_m3_setup (m3_setup env pairing a)
  unfolding m3_setup
  m3_setup-Outcome = held a.setup refl
    where
      checked :
          (s : SetupSession) (r : Option (Option (List ℕ)))
          → a.setup ≡ some s
          → setup_window_is_current env s ≡ true
          → check_proof env s pairing ≡ r
          → Outcome env pairing a on_m3_setup (answer_proof a r)
      checked s none e c p = refused _ _ refl (refl, refl)
      checked s (some none) e c p = refused _ _ refl (refl, refl)
      checked s (some (some proof)) e c p = proof_checked s proof _ e c p

      guarded :
          (s : SetupSession) (t c : Bool)
          → a.setup ≡ some s
          → setup_window_is_current env s ≡ c
          → Outcome env pairing a on_m3_setup (
              if t
              then fail_setup 4 a
              else if c
              then answer_proof a (check_proof env s pairing)
              else (send_setup_error 4 authentication (clear_setup_session a), done false))
      guarded s true c e p = refused _ _ refl (refl, refl)
      guarded s false true e p = checked s _ e p refl
      guarded s false false e p = refused _ _ refl (refl, refl)

      held :
          (h : Option SetupSession)
          → a.setup ≡ h
          → Outcome env pairing a on_m3_setup (m3_session env pairing h a)
      held none e = refused _ _ refl (refl, refl)
      held (some s) e = guarded s a.proof_verified (setup_window_is_current env s) e refl

  finish_setup-Outcome :
      (s : SetupSession) (client : Option (List ℕ × List ℕ)) (reply : Option Dict)
      → Enrolls env pairing a s (store_client client a).enrolled
      → Outcome env pairing a on_m5_setup (finish_setup (store_client client a) reply)
  finish_setup-Outcome s none none e = unanswered s _ e
  finish_setup-Outcome s none (some tlv) e = enrolls s _ _ e
  finish_setup-Outcome s (some client) none e = unanswered s _ e
  finish_setup-Outcome s (some client) (some tlv) e = enrolls s _ _ e

  rejected-Outcome :
      (s : SetupSession) (error : ErrorCode)
      → Outcome env pairing a on_m5_setup (answer_registration env s a (rejected error))
  rejected-Outcome s unknown_error = refused _ _ refl (refl, refl)
  rejected-Outcome s authentication = refused _ _ refl (refl, refl)
  rejected-Outcome s back_off = refused _ _ refl (refl, refl)
  rejected-Outcome s max_peers = refused _ _ refl (refl, refl)
  rejected-Outcome s max_tries = refused _ _ refl (refl, refl)
  rejected-Outcome s unavailable = refused _ _ refl (refl, refl)
  rejected-Outcome s busy = refused _ _ refl (refl, refl)

  register-Outcome :
      (s : SetupSession) (tlv : Dict)
      → a.setup ≡ some s
      → a.proof_verified ≡ true
      → setup_window_is_current env s ≡ true
      → setup_payload env s pairing ≡ some tlv
      → Outcome env pairing a on_m5_setup
          (answer_registration env s a (register_setup_client env s tlv))
  unfolding register_setup_client
  register-Outcome s tlv e v c p = stored env.paired_store _ refl refl
    where
      commits :
          (name key : List ℕ) (r : Commit)
          → env.paired_store ≡ true
          → proven_controller env s tlv ≡ some (name, key)
          → env.commit s.window.generation name key ≡ r
          → Outcome env pairing a on_m5_setup
              (answer_registration env s a (registration_of (name, key) r))
      commits name key committed t m r =
          finish_setup-Outcome s (some (name, key)) (accessory_reply env s)
            (tlv, e, v, c, p, inr (name, key, t, m, r, refl))
      commits name key not_current t m r = rejected-Outcome s authentication
      commits name key full t m r = rejected-Outcome s max_peers
      commits name key commit_failed t m r = rejected-Outcome s authentication

      stored :
          (t : Bool) (o : Option (List ℕ × List ℕ))
          → env.paired_store ≡ t
          → proven_controller env s tlv ≡ o
          → Outcome env pairing a on_m5_setup (
              answer_registration env s a
                (if t then register_controller env s o else registered none))
      stored false o t m =
          finish_setup-Outcome s none (accessory_reply env s) (tlv, e, v, c, p, inl (t, refl))
      stored true none t m = rejected-Outcome s authentication
      stored true (some (name, key)) t m =
          commits name key (env.commit s.window.generation name key) t m refl

  m5_setup-Outcome : Outcome env pairing a on_m5_setup (m5_setup env pairing a)
  unfolding m5_setup
  m5_setup-Outcome = held a.setup refl
    where
      payload :
          (s : SetupSession) (o : Option Dict)
          → a.setup ≡ some s
          → a.proof_verified ≡ true
          → setup_window_is_current env s ≡ true
          → setup_payload env s pairing ≡ o
          → Outcome env pairing a on_m5_setup (register_payload env s a o)
      payload s none e v c p = refused _ _ refl (refl, refl)
      payload s (some tlv) e v c p = register-Outcome s tlv e v c p

      guarded :
          (s : SetupSession) (t c : Bool)
          → a.setup ≡ some s
          → a.proof_verified ≡ t
          → setup_window_is_current env s ≡ c
          → Outcome env pairing a on_m5_setup (
              if t
              then (if c
                  then register_payload env s a (setup_payload env s pairing)
                  else (send_setup_error 6 authentication (clear_setup_session a), done false))
              else fail_setup 6 a)
      guarded s false c e v p = refused _ _ refl (refl, refl)
      guarded s true false e v p = refused _ _ refl (refl, refl)
      guarded s true true e v p = payload s _ e v p refl

      held :
          (h : Option SetupSession)
          → a.setup ≡ h
          → Outcome env pairing a on_m5_setup (m5_session env pairing h a)
      held none e = refused _ _ refl (refl, refl)
      held (some s) e = guarded s a.proof_verified (setup_window_is_current env s) e refl refl

  m3_verify-Outcome : Outcome env pairing a on_m3_verify (m3_verify env pairing a)
  unfolding m3_verify verify_client
  m3_verify-Outcome = bound env.require_paired (proven_client env a.verify pairing) refl refl
    where
      installs :
          (v : VerifySession) (client held : Option (List ℕ × List ℕ))
          → a.verify ≡ some v
          → a.cipher ≡ held
          → Binds env pairing a client
          → Outcome env pairing a on_m3_verify (
              after_encryption (
                enable_encryption v.output_key v.input_key held (
                  send_to_client pv_next
                    ((Enums.Tag.seq_no, 4 ∷ []) ∷ [])
                    (record a { client = client }))))
      installs v client none e k b = verified v client _ e k b
      installs v client (some keys) e k b = has_cipher _ keys k (refl, refl)

      finishes :
          (o : Option VerifySession) (client : Option (List ℕ × List ℕ))
          → a.verify ≡ o
          → Binds env pairing a client
          → Outcome env pairing a on_m3_verify (finish_verify (record a { client = client }) o)
      finishes none client e b = refused _ _ refl (refl, refl)
      finishes (some v) client e b = installs v client a.cipher e refl b

      bound :
          (t : Bool) (o : Option (List ℕ × List ℕ))
          → env.require_paired ≡ t
          → proven_client env a.verify pairing ≡ o
          → Outcome env pairing a on_m3_verify (
              let checked : Auth × Bool = if t then bind_client a o else (a, true) in
              if checked.1
              then finish_verify checked.0 checked.0.verify
              else (clear_verify_session (send_verify_error checked.0), done false))
      bound false o t p = finishes a.verify a.client refl (inl (t, refl))
      bound true none t p = refused _ _ refl (refl, refl)
      bound true (some client) t p = finishes a.verify (some client) refl (inr (client, p, refl))

pub handler-Outcome :
    (h : Handler) (env : Env) (pairing : Dict) (a : Auth)
    → Outcome env pairing a h (run_handler h env pairing a)
unfolding run_handler
handler-Outcome on_m1_setup env pairing a = m1_setup-Outcome env pairing a
handler-Outcome on_m3_setup env pairing a = m3_setup-Outcome env pairing a
handler-Outcome on_m5_setup env pairing a = m5_setup-Outcome env pairing a
handler-Outcome on_m1_verify env pairing a = m1_verify-Outcome env pairing a
handler-Outcome on_m3_verify env pairing a = m3_verify-Outcome env pairing a
