-- ===== src/Auth/Openings.antt =====
-- The handlers of the first messages, of pair-setup and of pair-verify, end in one of the outcomes.
use atvr4samsung.Common.{
  ℕ, ◌==◌, ◌≡◌, refl, Bool, true, false, List, Option, none, some, ltb, if◌then◌else◌,
}
use atvr4samsung.Enums.{
  ps_next, ErrorCode, unknown_error, authentication, back_off, max_peers, max_tries, unavailable,
  busy,
}
use atvr4samsung.Tlv8.{Dict}
use atvr4samsung.Auth.{
  Env, Auth, Window, SetupSession, VerifySession, done, raised, active_pairing_window,
  send_setup_backoff, send_to_client, backoff_tlv, send_setup_error, send_verify_error,
  clear_setup_session, clear_verify_session, clear_verified_client, pairing_failed,
}
use atvr4samsung.Auth.Setup.{
  m1_setup, send_setup_admission_error, send_admission_error_code, open_session, begin_setup,
  begin_in_window,
}
use atvr4samsung.Auth.Verify.{m1_verify, new_verify_session, begin_verify}
use atvr4samsung.Auth.Exchange.{Handler, on_m1_setup, on_m1_verify}
use atvr4samsung.Auth.Outcome.{Outcome, refused, escaped, verify_begun, setup_begun}

pub send_backoff-Outcome :
    {env : Env} {pairing : Dict} {h : Handler} (a b : Auth) (delay : ℕ)
    → b.sent ≡ a.sent
    → b.cipher ≡ a.cipher
    → b.enrolled ≡ a.enrolled
    → Outcome env pairing a h (send_setup_backoff delay b)
send_backoff-Outcome {env} {pairing} {h} a b delay s c n = fits (ltb delay 65536)
  where
    fits :
        (t : Bool)
        → Outcome env pairing a h
            (if t then (send_to_client ps_next (backoff_tlv delay) b, done false) else (b, raised))
    fits true = refused b _ s (c, n)
    fits false = escaped b s (c, n)

admission_error-Outcome :
    {env : Env} {pairing : Dict} {h : Handler} (a b : Auth) (retry_after : ℕ)
    (error : Option ErrorCode)
    → b.sent ≡ a.sent
    → b.cipher ≡ a.cipher
    → b.enrolled ≡ a.enrolled
    → Outcome env pairing a h (send_admission_error_code retry_after error b)
admission_error-Outcome a b retry_after none s c n = refused b _ s (c, n)
admission_error-Outcome a b retry_after (some unknown_error) s c n = refused b _ s (c, n)
admission_error-Outcome a b retry_after (some authentication) s c n = refused b _ s (c, n)
admission_error-Outcome a b retry_after (some back_off) s c n = send_backoff-Outcome a b _ s c n
admission_error-Outcome a b retry_after (some max_peers) s c n = refused b _ s (c, n)
admission_error-Outcome a b retry_after (some max_tries) s c n = refused b _ s (c, n)
admission_error-Outcome a b retry_after (some unavailable) s c n = refused b _ s (c, n)
admission_error-Outcome a b retry_after (some busy) s c n = refused b _ s (c, n)

pub m1_verify-Outcome :
    (env : Env) (pairing : Dict) (a : Auth)
    → Outcome env pairing a on_m1_verify (m1_verify env pairing a)
unfolding m1_verify
m1_verify-Outcome env pairing a = guarded env.reset_in_progress (new_verify_session env pairing)
  where
    guarded :
        (t : Bool) (made : Option (VerifySession × List ℕ))
        → Outcome env pairing a on_m1_verify (
            if t
            then (send_verify_error (clear_verified_client (clear_verify_session a)), done false)
            else begin_verify (clear_verified_client (clear_verify_session a)) made)
    guarded true made = refused _ _ refl (refl, refl)
    guarded false none = refused _ _ refl (refl, refl)
    guarded false (some (v, encrypted)) = verify_begun v _

-- The state in which `_m1_setup` looks at its guards.
abbrev cleared : Auth → Auth
cleared a = clear_verified_client (clear_verify_session a)

module _ (env : Env) (pairing : Dict) (a : Auth) where
  open_session-Outcome :
      (w : Window) (failures : ℕ) (made : Option (ℕ × List ℕ × List ℕ))
      (setup : Option SetupSession) (t : Bool)
      → env.admission.allowed ≡ true
      → env.reset_in_progress ≡ false
      → active_pairing_window env ≡ some w
      → Outcome env pairing a on_m1_setup (
          open_session w
            (record (cleared a) { failures = failures; setup = setup; proof_verified = t })
            made)
  open_session-Outcome w failures none setup t p q e = escaped _ refl (refl, refl)
  open_session-Outcome w failures (some (s, public_value, salt)) setup t p q e =
      setup_begun _ _ _ p q e

  begin_setup-Outcome :
      (w : Window) (held : Option SetupSession)
      → env.admission.allowed ≡ true
      → env.reset_in_progress ≡ false
      → active_pairing_window env ≡ some w
      → Outcome env pairing a on_m1_setup (begin_setup env w held (cleared a))
  begin_setup-Outcome w none p q e = open_session-Outcome w _ (env.new_session w.pin) _ _ p q e
  begin_setup-Outcome w (some held) p q e = throttled (env.backoff_after_failure == 0)
    where
      throttled :
          (t : Bool)
          → Outcome env pairing a on_m1_setup (
              if t
              then open_session w
                  (clear_setup_session (pairing_failed (cleared a)))
                  (env.new_session w.pin)
              else send_setup_backoff env.backoff_after_failure
                  (clear_setup_session (pairing_failed (cleared a))))
      throttled true = open_session-Outcome w _ (env.new_session w.pin) _ _ p q e
      throttled false = send_backoff-Outcome a _ _ refl refl refl

  begin_in_window-Outcome :
      (held : Option Window)
      → env.admission.allowed ≡ true
      → env.reset_in_progress ≡ false
      → active_pairing_window env ≡ held
      → Outcome env pairing a on_m1_setup (begin_in_window env held (cleared a))
  begin_in_window-Outcome none p q e = refused _ _ refl (refl, refl)
  begin_in_window-Outcome (some w) p q e = begin_setup-Outcome w a.setup p q e

  pub m1_setup-Outcome : Outcome env pairing a on_m1_setup (m1_setup env pairing a)
  unfolding m1_setup
  m1_setup-Outcome =
      guarded env.admission.allowed env.reset_in_progress (env.backoff == 0) refl refl
    where
      guarded :
          (t r z : Bool)
          → env.admission.allowed ≡ t
          → env.reset_in_progress ≡ r
          → Outcome env pairing a on_m1_setup (
              if t
              then (if r
                  then (
                    send_setup_error 2 authentication (clear_setup_session (cleared a)),
                    done false,
                  )
                  else if z
                  then begin_in_window env (active_pairing_window env) (cleared a)
                  else send_setup_backoff env.backoff (clear_setup_session (cleared a)))
              else send_setup_admission_error env.admission (clear_setup_session (cleared a)))
      guarded false r z p q =
          admission_error-Outcome a (clear_setup_session (cleared a)) env.admission.retry_after
            env.admission.error refl refl refl
      guarded true true z p q = refused _ _ refl (refl, refl)
      guarded true false true p q = begin_in_window-Outcome (active_pairing_window env) p q refl
      guarded true false false p q = send_backoff-Outcome a _ _ refl refl refl
