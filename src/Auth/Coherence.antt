-- ===== src/Auth/Coherence.antt =====
-- What the connection holds in each phase, and that every frame keeps it so.
use atvr4samsung.Common.{
  ℕ, ◌≡◌, refl, ◌∙◌, Bool, true, false, List, Option, none, some, if◌then◌else◌, arith,
}
use atvr4samsung.Enums.{FrameType}
use atvr4samsung.Tlv8.{Dict}
use atvr4samsung.Auth.{
  Env, Auth, SetupSession, VerifySession, Phase, idle, setup_m3, setup_m5, setup_complete,
  verify_m3, encrypted, failed, closed, clear_pending_auth_state, Answer,
}
use atvr4samsung.Auth.Exchange.{
  Handler, handle_auth_frame, follow_decoded, follow, after_handler, is_encrypted,
  decode_auth_frame, next_auth_transition, is_setup_frame, reject_frame,
}
use atvr4samsung.Auth.Outcome.{
  Outcome, refused, escaped, verify_begun, setup_begun, proof_checked, enrolls, unanswered,
  verified, has_cipher,
}
use atvr4samsung.Auth.Handlers.{handler-Outcome}
use atvr4samsung.Auth.Transition.{
  Transition, next_auth_transition-Transition, starts_setup, starts_verify, proves_pin,
  exchanges_keys, verifies_next, proves_key, falls_back,
}

-- Nothing of a handshake is held.
abbrev pub Cleared : Auth → Type 0
Cleared a = (a.setup ≡ none) × (a.proof_verified ≡ false) × (a.verify ≡ none) × (a.client ≡ none)

-- A pair-setup is open, with the proof of the PIN checked or not.
abbrev pub InSetup : Bool → Auth → Type 0
InSetup proven a =
    (s : SetupSession) × (a.setup ≡ some s)
    × (a.proof_verified ≡ proven)
    × (a.verify ≡ none)
    × (a.client ≡ none)

abbrev pub InVerify : Auth → Type 0
InVerify a =
    (v : VerifySession) × (a.verify ≡ some v)
    × (a.setup ≡ none)
    × (a.proof_verified ≡ false)
    × (a.client ≡ none)

abbrev pub Encrypted : Auth → Type 0
Encrypted a =
    (keys : List ℕ × List ℕ) × (a.cipher ≡ some keys)
    × (a.setup ≡ none)
    × (a.proof_verified ≡ false)
    × (a.verify ≡ none)

abbrev pub Holds : Phase → Auth → Type 0
Holds idle a = Cleared a × (a.cipher ≡ none)
Holds setup_m3 a = InSetup false a × (a.cipher ≡ none)
Holds setup_m5 a = InSetup true a × (a.cipher ≡ none)
Holds setup_complete a = Cleared a × (a.cipher ≡ none)
Holds verify_m3 a = InVerify a × (a.cipher ≡ none)
Holds encrypted a = Encrypted a
Holds failed a = Cleared a × (a.cipher ≡ none)
Holds closed a = Cleared a × (a.cipher ≡ none)

-- The connection holds what its phase stands for.
abbrev pub Coherent : Auth → Type 0
Coherent a = Holds a.phase a

reject-Coherent :
    (t : Bool) (seqno : Option ℕ) (a : Auth)
    → a.cipher ≡ none
    → Coherent (reject_frame t seqno (record (clear_pending_auth_state a) { phase = failed }))
reject-Coherent true seqno a c = ((refl, refl, refl, refl), c)
reject-Coherent false seqno a c = ((refl, refl, refl, refl), c)

pub Holds-cipher : (p : Phase) (a : Auth) → is_encrypted p ≡ false → Holds p a → a.cipher ≡ none
unfolding is_encrypted
Holds-cipher idle a e h = h.1
Holds-cipher setup_m3 a e h = h.1
Holds-cipher setup_m5 a e h = h.1
Holds-cipher setup_complete a e h = h.1
Holds-cipher verify_m3 a e h = h.1
Holds-cipher encrypted a e h = absurd (ground arith)
Holds-cipher failed a e h = h.1
Holds-cipher closed a e h = h.1

module _ (env : Env) (pairing : Dict) (a : Auth) (c : a.cipher ≡ none) where
  -- Behind each transition, a handler leaves what the next phase stands for.
  after_handler-Coherent :
      {p : Phase} {t : FrameType} {n : ℕ} {h : Handler} {next : Phase} {r : Auth × Answer}
      → Transition p t n (h, next)
      → Holds p a
      → Outcome env pairing a h r
      → Coherent (after_handler t n next r).0
  after_handler-Coherent x held (refused b reply s k) = ((refl, refl, refl, refl), k.0 ∙ c)
  after_handler-Coherent {t = t} {n} x held (escaped b s k) =
      reject-Coherent (is_setup_frame t) (some n) b (k.0 ∙ c)
  after_handler-Coherent starts_verify held (verify_begun v reply) =
      ((v, refl, held.0.0, held.0.1, refl), c)
  after_handler-Coherent verifies_next held (verify_begun v reply) =
      ((v, refl, held.0.0, held.0.1, refl), c)
  after_handler-Coherent starts_setup held (setup_begun s reply failures p q w) =
      ((s, refl, refl, refl, refl), c)
  after_handler-Coherent falls_back held (setup_begun s reply failures p q w) =
      ((s, refl, refl, refl, refl), c)
  after_handler-Coherent proves_pin held (proof_checked s proof reply h w k) =
      ((s, h, refl, held.0.3, held.0.4), c)
  after_handler-Coherent exchanges_keys held (enrolls s reply after k) =
      ((refl, refl, held.0.3, held.0.4), c)
  after_handler-Coherent {t = t} {n} x held (unanswered s after k) =
      reject-Coherent (is_setup_frame t) (some n) (record a { enrolled = after }) c
  after_handler-Coherent proves_key held (verified v client reply h k b) =
      (_, refl, held.0.2, held.0.3, refl)
  after_handler-Coherent {t = t} {n} x held (has_cipher b keys h k) =
      reject-Coherent (is_setup_frame t) (some n) b (k.0 ∙ c)

-- Whatever frame comes, and however its handler ends, the connection goes on to hold exactly what
-- its phase stands for: the open pair-setup with or without a proven PIN, the pair-verify, the
-- cipher's keys, or nothing.
pub handle_auth_frame-Coherent :
    (env : Env) (t : FrameType) (payload : Option (List ℕ)) (a : Auth)
    → Coherent a
    → Coherent (handle_auth_frame env t payload a).0
unfolding handle_auth_frame
handle_auth_frame-Coherent env t payload a held =
    guarded (is_encrypted a.phase) refl (decode_auth_frame payload)
  where
    followed :
        (pairing : Dict) (n : ℕ) (o : Option (Handler × Phase))
        → a.cipher ≡ none
        → next_auth_transition a.phase t n ≡ o
        → Coherent (follow env t (pairing, n) a o).0
    followed pairing n none c e = reject-Coherent (is_setup_frame t) (some n) a c
    followed pairing n (some (h, next)) c e =
        after_handler-Coherent env pairing a c
          (next_auth_transition-Transition a.phase t n (h, next) e) held
          (handler-Outcome h env pairing a)

    guarded :
        (b : Bool)
        → is_encrypted a.phase ≡ b
        → (o : Option (Dict × ℕ)) → Coherent (if b then (a, false) else follow_decoded env t a o).0
    guarded true e o = held
    guarded false e none = reject-Coherent (is_setup_frame t) none a (Holds-cipher a.phase a e held)
    guarded false e (some (pairing, n)) =
        followed pairing n (next_auth_transition a.phase t n) (Holds-cipher a.phase a e held) refl
