-- ===== src/Auth/Proof.antt =====
-- What a client has shown before its connection is encrypted, and before its key is stored.
use mathlib.Core.Path.{subst}
use atvr4samsung.Common.{
  ℕ, ◌≡◌, refl, sym, ap, ◌∙◌, Bool, true, false, List, [], ◌++◌, Option, some, ◌⊎◌, inl, inr, arith,
}
pub use atvr4samsung.Common.Options.{bind_some, guard_some}
use atvr4samsung.Enums
use atvr4samsung.Enums.{FrameType, ps_next, pv_next}
use atvr4samsung.Tlv8.{Dict, read_tlv}
use atvr4samsung.Auth.{
  Env, Auth, VerifySession, Phase, verify_m3, failed, clear_pending_auth_state, Answer, pv_msg03,
  get_value, ok_or_none,
}
use atvr4samsung.Auth.Verify.{proven_client}
use atvr4samsung.Auth.Exchange.{
  Handler, handle_auth_frame, after_handler, reject_auth_transition, reject_frame, is_encrypted,
  is_setup_frame,
}
use atvr4samsung.Auth.Outcome.{
  Outcome, refused, escaped, verify_begun, setup_begun, proof_checked, enrolls, unanswered,
  verified, has_cipher,
}
use atvr4samsung.Auth.Transition.{
  Transition, starts_setup, starts_verify, proves_pin, exchanges_keys, verifies_next, proves_key,
  falls_back,
}
use atvr4samsung.Auth.Ended.{Ended, ignored, refused_frame, handled, handle_auth_frame-Ended}

-- The client's key is in the store under the identifier of the message, and signs both ephemeral
-- keys of this pair-verify with that identifier between them.
abbrev pub Signs : Env → VerifySession → List ℕ × List ℕ → Type 0
Signs env v (name, key) =
    (identifier : List ℕ) × (signature : List ℕ) × (env.decode_utf8 identifier ≡ some name)
    × (env.ltpk name ≡ some key)
    × (env.verify_signature key signature (v.client_pub ++ identifier ++ v.server_pub) ≡ true)

proven_client-Signs :
    (env : Env) (v : VerifySession) (pairing : Dict) (client : List ℕ × List ℕ)
    → proven_client env (some v) pairing ≡ some client
    → Signs env v client
unfolding proven_client
proven_client-Signs env v pairing client e =
    let a = bind_some (get_value Enums.Tag.encrypted_data pairing) e in
    let b = bind_some (env.decrypt v.session_key pv_msg03 a.0) a.2 in
    let c = bind_some (ok_or_none (read_tlv b.0)) b.2 in
    let d = bind_some (get_value Enums.Tag.identifier c.0) c.2 in
    let f = bind_some (env.decode_utf8 d.0) d.2 in
    let g = bind_some (env.ltpk f.0) f.2 in
    let h = bind_some (get_value Enums.Tag.signature c.0) g.2 in
    let k = guard_some (env.verify_signature g.0 h.0 (v.client_pub ++ d.0 ++ v.server_pub)) h.2 in
    subst (Signs env v) k.1 (d.0, h.0, f.1, g.1, k.0)

binds-Signs :
    (env : Env) (pairing : Dict) (a : Auth) (v : VerifySession) (client : Option (List ℕ × List ℕ))
    → env.require_paired ≡ true
    → a.verify ≡ some v
    → (env.require_paired ≡ false) × (client ≡ a.client)
      ⊎ (bound : List ℕ × List ℕ) × (proven_client env a.verify pairing ≡ some bound)
        × (client ≡ some bound)
    → (bound : List ℕ × List ℕ) × (client ≡ some bound) × Signs env v bound
binds-Signs env pairing a v client q h (inl (r, e)) = absurd (ground arith)
binds-Signs env pairing a v client q h (inr (bound, p, e)) = (
  bound,
  e,
  proven_client-Signs env v pairing bound (sym (ap (λ o. proven_client env o pairing) h) ∙ p),
)

-- The encrypted connection of `b` is the one that this pair-verify M3 of `a` has proven.
abbrev pub Verified : Env → FrameType → Auth → Phase → Auth → Type 0
Verified env t a p b =
    (t ≡ pv_next)
    × (p ≡ verify_m3)
    × ((v : VerifySession) × (a.verify ≡ some v)
        × (b.cipher ≡ some (v.output_key, v.input_key))
        × ((client : List ℕ × List ℕ) × (b.client ≡ some client) × Signs env v client))

reject_phase :
    (t : Bool) (seqno : Option ℕ) (a : Auth)
    → is_encrypted
        (reject_frame t seqno (record (clear_pending_auth_state a) { phase = failed })).phase
      ≡ false
unfolding is_encrypted
reject_phase true seqno a = refl
reject_phase false seqno a = refl

module _ (env : Env) (pairing : Dict) (a : Auth) (q : env.require_paired ≡ true) where
  reject-Verified :
      {p : Phase} (t : FrameType) (seqno : Option ℕ) (b : Auth)
      → is_encrypted (reject_auth_transition t seqno b).0.phase ≡ true
      → Verified env t a p (reject_auth_transition t seqno b).0
  reject-Verified t seqno b e =
      let kept = reject_phase (is_setup_frame t) seqno b in absurd (ground arith)

  after_handler-Verified :
      {p : Phase} {t : FrameType} {n : ℕ} {h : Handler} {next : Phase} {r : Auth × Answer}
      → Transition p t n (h, next)
      → Outcome env pairing a h r
      → is_encrypted (after_handler t n next r).0.phase ≡ true
      → Verified env t a p (after_handler t n next r).0
  unfolding is_encrypted
  after_handler-Verified x (refused b reply s k) e = absurd (ground arith)
  after_handler-Verified {t = t} {n} x (escaped b s k) e = reject-Verified t (some n) b e
  after_handler-Verified starts_verify (verify_begun v reply) e = absurd (ground arith)
  after_handler-Verified verifies_next (verify_begun v reply) e = absurd (ground arith)
  after_handler-Verified starts_setup (setup_begun s reply failures k m w) e = absurd (ground arith)
  after_handler-Verified falls_back (setup_begun s reply failures k m w) e = absurd (ground arith)
  after_handler-Verified proves_pin (proof_checked s proof reply h w k) e = absurd (ground arith)
  after_handler-Verified exchanges_keys (enrolls s reply after k) e = absurd (ground arith)
  after_handler-Verified {t = t} {n} x (unanswered s after k) e =
      reject-Verified t (some n) (record a { enrolled = after }) e
  after_handler-Verified proves_key (verified v client reply h k b) e =
      (refl, refl, (v, h, refl, binds-Signs env pairing a v client q h b))
  after_handler-Verified {t = t} {n} x (has_cipher b keys h k) e = reject-Verified t (some n) b e

Ended-Verified :
    (env : Env) (t : FrameType) (payload : Option (List ℕ)) (a : Auth) (e : Auth × Bool)
    → env.require_paired ≡ true
    → is_encrypted a.phase ≡ false
    → is_encrypted e.0.phase ≡ true
    → Ended env t payload a e
    → Verified env t a a.phase e.0
Ended-Verified env t payload a _ q c f (ignored e) = absurd (ground arith)
Ended-Verified env t payload a _ q c f (refused_frame seqno e) =
    reject-Verified env [] a q t seqno a f
Ended-Verified env t payload a _ q c f (handled pairing n h next r e d x o) =
    after_handler-Verified env pairing a q x o f

-- A connection that requires paired clients becomes encrypted only by a PV_Next frame in the phase
-- VERIFY_M3, with the transport keys of the pair-verify session that it holds, and bound to a
-- client whose stored key has signed both ephemeral keys of that session and its identifier.
pub handle_auth_frame-Verified :
    (env : Env) (t : FrameType) (payload : Option (List ℕ)) (a : Auth)
    → env.require_paired ≡ true
    → is_encrypted a.phase ≡ false
    → is_encrypted (handle_auth_frame env t payload a).0.phase ≡ true
    → Verified env t a a.phase (handle_auth_frame env t payload a).0
handle_auth_frame-Verified env t payload a q c f =
    Ended-Verified env t payload a (handle_auth_frame env t payload a) q c f
      (handle_auth_frame-Ended env t payload a)
