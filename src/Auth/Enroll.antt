-- ===== src/Auth/Enroll.antt =====
-- What a controller has shown before its key is stored.
use mathlib.Core.Option.{none-ne-some}
use atvr4samsung.Common.{
  ℕ, ◌==◌, ◌≡◌, refl, sym, ap, ◌∙◌, Bool, true, false, List, [], ◌∷◌, ◌++◌, Option, none, some,
  length, ◌⊎◌, inl, inr, if◌then◌else◌, arith,
}
use atvr4samsung.Enums
use atvr4samsung.Enums.{FrameType, ps_next}
use atvr4samsung.Tlv8.{Dict}
use atvr4samsung.Auth.{
  Env, Auth, SetupSession, Phase, setup_m5, failed, clear_pending_auth_state, Answer, committed,
  get_value, setup_window_is_current,
}
use atvr4samsung.Auth.Setup.{proven_controller}
use atvr4samsung.Auth.Exchange.{
  Handler, handle_auth_frame, after_handler, reject_auth_transition, reject_frame, is_setup_frame,
}
use atvr4samsung.Auth.Outcome.{
  Outcome, Stores, refused, escaped, verify_begun, setup_begun, proof_checked, enrolls, unanswered,
  verified, has_cipher,
}
use atvr4samsung.Auth.Transition.{Transition, exchanges_keys}
use atvr4samsung.Auth.Ended.{Ended, ignored, refused_frame, handled, handle_auth_frame-Ended}
use atvr4samsung.Auth.Proof.{bind_some, guard_some}

-- A key of 32 bytes that has signed its identifier under the secret of this SRP session, and that
-- the store took for the window of the session.
abbrev pub Committed : Env → SetupSession → List ℕ × List ℕ → Type 0
Committed env s (name, key) =
    (identifier : List ℕ) × (signature : List ℕ) × (env.decode_utf8 identifier ≡ some name)
    × (length key ≡ 32)
    × (env.verify_controller (env.srp_key s.session) identifier key signature ≡ true)
    × (env.commit s.window.generation name key ≡ committed)

sized_some :
    (t : Bool) (o : Option (List ℕ)) (name : List ℕ)
    → (if t then o else none) ≡ some name
    → (t ≡ true) × (o ≡ some name)
sized_some true o name e = (refl, e)
sized_some false o name e = absurd (none-ne-some name e)

proven_controller-Committed :
    (env : Env) (s : SetupSession) (tlv : Dict) (name key : List ℕ)
    → proven_controller env s tlv ≡ some (name, key)
    → env.commit s.window.generation name key ≡ committed
    → Committed env s (name, key)
unfolding proven_controller
proven_controller-Committed env s tlv name key e stored =
    let a = bind_some (get_value Enums.Tag.identifier tlv) e in
    let b = bind_some (get_value Enums.Tag.public_key tlv) a.2 in
    let c = bind_some (get_value Enums.Tag.signature tlv) b.2 in
    let d = bind_some (if length b.0 == 32 then env.decode_utf8 a.0 else none) c.2 in
    let f = sized_some (length b.0 == 32) (env.decode_utf8 a.0) d.0 d.1 in
    let g = guard_some (env.verify_controller (env.srp_key s.session) a.0 b.0 c.0) d.2 in
    let n = ap (λ p. p.0) g.1 in
    let k = ap (λ p. p.1) g.1 in
    (
      a.0,
      c.0,
      f.1 ∙ ap some n,
      sym (ap length k) ∙ ground arith,
      sym (ap (λ l. env.verify_controller (env.srp_key s.session) a.0 l c.0) k) ∙ g.0,
      stored,
    )

-- The clients of `b` are those of `a`, or one more that this M5 of `a` has proven.
abbrev pub Grows : Env → FrameType → Auth → Phase → Auth → Type 0
Grows env t a p b =
    (b.enrolled ≡ a.enrolled)
    ⊎ (t ≡ ps_next)
      × (p ≡ setup_m5)
      × ((s : SetupSession) × (client : List ℕ × List ℕ) × (a.setup ≡ some s)
          × (a.proof_verified ≡ true)
          × (setup_window_is_current env s ≡ true)
          × Committed env s client
          × (b.enrolled ≡ a.enrolled ++ (client ∷ [])))

module _ (env : Env) (pairing : Dict) (a : Auth) where
  Stores-Grows :
      (s : SetupSession) (tlv : Dict) (after : List (List ℕ × List ℕ)) (b : Auth)
      → b.enrolled ≡ after
      → a.setup ≡ some s
      → a.proof_verified ≡ true
      → setup_window_is_current env s ≡ true
      → Stores env s tlv a.enrolled after
      → Grows env ps_next a setup_m5 b
  Stores-Grows s tlv after b e h v w (inl (t, n)) = inl (e ∙ n)
  Stores-Grows s tlv after b e h v w (inr (name, key, t, m, c, n)) = inr (
    refl,
    refl,
    (s, (name, key), h, v, w, proven_controller-Committed env s tlv name key m c, e ∙ n),
  )

  reject-enrolled :
      (t : FrameType) (seqno : Option ℕ) (b : Auth)
      → (reject_auth_transition t seqno b).0.enrolled ≡ b.enrolled
  reject-enrolled t seqno b = replies (is_setup_frame t)
    where
      replies :
          (k : Bool)
          → (reject_frame k seqno (record (clear_pending_auth_state b) { phase = failed })).enrolled
            ≡ b.enrolled
      replies true = refl
      replies false = refl

  after_handler-Grows :
      {p : Phase} {t : FrameType} {n : ℕ} {h : Handler} {next : Phase} {r : Auth × Answer}
      → Transition p t n (h, next)
      → Outcome env pairing a h r
      → Grows env t a p (after_handler t n next r).0
  after_handler-Grows x (refused b reply s k) = inl k.1
  after_handler-Grows {t = t} {n} x (escaped b s k) = inl (reject-enrolled t (some n) b ∙ k.1)
  after_handler-Grows x (verify_begun v reply) = inl refl
  after_handler-Grows x (setup_begun s reply failures k m w) = inl refl
  after_handler-Grows x (proof_checked s proof reply h w k) = inl refl
  after_handler-Grows exchanges_keys (enrolls s reply after (tlv, h, v, w, p, k)) =
      Stores-Grows s tlv after (record a { enrolled = after }) refl h v w k
  after_handler-Grows {t = t} {n} exchanges_keys (unanswered s after (tlv, h, v, w, p, k)) =
      Stores-Grows s tlv after
        (reject_auth_transition ps_next (some 5) (record a { enrolled = after })).0
        (reject-enrolled ps_next (some 5) (record a { enrolled = after })) h v w k
  after_handler-Grows x (verified v client reply h k b) = inl refl
  after_handler-Grows {t = t} {n} x (has_cipher b keys h k) =
      inl (reject-enrolled t (some n) b ∙ k.1)

Ended-Grows :
    (env : Env) (t : FrameType) (payload : Option (List ℕ)) (a : Auth) (e : Auth × Bool)
    → Ended env t payload a e
    → Grows env t a a.phase e.0
Ended-Grows env t payload a _ (ignored e) = inl refl
Ended-Grows env t payload a _ (refused_frame seqno e) = inl (reject-enrolled env [] a t seqno a)
Ended-Grows env t payload a _ (handled pairing n h next r e d x o) =
    after_handler-Grows env pairing a x o

-- A frame stores no client, or it is a PS_Next frame in the phase SETUP_M5 and stores one more: the
-- proof of the PIN was checked for the session, its window is still the current one, the key has 32
-- bytes and has signed its identifier under the session's secret, and the store has committed it
-- for the window's generation.
pub handle_auth_frame-Grows :
    (env : Env) (t : FrameType) (payload : Option (List ℕ)) (a : Auth)
    → Grows env t a a.phase (handle_auth_frame env t payload a).0
handle_auth_frame-Grows env t payload a =
    Ended-Grows env t payload a (handle_auth_frame env t payload a)
      (handle_auth_frame-Ended env t payload a)
