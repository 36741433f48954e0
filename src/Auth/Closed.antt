-- ===== src/Auth/Closed.antt =====
-- A frame that is answered false ends the exchange; and every frame has one reply.
use mathlib.Core.Option.{none-ne-some}
use atvr4samsung.Common.{
  ℕ, ◌≡◌, refl, sym, ap, ◌∙◌, Bool, true, false, List, [], ◌∷◌, ◌++◌, Option, none, some, arith,
}
use atvr4samsung.Enums.{FrameType, ps_next, pv_next, authentication}
use atvr4samsung.Tlv8.{Dict}
use atvr4samsung.Auth.{
  Env, Auth, Phase, error_tlv, failed, clear_pending_auth_state, Answer, done, raised,
}
use atvr4samsung.Auth.Transition.{Transition-is_open, is_open}
use atvr4samsung.Auth.Exchange.{
  Handler, response_seqno, handle_auth_frame, after_handler, reject_frame, is_encrypted,
  is_setup_frame,
}
use atvr4samsung.Auth.Outcome.{
  Outcome, refused, escaped, verify_begun, setup_begun, proof_checked, enrolls, unanswered,
  verified, has_cipher,
}
use atvr4samsung.Auth.Ended.{Ended, ignored, refused_frame, handled, handle_auth_frame-Ended}
use atvr4samsung.Auth.Coherence.{Cleared, Coherent, Holds-cipher}

-- The exchange is over and holds nothing.
abbrev pub IsFailed : Auth → Type 0
IsFailed a = (a.phase ≡ failed) × Cleared a

reject-IsFailed :
    (t : Bool) (seqno : Option ℕ) (a : Auth)
    → IsFailed (reject_frame t seqno (record (clear_pending_auth_state a) { phase = failed }))
reject-IsFailed true seqno a = (refl, (refl, refl, refl, refl))
reject-IsFailed false seqno a = (refl, (refl, refl, refl, refl))

after_handler-IsFailed :
    (t : FrameType) (n : ℕ) (next : Phase) (r : Auth × Answer)
    → (after_handler t n next r).1 ≡ false
    → IsFailed (after_handler t n next r).0
after_handler-IsFailed t n next (a, raised) e = reject-IsFailed (is_setup_frame t) (some n) a
after_handler-IsFailed t n next (a, done false) e = (refl, (refl, refl, refl, refl))
after_handler-IsFailed t n next (a, done true) e = absurd (ground arith)

Ended-IsFailed :
    (env : Env) (t : FrameType) (payload : Option (List ℕ)) (a : Auth) (e : Auth × Bool)
    → is_encrypted a.phase ≡ false
    → e.1 ≡ false
    → Ended env t payload a e
    → IsFailed e.0
Ended-IsFailed env t payload a _ c f (ignored e) = absurd (ground arith)
Ended-IsFailed env t payload a _ c f (refused_frame seqno e) =
    reject-IsFailed (is_setup_frame t) seqno a
Ended-IsFailed env t payload a _ c f (handled pairing n h next r e d x o) =
    after_handler-IsFailed t n next r f

-- Before encryption, a frame that is answered false leaves the phase FAILED and nothing of the
-- handshake: no SRP session, no proven PIN, no ephemeral keys and no client.
pub handle_auth_frame-IsFailed :
    (env : Env) (t : FrameType) (payload : Option (List ℕ)) (a : Auth)
    → is_encrypted a.phase ≡ false
    → (handle_auth_frame env t payload a).1 ≡ false
    → IsFailed (handle_auth_frame env t payload a).0
handle_auth_frame-IsFailed env t payload a c f =
    Ended-IsFailed env t payload a (handle_auth_frame env t payload a) c f
      (handle_auth_frame-Ended env t payload a)

-- The connection after one frame after another; what they are answered is not looked at.
unfoldable pub handle_frames : List (Env × FrameType × Option (List ℕ)) → Auth → Auth
unfolding handle_auth_frame
handle_frames [] a = a
handle_frames ((env, t, payload) ∷ frames) a =
    handle_frames frames (handle_auth_frame env t payload a).0

-- The exchange has ended: no key is installed and no client stored any more.
abbrev pub Shut : Auth → Auth → Type 0
Shut a b = (b.phase ≡ failed) × (b.cipher ≡ a.cipher) × (b.enrolled ≡ a.enrolled)

reject-Shut :
    (t : Bool) (seqno : Option ℕ) (a : Auth)
    → Shut a (reject_frame t seqno (record (clear_pending_auth_state a) { phase = failed }))
reject-Shut true seqno a = (refl, refl, refl)
reject-Shut false seqno a = (refl, refl, refl)

Ended-Shut :
    (env : Env) (t : FrameType) (payload : Option (List ℕ)) (a : Auth) (e : Auth × Bool)
    → a.phase ≡ failed
    → Ended env t payload a e
    → Shut a e.0
Ended-Shut env t payload a _ f (ignored e) = (f, refl, refl)
Ended-Shut env t payload a _ f (refused_frame seqno e) = reject-Shut (is_setup_frame t) seqno a
Ended-Shut env t payload a _ f (handled pairing n h next r e d x o) =
    let clash : true ≡ false = sym (Transition-is_open x) ∙ ap is_open f in absurd (ground arith)

handle_frames-Shut :
    (frames : List (Env × FrameType × Option (List ℕ))) (a b : Auth)
    → Shut a b
    → Shut a (handle_frames frames b)
unfolding handle_frames
handle_frames-Shut [] a b s = s
handle_frames-Shut ((env, t, payload) ∷ frames) a b (f, c, n) =
    let next =
      Ended-Shut env t payload b (handle_auth_frame env t payload b) f
        (handle_auth_frame-Ended env t payload b) in
    handle_frames-Shut frames a (handle_auth_frame env t payload b).0
      (next.0, next.1 ∙ c, next.2 ∙ n)

-- Once a frame was answered false before encryption, no run of further frames leaves the phase
-- FAILED, installs a cipher or stores a client.
pub handle_frames-failed :
    (env : Env) (t : FrameType) (payload : Option (List ℕ)) (a : Auth)
    (frames : List (Env × FrameType × Option (List ℕ)))
    → is_encrypted a.phase ≡ false
    → (handle_auth_frame env t payload a).1 ≡ false
    → Shut
        (handle_auth_frame env t payload a).0
        (handle_frames frames (handle_auth_frame env t payload a).0)
handle_frames-failed env t payload a frames c f =
    handle_frames-Shut frames (handle_auth_frame env t payload a).0
      (handle_auth_frame env t payload a).0
      ((handle_auth_frame-IsFailed env t payload a c f).0, refl, refl)

reject-sent :
    (t : Bool) (seqno : Option ℕ) (a b : Auth)
    → b.sent ≡ a.sent
    → (reply : FrameType × Dict) × ((reject_frame t seqno
          (record (clear_pending_auth_state b) { phase = failed })).sent
        ≡ a.sent ++ (reply ∷ []))
reject-sent true seqno a b e =
    let reply : FrameType × Dict = (ps_next, error_tlv (response_seqno seqno) authentication) in
    (reply, ap (λ l. l ++ (reply ∷ [])) e)
reject-sent false seqno a b e =
    let reply : FrameType × Dict = (pv_next, error_tlv 4 authentication) in
    (reply, ap (λ l. l ++ (reply ∷ [])) e)

after_handler-sent :
    (env : Env) (pairing : Dict) (a : Auth) (t : FrameType) (n : ℕ) (h : Handler) (next : Phase)
    (r : Auth × Answer)
    → a.cipher ≡ none
    → Outcome env pairing a h r
    → (reply : FrameType × Dict) × ((after_handler t n next r).0.sent ≡ a.sent ++ (reply ∷ []))
after_handler-sent env pairing a t n h next _ c (refused b reply s k) =
    (reply, ap (λ l. l ++ (reply ∷ [])) s)
after_handler-sent env pairing a t n h next _ c (escaped b s k) =
    reject-sent (is_setup_frame t) (some n) a b s
after_handler-sent env pairing a t n h next _ c (verify_begun v reply) = (reply, refl)
after_handler-sent env pairing a t n h next _ c (setup_begun s reply failures p q w) = (reply, refl)
after_handler-sent env pairing a t n h next _ c (proof_checked s proof reply e w k) = (reply, refl)
after_handler-sent env pairing a t n h next _ c (enrolls s reply after k) = (reply, refl)
after_handler-sent env pairing a t n h next _ c (unanswered s after k) =
    reject-sent (is_setup_frame t) (some n) a (record a { enrolled = after }) refl
after_handler-sent env pairing a t n h next _ c (verified v client reply e k b) = (reply, refl)
after_handler-sent env pairing a t n h next _ c (has_cipher b keys e k) =
    absurd (none-ne-some keys (sym c ∙ e))

Ended-sent :
    (env : Env) (t : FrameType) (payload : Option (List ℕ)) (a : Auth) (e : Auth × Bool)
    → a.cipher ≡ none
    → is_encrypted a.phase ≡ false
    → Ended env t payload a e
    → (reply : FrameType × Dict) × (e.0.sent ≡ a.sent ++ (reply ∷ []))
Ended-sent env t payload a _ c f (ignored e) = absurd (ground arith)
Ended-sent env t payload a _ c f (refused_frame seqno e) =
    reject-sent (is_setup_frame t) seqno a a refl
Ended-sent env t payload a _ c f (handled pairing n h next r e d x o) =
    after_handler-sent env pairing a t n h next r c o

-- Every frame on a coherent connection that is not encrypted has exactly one reply, whether it is
-- taken, refused, malformed, out of order or raises in its handler.
pub handle_auth_frame-sent :
    (env : Env) (t : FrameType) (payload : Option (List ℕ)) (a : Auth)
    → Coherent a
    → is_encrypted a.phase ≡ false
    → (reply : FrameType × Dict) × ((handle_auth_frame env t payload a).0.sent
        ≡ a.sent ++ (reply ∷ []))
handle_auth_frame-sent env t payload a held f =
    Ended-sent env t payload a (handle_auth_frame env t payload a) (Holds-cipher a.phase a f held) f
      (handle_auth_frame-Ended env t payload a)
