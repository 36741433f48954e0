-- ===== src/Auth/Ended.antt =====
-- The ways in which `handle_auth_frame` can end, as one data type.
use atvr4samsung.Common.{ℕ, ◌≡◌, refl, Bool, true, false, List, Option, none, some, if◌then◌else◌}
use atvr4samsung.Enums.{FrameType}
use atvr4samsung.Tlv8.{Dict}
use atvr4samsung.Auth.{Env, Auth, Phase, Answer}
use atvr4samsung.Auth.Exchange.{
  Handler, handle_auth_frame, follow_decoded, follow, after_handler, reject_auth_transition,
  is_encrypted, decode_auth_frame, next_auth_transition, run_handler,
}
use atvr4samsung.Auth.Outcome.{Outcome}
use atvr4samsung.Auth.Handlers.{handler-Outcome}
use atvr4samsung.Auth.Transition.{Transition, next_auth_transition-Transition}

pub data Ended (env : Env) (t : FrameType) (payload : Option (List ℕ)) (a : Auth)
    : Auth × Bool → Type 0 where
  ignored : is_encrypted a.phase ≡ true → Ended env t payload a (a, false)
  refused_frame :
      (seqno : Option ℕ)
      → is_encrypted a.phase ≡ false
      → Ended env t payload a (reject_auth_transition t seqno a)
  handled :
      (pairing : Dict) (n : ℕ) (h : Handler) (next : Phase) (r : Auth × Answer)
      → is_encrypted a.phase ≡ false
      → decode_auth_frame payload ≡ some (pairing, n)
      → Transition a.phase t n (h, next)
      → Outcome env pairing a h r
      → Ended env t payload a (after_handler t n next r)

pub handle_auth_frame-Ended :
    (env : Env) (t : FrameType) (payload : Option (List ℕ)) (a : Auth)
    → Ended env t payload a (handle_auth_frame env t payload a)
unfolding handle_auth_frame
handle_auth_frame-Ended env t payload a =
    guarded (is_encrypted a.phase) (decode_auth_frame payload) refl refl
  where
    followed :
        (pairing : Dict) (n : ℕ) (o : Option (Handler × Phase))
        → is_encrypted a.phase ≡ false
        → decode_auth_frame payload ≡ some (pairing, n)
        → next_auth_transition a.phase t n ≡ o
        → Ended env t payload a (follow env t (pairing, n) a o)
    followed pairing n none c d e = refused_frame (some n) c
    followed pairing n (some (h, next)) c d e =
        handled pairing n h next (run_handler h env pairing a) c d
          (next_auth_transition-Transition a.phase t n (h, next) e)
          (handler-Outcome h env pairing a)

    guarded :
        (b : Bool) (o : Option (Dict × ℕ))
        → is_encrypted a.phase ≡ b
        → decode_auth_frame payload ≡ o
        → Ended env t payload a (if b then (a, false) else follow_decoded env t a o)
    guarded true o e d = ignored e
    guarded false none e d = refused_frame none e
    guarded false (some (pairing, n)) e d =
        followed pairing n (next_auth_transition a.phase t n) e d refl
