-- ===== src/Auth/Transition.antt =====
-- The table of transitions as a relation.
use mathlib.Core.Option.{some-injective, none-ne-some}
use mathlib.Core.Path.{subst}
use atvr4samsung.Common.{ℕ, ◌≡◌, refl, Bool, true, false, Option, none, some, if◌then◌else◌, arith}
use atvr4samsung.Enums.{FrameType, frame_code-injective, ps_start, ps_next, pv_start, pv_next}
use atvr4samsung.Auth.{
  Phase, idle, setup_m3, setup_m5, setup_complete, verify_m3, encrypted, failed, closed,
}
use atvr4samsung.Auth.Exchange.{
  Handler, on_m1_setup, on_m3_setup, on_m5_setup, on_m1_verify, on_m3_verify, is_frame,
  next_auth_transition,
}

pub data Transition : Phase → FrameType → ℕ → Handler × Phase → Type 0 where
  starts_setup : Transition idle ps_start 1 (on_m1_setup, setup_m3)
  starts_verify : Transition idle pv_start 1 (on_m1_verify, verify_m3)
  proves_pin : Transition setup_m3 ps_next 3 (on_m3_setup, setup_m5)
  exchanges_keys : Transition setup_m5 ps_next 5 (on_m5_setup, setup_complete)
  verifies_next : Transition setup_complete pv_start 1 (on_m1_verify, verify_m3)
  proves_key : Transition verify_m3 pv_next 3 (on_m3_verify, encrypted)
  falls_back : Transition verify_m3 ps_start 1 (on_m1_setup, setup_m3)

is_frame-≡ :
    (expected : FrameType) (seqno : ℕ) (t : FrameType) (n : ℕ)
    → is_frame expected seqno t n ≡ true
    → (t ≡ expected) × (n ≡ seqno)
unfolding is_frame
is_frame-≡ expected seqno t n e = (frame_code-injective t expected (ground arith), ground arith)

at_frame :
    {p : Phase} {expected : FrameType} {seqno : ℕ} {t : FrameType} {n : ℕ} {y : Handler × Phase}
    → Transition p expected seqno y
    → is_frame expected seqno t n ≡ true
    → Transition p t n y
at_frame {p} {expected} {seqno} {t} {n} made e =
    rw ((is_frame-≡ expected seqno t n e).0, (is_frame-≡ expected seqno t n e).1) made

-- One row of the table, in front of others.
row :
    {p : Phase} {expected : FrameType} {seqno : ℕ} {t : FrameType} {n : ℕ} (x y : Handler × Phase)
    (rest : Option (Handler × Phase))
    → Transition p expected seqno x
    → (rest ≡ some y → Transition p t n y)
    → (b : Bool) → is_frame expected seqno t n ≡ b
    → (if b then some x else rest) ≡ some y
    → Transition p t n y
row {p} {expected} {seqno} {t} {n} x y rest made others true e f =
    subst (Transition p t n) (some-injective x y f) (at_frame made e)
row x y rest made others false e f = others f

nothing :
    {p : Phase} {t : FrameType} {n : ℕ} {y : Handler × Phase} → none ≡ some y → Transition p t n y
nothing {y = y} e = absurd (none-ne-some y e)

pub next_auth_transition-Transition :
    (p : Phase) (t : FrameType) (n : ℕ) (y : Handler × Phase)
    → next_auth_transition p t n ≡ some y
    → Transition p t n y
unfolding next_auth_transition
next_auth_transition-Transition idle t n y e =
    row _ y _ starts_setup (row _ y _ starts_verify nothing _ refl) _ refl e
next_auth_transition-Transition setup_m3 t n y e = row _ y _ proves_pin nothing _ refl e
next_auth_transition-Transition setup_m5 t n y e = row _ y _ exchanges_keys nothing _ refl e
next_auth_transition-Transition setup_complete t n y e = row _ y _ verifies_next nothing _ refl e
next_auth_transition-Transition verify_m3 t n y e =
    row _ y _ proves_key (row _ y _ falls_back nothing _ refl) _ refl e
next_auth_transition-Transition encrypted t n y e = nothing e
next_auth_transition-Transition failed t n y e = nothing e
next_auth_transition-Transition closed t n y e = nothing e

-- A phase with a transition.
abbrev pub is_open : Phase → Bool
is_open encrypted = false
is_open failed = false
is_open closed = false
is_open _ = true

pub Transition-is_open :
    {p : Phase} {t : FrameType} {n : ℕ} {y : Handler × Phase}
    → Transition p t n y
    → is_open p ≡ true
Transition-is_open starts_setup = refl
Transition-is_open starts_verify = refl
Transition-is_open proves_pin = refl
Transition-is_open exchanges_keys = refl
Transition-is_open verifies_next = refl
Transition-is_open proves_key = refl
Transition-is_open falls_back = refl
