-- ===== src/Guardrails/Queues.antt =====
-- The queues of the limiters: what is expired, what a source has, and how many times there are.
pub mod PerSource
pub mod Push
pub mod History
pub mod Retained
use mathlib.Core.Path.{subst}
use atvr4samsung.Common.{
  ℕ, zero, suc, ◌+◌, ◌-◌, ◌≤◌, ◌<◌, ◌≡◌, ◌≢◌, refl, sym, ap, ◌∙◌, Bool, true, false, List, [], ◌∷◌,
  ◌++◌, Option, none, some, arith, length, length-append, leb, if◌then◌else◌, Bool-cases,
  Option-cases, inl, inr, All,
}
use atvr4samsung.Common.Bytes.{bytes_eq, bytes_eq_iff, bytes_eq_refl}
use atvr4samsung.Guardrails.{
  Sources, get_source, remove_source, pop_expired, kept, pop_sources, pop_oldest, push_source,
}

-- The times that are still inside the window at `now`, by themselves: a time `t` is inside as long as
-- `now - window < t`.
abbrev pub live : ℕ → ℕ → List ℕ → List ℕ
live window now [] = []
live window now (t ∷ ts) =
    let rest = live window now ts in if leb (t + window) now then rest else t ∷ rest

-- Oldest first, and none later than `last`.
abbrev pub Ordered : List ℕ → ℕ → Type 0
Ordered [] last = Unit
Ordered (t ∷ ts) last = (t ≤ last) × All (λ u. t ≤ u) ts × Ordered ts last

live_fresh :
    (window now t : ℕ) (ts : List ℕ)
    → now < t + window
    → All (λ u. t ≤ u) ts
    → live window now ts ≡ ts
live_fresh window now t [] h a = refl
live_fresh window now t (u ∷ us) h (le, a) = ground (arith, live_fresh window now t us)

-- On a queue in order, taking the expired times off its front leaves the live ones.
pub pop_expired-live :
    (window now last : ℕ) (ts : List ℕ)
    → Ordered ts last
    → pop_expired window now ts ≡ live window now ts
unfolding pop_expired
pop_expired-live window now last [] o = refl
pop_expired-live window now last (t ∷ ts) (_, a, o) =
    ground (arith, pop_expired-live window now last ts o, live_fresh window now t ts)

pub live-live :
    (window early now : ℕ) (ts : List ℕ)
    → early ≤ now
    → live window now (live window early ts) ≡ live window now ts
live-live window early now [] h = refl
live-live window early now (t ∷ ts) h = ground (arith, live-live window early now ts)

pub live-append :
    (window now : ℕ) (ts us : List ℕ)
    → live window now (ts ++ us) ≡ live window now ts ++ live window now us
live-append window now [] us = refl
live-append window now (t ∷ ts) us = ground (arith, live-append window now ts us)

All-live :
    (window now t : ℕ) (ts : List ℕ) → All (λ u. t ≤ u) ts → All (λ u. t ≤ u) (live window now ts)
All-live window now t [] a = tt
All-live window now t (u ∷ us) (h, a) = elim (Bool-cases (leb (u + window) now)) [
  | inl e ↦ rw e (All-live window now t us a)
  | inr e ↦ rw e (h, All-live window now t us a)
]

pub Ordered-live :
    (window now last : ℕ) (ts : List ℕ) → Ordered ts last → Ordered (live window now ts) last
Ordered-live window now last [] o = tt
Ordered-live window now last (t ∷ ts) (h, a, o) = elim (Bool-cases (leb (t + window) now)) [
  | inl e ↦ rw e (Ordered-live window now last ts o)
  | inr e ↦ rw e (h, All-live window now t ts a, Ordered-live window now last ts o)
]

All-snoc :
    (t now : ℕ) (ts : List ℕ) → t ≤ now → All (λ u. t ≤ u) ts → All (λ u. t ≤ u) (ts ++ (now ∷ []))
All-snoc t now [] h a = (h, tt)
All-snoc t now (u ∷ us) h (k, a) = (k, All-snoc t now us h a)

pub Ordered-snoc :
    (last now : ℕ) (ts : List ℕ) → last ≤ now → Ordered ts last → Ordered (ts ++ (now ∷ [])) now
Ordered-snoc last now [] h o = omega arith
Ordered-snoc last now (t ∷ ts) h (k, a, o) =
    (omega arith, All-snoc t now ts (omega arith) a, Ordered-snoc last now ts h o)

pub Ordered-later : (last now : ℕ) (ts : List ℕ) → last ≤ now → Ordered ts last → Ordered ts now
Ordered-later last now [] h o = tt
Ordered-later last now (t ∷ ts) h (k, a, o) = (omega arith, a, Ordered-later last now ts h o)

pub length-live : (window now : ℕ) (ts : List ℕ) → length (live window now ts) ≤ length ts
length-live window now [] = omega arith
length-live window now (t ∷ ts) = ground (arith, length-live window now ts)
