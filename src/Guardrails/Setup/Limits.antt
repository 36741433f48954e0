-- ===== src/Guardrails/Setup/Limits.antt =====
-- The limits of a `PairSetupAttemptLimiter`: `admit` keeps them, and a new limiter has those given.
use atvr4samsung.Common.{
  ℕ, ◌<◌, ◌≡◌, refl, false, List, [], ◌∷◌, Option, some, arith, length, leb, Bool-cases, inl, inr,
}
use atvr4samsung.Enums.{max_tries, busy}
use atvr4samsung.Guardrails.{Limiter, source_key}
use atvr4samsung.Guardrails.Setup.{
  admit, admit_pruned, prune_attempts, new_attempt_limiter, source_full, refused,
}

pub refused-allowed :
    (l : Limiter) (now : ℕ) (ts : List ℕ) → (refused l now max_tries ts).allowed ≡ false
refused-allowed l now [] = refl
refused-allowed l now (t ∷ ts) = refl

pub refused-busy-allowed :
    (l : Limiter) (now : ℕ) (ts : List ℕ) → (refused l now busy ts).allowed ≡ false
refused-busy-allowed l now [] = refl
refused-busy-allowed l now (t ∷ ts) = refl

abbrev pub SameLimits : Limiter → Limiter → Type 0
SameLimits l m =
    (l.window ≡ m.window)
    × (l.per_source_limit ≡ m.per_source_limit)
    × (l.global_limit ≡ m.global_limit)
    × (l.max_sources ≡ m.max_sources)

admit_pruned-SameLimits :
    (l : Limiter) (now : ℕ) (key : List ℕ) (s : Option (List ℕ))
    → SameLimits (admit_pruned l now key s).0 l
unfolding admit_pruned
admit_pruned-SameLimits l now key s = elim (Bool-cases (source_full l s)) [
  | inl full ↦ rw full (refl, refl, refl, refl)
  | inr few ↦ rw few (elim (Bool-cases (leb l.global_limit (length l.global_times))) [
    | inl full ↦ rw full (refl, refl, refl, refl)
    | inr room ↦ rw room (refl, refl, refl, refl)
  ])
]

pub admit-SameLimits :
    (l : Limiter) (now : ℕ) (source : Option (List ℕ)) → SameLimits (admit l now source).0 l
unfolding admit
admit-SameLimits l now source =
    admit_pruned-SameLimits (prune_attempts l now) now (source_key source) _

abbrev pub fresh : ℕ → ℕ → ℕ → ℕ → ℕ → Limiter
fresh per_source global window max_sources ticks = record {
  per_source_limit = per_source;
  global_limit = global;
  window = window;
  max_sources = max_sources;
  ticks = ticks;
  global_times = [];
  source_times = [];
}

pub new_attempt_limiter-fresh :
    (per_source global window max_sources ticks : ℕ) {l : Limiter}
    → new_attempt_limiter per_source global window max_sources ticks ≡ some l
    → (0 < per_source) × (0 < window) × (l ≡ fresh per_source global window max_sources ticks)
unfolding new_attempt_limiter
new_attempt_limiter-fresh per_source global window max_sources ticks e =
    (ground arith, ground arith, ground arith)

pub new_attempt_limiter-positive :
    (per_source global window max_sources ticks : ℕ) {l : Limiter}
    → new_attempt_limiter per_source global window max_sources ticks ≡ some l
    → 0 < max_sources
unfolding new_attempt_limiter
new_attempt_limiter-positive per_source global window max_sources ticks e = ground arith
