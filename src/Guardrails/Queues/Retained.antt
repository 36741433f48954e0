-- ===== src/Guardrails/Queues/Retained.antt =====
-- How much a limiter keeps, whatever its limits are: `push_source` evicts the oldest source when there
-- is no room for a new one.
use atvr4samsung.Common.{
  ℕ, ◌≤◌, ◌<◌, ◌≡◌, List, [], ◌∷◌, ◌++◌, some, arith, length, length-append, leb, Bool-cases,
  Option-cases, inl, inr,
}
use atvr4samsung.Common.Bytes.{bytes_eq}
use atvr4samsung.Guardrails.{
  Limiter, Sources, get_source, remove_source, pop_expired, kept, pop_sources, pop_oldest,
  push_source, tracked_sources,
}
use atvr4samsung.Guardrails.Queues.History.{pruned, pushed}

-- Each source has at most `limit` times.
abbrev pub Short : ℕ → Sources → Type 0
Short limit [] = Unit
Short limit ((key, times) ∷ sources) = (length times ≤ limit) × Short limit sources

-- What the limiter keeps is within its limits.
pub record IsRetained (l : Limiter) : Type 0 where
  pub tracked : tracked_sources l ≤ l.max_sources
  pub within : length l.global_times ≤ l.global_limit
  pub short : Short l.per_source_limit l.source_times

length-pop_expired : (window now : ℕ) (ts : List ℕ) → length (pop_expired window now ts) ≤ length ts
unfolding pop_expired
length-pop_expired window now [] = omega arith
length-pop_expired window now (t ∷ ts) = ground (arith, length-pop_expired window now ts)

length-pop_sources : (window now : ℕ) (s : Sources) → length (pop_sources window now s) ≤ length s
unfolding pop_sources
length-pop_sources window now [] = omega arith
length-pop_sources window now ((k, ts) ∷ s) =
    go (pop_expired window now ts) (length-pop_sources window now s)
  where
    go :
        (us : List ℕ)
        → length (pop_sources window now s) ≤ length s
        → length (kept k us (pop_sources window now s)) ≤ length ((k, ts) ∷ s)
    go [] h = omega arith
    go (u ∷ us) h = omega arith

Short-pop :
    (window now limit : ℕ) (s : Sources) → Short limit s → Short limit (pop_sources window now s)
unfolding pop_sources
Short-pop window now limit [] h = tt
Short-pop window now limit ((k, ts) ∷ s) (l, h) =
    go (pop_expired window now ts) (length-pop_expired window now ts)
      (Short-pop window now limit s h)
  where
    go :
        (us : List ℕ)
        → length us ≤ length ts
        → Short limit (pop_sources window now s)
        → Short limit (kept k us (pop_sources window now s))
    go [] e r = r
    go (u ∷ us) e r = (omega arith, r)

length-remove_le : (key : List ℕ) (s : Sources) → length (remove_source key s) ≤ length s
unfolding remove_source
length-remove_le key [] = omega arith
length-remove_le key ((k, ts) ∷ s) = ground (arith, length-remove_le key s)

length-remove :
    (key ts : List ℕ) (s : Sources)
    → get_source key s ≡ some ts
    → length (remove_source key s) < length s
unfolding get_source remove_source
length-remove key ts [] e = cc
length-remove key ts ((k, us) ∷ s) e =
    ground (arith, length-remove_le key s, length-remove key ts s)

Short-remove :
    (key : List ℕ) (limit : ℕ) (s : Sources) → Short limit s → Short limit (remove_source key s)
unfolding remove_source
Short-remove key limit [] h = tt
Short-remove key limit ((k, ts) ∷ s) (l, h) = elim (Bool-cases (bytes_eq k key)) [
  | inl e ↦ rw e (Short-remove key limit s h)
  | inr e ↦ rw e (l, Short-remove key limit s h)
]

Short-append : (limit : ℕ) (s t : Sources) → Short limit s → Short limit t → Short limit (s ++ t)
Short-append limit [] t h k = k
Short-append limit ((key, ts) ∷ s) t (l, h) k = (l, Short-append limit s t h k)

Short-oldest : (limit : ℕ) (s : Sources) → Short limit s → Short limit (pop_oldest s)
Short-oldest limit [] h = tt
Short-oldest limit (source ∷ s) (l, h) = h

length-oldest :
    (s : Sources) (limit : ℕ) → 0 < limit → length s ≤ limit → length (pop_oldest s) < limit
length-oldest [] limit p h = omega arith
length-oldest (source ∷ s) limit p h = omega arith

length-push :
    (max_sources now : ℕ) (key : List ℕ) (s : Sources)
    → 0 < max_sources
    → length s ≤ max_sources
    → length (push_source max_sources key now s (get_source key s)) ≤ max_sources
unfolding push_source
length-push max_sources now key s p h = elim (Option-cases (get_source key s)) [
  | inl e ↦ rw e (elim (Bool-cases (leb max_sources (length s))) [
    | inl full ↦ rw full (
        omega (
          arith,
          length-append (pop_oldest s) ((key, now ∷ []) ∷ []),
          length-oldest s max_sources p h,
        ))
    | inr few ↦ rw few (ground (arith, length-append s ((key, now ∷ []) ∷ [])))
  ])
  | inr (ts, e) ↦ rw e (
      omega (
        arith,
        length-append (remove_source key s) ((key, ts ++ (now ∷ [])) ∷ []),
        length-remove key ts s e,
      ))
]

-- The source has room for one more time.
abbrev pub Fits : ℕ → List ℕ → Sources → Type 0
Fits limit key s = (ts : List ℕ) → get_source key s ≡ some ts → length ts < limit

Short-push :
    (max_sources now limit : ℕ) (key : List ℕ) (s : Sources)
    → 0 < limit
    → Fits limit key s
    → Short limit s
    → Short limit (push_source max_sources key now s (get_source key s))
unfolding push_source
Short-push max_sources now limit key s p fits h = elim (Option-cases (get_source key s)) [
  | inl e ↦ rw e (elim (Bool-cases (leb max_sources (length s))) [
    | inl full ↦ rw full (
        Short-append limit (pop_oldest s) ((key, now ∷ []) ∷ []) (Short-oldest limit s h)
          (omega arith, tt))
    | inr few ↦ rw few (Short-append limit s ((key, now ∷ []) ∷ []) h (omega arith, tt))
  ])
  | inr (ts, e) ↦ rw e (
      Short-append limit (remove_source key s) ((key, ts ++ (now ∷ [])) ∷ [])
        (Short-remove key limit s h) (omega (arith, length-append ts (now ∷ []), fits ts e), tt))
]

pub IsRetained-pruned : (l : Limiter) (now : ℕ) → IsRetained l → IsRetained (pruned l now)
unfolding tracked_sources
IsRetained-pruned l now h = record {
  tracked = omega (arith, h.tracked, length-pop_sources l.window now l.source_times);
  within = omega (arith, h.within, length-pop_expired l.window now l.global_times);
  short = Short-pop l.window now l.per_source_limit l.source_times h.short;
}

pub IsRetained-pushed :
    (l : Limiter) (now : ℕ) (key : List ℕ)
    → 0 < l.max_sources
    → 0 < l.per_source_limit
    → length l.global_times < l.global_limit
    → Fits l.per_source_limit key l.source_times
    → IsRetained l
    → IsRetained (pushed l now key)
unfolding tracked_sources
IsRetained-pushed l now key m p few fits h = record {
  tracked = length-push l.max_sources now key l.source_times m h.tracked;
  within = omega (arith, length-append l.global_times (now ∷ []));
  short = Short-push l.max_sources now l.per_source_limit key l.source_times p fits h.short;
}
