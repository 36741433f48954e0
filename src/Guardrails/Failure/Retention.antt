-- ===== src/Guardrails/Failure/Retention.antt =====
-- What a `PairFailureLimiter` keeps, over any calls.
use mathlib.Core.Path.{subst}
use atvr4samsung.Common.{
  ℕ, ◌≤◌, ◌<◌, ◌≡◌, refl, sym, ap, ◌∙◌, List, [], ◌∷◌, Option, arith, length, leb, false,
  Bool-cases, inl, inr,
}
use atvr4samsung.Guardrails.{Limiter, source_key, get_source, tracked_sources}
use atvr4samsung.Guardrails.Queues.History.{pruned}
use atvr4samsung.Guardrails.Queues.Retained.{
  IsRetained, Short, Fits, IsRetained-pruned, IsRetained-pushed,
}
use atvr4samsung.Guardrails.Failure.{check, record_failure, record_pruned, failures_full}

-- A call of the limiter, at a time and for a source.
pub data Call : Type 0 where
  checks : ℕ → Option (List ℕ) → Call
  records : ℕ → Option (List ℕ) → Call

abbrev pub run_calls : List Call → Limiter → Limiter
run_calls [] l = l
run_calls (checks now source ∷ calls) l = run_calls calls (check l now source).0
run_calls (records now source ∷ calls) l = run_calls calls (record_failure l now source)

-- The limits of the limiter are positive, and it keeps no more than they allow.
record Holds (l : Limiter) : Type 0 where
  retained : IsRetained l
  source_positive : 0 < l.per_source_limit
  some_source : 0 < l.max_sources

abbrev SameLimits : Limiter → Limiter → Type 0
SameLimits l m =
    (l.per_source_limit ≡ m.per_source_limit)
    × (l.global_limit ≡ m.global_limit)
    × (l.max_sources ≡ m.max_sources)

not_full :
    (l : Limiter) (key : List ℕ)
    → failures_full l (get_source key l.source_times) ≡ false
    → Fits l.per_source_limit key l.source_times
not_full l key f ts e =
    subst (λ o. failures_full l o ≡ false → length ts < l.per_source_limit) (sym e)
      (λ few. ground arith) f

record_pruned-Holds :
    (l : Limiter) (now : ℕ) (key : List ℕ)
    → Holds l
    → let m = record_pruned l now key (get_source key l.source_times) in Holds m × SameLimits m l
unfolding record_pruned
record_pruned-Holds l now key c = elim (Bool-cases (leb l.global_limit (length l.global_times))) [
  | inl full ↦ rw full (c, (refl, refl, refl))
  | inr few ↦ rw few (elim (Bool-cases (failures_full l (get_source key l.source_times))) [
    | inl full ↦ rw full (c, (refl, refl, refl))
    | inr few_source ↦ rw few_source (
      record {
        retained =
            IsRetained-pushed l now key c.some_source c.source_positive (ground arith)
              (not_full l key few_source) c.retained;
        source_positive = c.source_positive;
        some_source = c.some_source;
      },
      (refl, refl, refl),
    )
  ])
]

Holds-pruned : (l : Limiter) (now : ℕ) → Holds l → Holds (pruned l now)
Holds-pruned l now c = record {
  retained = IsRetained-pruned l now c.retained;
  source_positive = c.source_positive;
  some_source = c.some_source;
}

run_calls-Holds :
    (calls : List Call) (l : Limiter)
    → Holds l
    → Holds (run_calls calls l) × SameLimits (run_calls calls l) l
unfolding check record_failure
run_calls-Holds [] l c = (c, (refl, refl, refl))
run_calls-Holds (checks now source ∷ calls) l c =
    run_calls-Holds calls (pruned l now) (Holds-pruned l now c)
run_calls-Holds (records now source ∷ calls) l c =
    let (h, (p, g, m)) =
      record_pruned-Holds (pruned l now) now (source_key source) (Holds-pruned l now c) in
    let (h', (p', g', m')) = run_calls-Holds calls (record_failure l now source) h in
    (h', (p' ∙ p, g' ∙ g, m' ∙ m))

-- A limiter with a positive limit for a source and room for a source, also one that evicts sources:
-- from empty queues and after any calls of `check` and `record_failure`, at whatever times, it tracks at
-- most `max_sources` sources and keeps at most `per_source_limit` times for each and at most
-- `global_limit` in all.
pub run_calls_retains :
    (calls : List Call) (l : Limiter)
    → 0 < l.per_source_limit
    → 0 < l.max_sources
    → l.global_times ≡ []
    → l.source_times ≡ []
    → let m = run_calls calls l in
      (tracked_sources m ≤ l.max_sources)
      × Short l.per_source_limit m.source_times
      × (length m.global_times ≤ l.global_limit)
unfolding tracked_sources
run_calls_retains calls l p m g s =
    let (h, (sp, sg, sm)) = run_calls-Holds calls l (record {
      retained = record {
        tracked = omega (arith, ap length s);
        within = omega (arith, ap length g);
        short = subst (Short l.per_source_limit) (sym s) tt;
      };
      source_positive = p;
      some_source = m;
    }) in
    (
      omega (arith, h.retained.tracked),
      subst (λ n. Short n (run_calls calls l).source_times) sp h.retained.short,
      omega (arith, h.retained.within),
    )
