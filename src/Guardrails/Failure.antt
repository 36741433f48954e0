-- ===== src/Guardrails/Failure.antt =====
-- `PairFailureLimiter` of guardrails.py.
pub mod Window
pub mod Retention
use atvr4samsung.Common.{
  ℕ, ◌+◌, ◌-◌, ◌/◌, min, max, Bool, true, false, List, [], ◌∷◌, ◌++◌, Option, none, some, length,
  leb, if◌then◌else◌,
}
use atvr4samsung.Guardrails.{
  Limiter, source_key, get_source, pop_expired, pop_sources, push_source, retry_after,
}

pub record PairThrottle : Type 0 where
  pub allowed : Bool
  pub retry_after : ℕ

pub prune_failures : Limiter → ℕ → Limiter
prune_failures l now = record l {
  global_times = pop_expired l.window now l.global_times;
  source_times = pop_sources l.window now l.source_times;
}

-- `self._source_failures.get(key, ())`
abbrev pub failures_of : Option (List ℕ) → List ℕ
failures_of none = []
failures_of (some failures) = failures

-- The oldest time of a queue that has reached its limit.
abbrev pub candidate : ℕ → List ℕ → Option ℕ
candidate limit [] = none
candidate limit (oldest ∷ times) = if leb limit (length (oldest ∷ times)) then some oldest else none

-- `min(candidates)`, none if there is no candidate.
abbrev pub oldest_candidate : Option ℕ → Option ℕ → Option ℕ
oldest_candidate none none = none
oldest_candidate none (some b) = some b
oldest_candidate (some a) none = some a
oldest_candidate (some a) (some b) = some (min a b)

abbrev pub throttle : Limiter → ℕ → Option ℕ → PairThrottle
throttle l now none = record { allowed = true; retry_after = 0 }
throttle l now (some oldest) = record { allowed = false; retry_after = retry_after l now oldest }

-- `check`, with limits of 1 at least, so that a full queue is not empty.
pub check : Limiter → ℕ → Option (List ℕ) → Limiter × PairThrottle
unfolding prune_failures
check l now source =
    let pruned = prune_failures l now in
    let source_failures = failures_of (get_source (source_key source) pruned.source_times) in
    (
      pruned,
      throttle pruned now (
          oldest_candidate (candidate pruned.global_limit pruned.global_times)
            (candidate pruned.per_source_limit source_failures)),
    )

abbrev pub failures_full : Limiter → Option (List ℕ) → Bool
failures_full l none = false
failures_full l (some failures) = leb l.per_source_limit (length failures)

-- `record_failure`, behind the pruning.
pub record_pruned : Limiter → ℕ → List ℕ → Option (List ℕ) → Limiter
record_pruned l now key failures =
    if leb l.global_limit (length l.global_times)
    then l
    else if failures_full l failures
    then l
    else record l {
      source_times = push_source l.max_sources key now l.source_times failures;
      global_times = l.global_times ++ (now ∷ []);
    }

pub record_failure : Limiter → ℕ → Option (List ℕ) → Limiter
unfolding record_pruned prune_failures
record_failure l now source =
    let pruned = prune_failures l now in
    let key = source_key source in record_pruned pruned now key (get_source key pruned.source_times)
