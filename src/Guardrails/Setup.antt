-- ===== src/Guardrails/Setup.antt =====
-- `PairSetupAttemptLimiter` of guardrails.py.
pub mod Limits
pub mod Window
pub mod Retention
use atvr4samsung.Common.{
  ℕ, Bool, true, false, ◌||◌, List, [], ◌∷◌, ◌++◌, Option, none, some, length, ltb, leb,
  if◌then◌else◌, ◌==◌,
}
use atvr4samsung.Enums.{ErrorCode, max_tries, busy}
use atvr4samsung.Guardrails.{
  Limiter, source_key, get_source, pop_expired, pop_sources, push_source, retry_after,
}

pub record AttemptAdmission : Type 0 where
  pub allowed : Bool
  pub error : Option ErrorCode
  pub retry_after : ℕ

-- `__init__`, which raises ValueError on a limit or a window that is not positive.
unfoldable pub new_attempt_limiter : ℕ → ℕ → ℕ → ℕ → ℕ → Option Limiter
new_attempt_limiter per_source_limit global_limit window max_sources ticks =
    if ltb per_source_limit 1 || ltb global_limit 1
    then none
    else if window == 0 || ltb max_sources 1
    then none
    else some (record {
      per_source_limit = per_source_limit;
      global_limit = global_limit;
      window = window;
      max_sources = max_sources;
      ticks = ticks;
      global_times = [];
      source_times = [];
    })

unfoldable pub prune_attempts : Limiter → ℕ → Limiter
prune_attempts l now = record l {
  global_times = pop_expired l.window now l.global_times;
  source_times = pop_sources l.window now l.source_times;
}

-- `retry_after` reads the oldest time of a queue that is not empty.
abbrev pub refused : Limiter → ℕ → ErrorCode → List ℕ → AttemptAdmission
refused l now error [] = record { allowed = false; error = some error; retry_after = 0 }
refused l now error (oldest ∷ times) = record {
  allowed = false;
  error = some error;
  retry_after = retry_after l now oldest;
}

abbrev pub source_full : Limiter → Option (List ℕ) → Bool
source_full l none = false
source_full l (some times) = leb l.per_source_limit (length times)

abbrev pub times_of : Option (List ℕ) → List ℕ
times_of none = []
times_of (some times) = times

-- `admit`, behind the pruning.
unfoldable pub admit_pruned : Limiter → ℕ → List ℕ → Option (List ℕ) → Limiter × AttemptAdmission
admit_pruned l now key source_attempts =
    if source_full l source_attempts
    then (l, refused l now max_tries (times_of source_attempts))
    else if leb l.global_limit (length l.global_times)
    then (l, refused l now busy l.global_times)
    else (
      record l {
        source_times = push_source l.max_sources key now l.source_times source_attempts;
        global_times = l.global_times ++ (now ∷ []);
      },
      record { allowed = true; error = none; retry_after = 0 },
    )

unfoldable pub admit : Limiter → ℕ → Option (List ℕ) → Limiter × AttemptAdmission
unfolding admit_pruned prune_attempts
admit l now source =
    let pruned = prune_attempts l now in
    let key = source_key source in admit_pruned pruned now key (get_source key pruned.source_times)
