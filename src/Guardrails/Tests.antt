-- ===== src/Guardrails/Tests.antt =====
-- Runs of the guardrails, and their theorems at concrete inputs.
use atvr4samsung.Common.{ℕ, ◌≤◌, ◌≡◌, refl, List, [], ◌∷◌, Option, none, some, arith, length}
use atvr4samsung.Common.Bytes.{bytes_eq}
use atvr4samsung.Guardrails.{
  ConnectionAdmission, new_admission, acquire, authenticated, Limiter, source_key,
  total_connection_limit, tracked_sources, get_source, pop_expired, pop_sources, push_source,
  remove_source,
}
use atvr4samsung.Guardrails.Admission.{
  IsValid, opened, verified, closed, handle_all, admission-IsValid,
}
use atvr4samsung.Guardrails.Queues.{live}
use atvr4samsung.Guardrails.Queues.History.{times, times_for, Counts}
use atvr4samsung.Guardrails.Setup.{new_attempt_limiter, admit}
use atvr4samsung.Guardrails.Setup.Window.{
  admit_all, admit-Counts, Answers, admit_all_bounds, fresh-Counts,
}
use atvr4samsung.Guardrails.Setup.Limits.{fresh}
use atvr4samsung.Guardrails.Setup.Retention.{admit_all_retains}
use atvr4samsung.Guardrails.Failure.Retention.{checks, records, Call, run_calls, run_calls_retains}
use atvr4samsung.Guardrails.Queues.Retained.{Short}
use atvr4samsung.Guardrails.Failure.{check, record_failure}
use atvr4samsung.Guardrails.Failure.Window.{has_room, recorded, check-Counts, record_failure-Counts}

admission-IsValid_example :
    IsValid
      (handle_all (new_admission 2 1) (opened 7 ∷ opened 8 ∷ verified 7 ∷ opened 8 ∷ closed 7 ∷ []))
admission-IsValid_example =
    admission-IsValid 2 1 (opened 7 ∷ opened 8 ∷ verified 7 ∷ opened 8 ∷ closed 7 ∷ [])

abbrev busy_server : ConnectionAdmission
busy_server = handle_all (new_admission 2 2) (opened 7 ∷ verified 7 ∷ opened 8 ∷ [])

acquire_over_limit : (acquire busy_server 9).1 ≡ some total_connection_limit
unfolding acquire authenticated
acquire_over_limit = refl

abbrev home : Option (List ℕ)
home = some (32 ∷ 49 ∷ 48 ∷ 10 ∷ [])

source_key-home : source_key home ≡ 49 ∷ 48 ∷ []
unfolding source_key
source_key-home = refl

-- Two starts for each source, three in all, in a window of 60 ticks.
abbrev limiter : Limiter
limiter = fresh 2 3 60 4 1

limiter-Counts : Counts limiter 0 []
limiter-Counts = fresh-Counts 2 3 60 4 1 (omega arith) (omega arith)

admit-Counts_example : Answers limiter 5 home [] (admit limiter 5 home)
admit-Counts_example = admit-Counts limiter 0 5 home (omega arith) limiter-Counts (omega arith)

abbrev starts : List (ℕ × Option (List ℕ))
starts = (1, home) ∷ (2, none) ∷ (3, home) ∷ (4, none) ∷ (70, home) ∷ []

admit_all-starts : times (admit_all limiter [] starts).1 ≡ 1 ∷ 2 ∷ 3 ∷ 70 ∷ []
unfolding admit source_key get_source pop_expired pop_sources push_source remove_source bytes_eq
admit_all-starts = refl

admit_all_bounds_example :
    let h = (admit_all limiter [] starts).1 in
    (length (live 60 70 (times h)) ≤ 3)
    × ((key : List ℕ) → length (live 60 70 (times_for key h)) ≤ 2)
admit_all_bounds_example =
    admit_all_bounds 2 3 60 4 1 starts 70 made (omega arith) (omega arith) (omega arith)
  where
    made : new_attempt_limiter 2 3 60 4 1 ≡ some limiter
    made = unfold new_attempt_limiter in refl

check-Counts_example :
    ((check limiter 5 home).1.allowed ≡ has_room limiter 5 [] (source_key home))
    × Counts (check limiter 5 home).0 5 []
check-Counts_example = check-Counts limiter 0 5 home limiter-Counts (omega arith) (omega arith)

record_failure-Counts_example :
    Counts (record_failure limiter 5 home) 5 (recorded limiter 5 home [])
record_failure-Counts_example =
    record_failure-Counts limiter 0 5 home (omega arith) limiter-Counts (omega arith)

abbrev away : Option (List ℕ)
away = some (55 ∷ [])

-- A limiter with room for two sources, and starts of three: the first source is evicted.
abbrev small : Limiter
small = fresh 2 20 60 2 1

abbrev crowd : List (ℕ × Option (List ℕ))
crowd = (1, home) ∷ (2, away) ∷ (3, none) ∷ (4, home) ∷ []

admit_all-crowd : tracked_sources (admit_all small [] crowd).0 ≡ 2
unfolding admit source_key get_source pop_expired pop_sources push_source remove_source bytes_eq
    tracked_sources
admit_all-crowd = refl

admit_all_retains_example :
    let r = admit_all small [] crowd in
    (tracked_sources r.0 ≤ 2)
    × Short 2 r.0.source_times
    × (length r.0.global_times ≤ 20)
    × (length (live 60 4 (times r.1)) ≤ 20)
admit_all_retains_example = admit_all_retains 2 20 60 2 1 crowd 4 made (omega arith) (omega arith)
  where
    made : new_attempt_limiter 2 20 60 2 1 ≡ some small
    made = unfold new_attempt_limiter in refl

abbrev failures : List Call
failures = records 1 home ∷ checks 1 away ∷ records 2 away ∷ records 3 none ∷ records 4 home ∷ []

run_calls_retains_example :
    let m = run_calls failures small in
    (tracked_sources m ≤ 2) × Short 2 m.source_times × (length m.global_times ≤ 20)
run_calls_retains_example = run_calls_retains failures small (omega arith) (omega arith) refl refl
