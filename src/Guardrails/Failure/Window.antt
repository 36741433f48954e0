-- ===== src/Guardrails/Failure/Window.antt =====
-- `PairFailureLimiter` against a sliding window over the recorded failures.
use atvr4samsung.Common.{
  ℕ, ◌≤◌, ◌<◌, ◌≡◌, sym, ◌∙◌, Bool, true, false, ◌&&◌, List, [], ◌∷◌, ◌++◌, Option, none, arith,
  length, ltb, leb, if◌then◌else◌, Bool-cases, Option-cases, inl, inr,
}
use atvr4samsung.Guardrails.{Limiter, source_key, get_source}
use atvr4samsung.Guardrails.Queues.{live}
use atvr4samsung.Guardrails.Queues.PerSource.{held, held-get_source, held-none}
use atvr4samsung.Guardrails.Queues.History.{
  History, times, times_for, Counts, pruned, Counts-pruned, Counts-pushed,
}
use atvr4samsung.Guardrails.Failure.{
  check, record_failure, record_pruned, failures_of, failures_full, candidate, oldest_candidate,
  throttle,
}

-- Whether the window that ends at `now` has room for a failure of the source.
abbrev pub has_room : Limiter → ℕ → History → List ℕ → Bool
has_room l now h key =
    ltb (length (live l.window now (times h))) l.global_limit
    && ltb (length (live l.window now (times_for key h))) l.per_source_limit

failures_of-held :
    (l : Limiter) (key : List ℕ)
    → failures_of (get_source key l.source_times) ≡ held key l.source_times
failures_of-held l key = elim (Option-cases (get_source key l.source_times)) [
  | inl e ↦ rw e (sym (held-none key l.source_times e))
  | inr (ts, e) ↦ rw e (sym (held-get_source key l.source_times ts e))
]

candidate-none :
    (limit : ℕ) (ts : List ℕ)
    → 0 < limit
    → candidate limit ts ≡ (if ltb (length ts) limit then none else candidate limit ts)
candidate-none limit [] p = ground arith
candidate-none limit (t ∷ ts) p = ground arith

throttle-allowed :
    (l : Limiter) (now m n : ℕ) (ts us : List ℕ)
    → 0 < m
    → 0 < n
    → (throttle l now (oldest_candidate (candidate m ts) (candidate n us))).allowed
      ≡ (ltb (length ts) m && ltb (length us) n)
throttle-allowed l now m n [] [] p q = ground arith
throttle-allowed l now m n [] (u ∷ us) p q = ground arith
throttle-allowed l now m n (t ∷ ts) [] p q = ground arith
throttle-allowed l now m n (t ∷ ts) (u ∷ us) p q = ground arith

-- On a limiter that counts a history and has a positive global limit, `check` lets a pairing start at
-- `now` exactly if the window that ends at `now` has room, globally and for the source; it prunes the
-- queues and counts nothing.
pub check-Counts :
    {h : History} (l : Limiter) (last now : ℕ) (source : Option (List ℕ))
    → Counts l last h
    → 0 < l.global_limit
    → last ≤ now
    → ((check l now source).1.allowed ≡ has_room l now h (source_key source))
      × Counts (check l now source).0 now h
unfolding check
check-Counts {h} l last now source c g le =
    let d = Counts-pruned l last now le c in
    (
      rw (failures_of-held (pruned l now) (source_key source)) (
          throttle-allowed (pruned l now) now l.global_limit l.per_source_limit
            (pruned l now).global_times (held (source_key source) (pruned l now).source_times) g
            c.source_positive
          ∙ rw d.all_times (rw (d.source_times (source_key source)))),
      d,
    )

-- The history with a failure at `now`, if there was room to record it.
abbrev pub recorded : Limiter → ℕ → Option (List ℕ) → History → History
recorded l now source h =
    if has_room l now h (source_key source) then h ++ ((now, source_key source) ∷ []) else h

failures_full-held :
    (l : Limiter) (key : List ℕ)
    → 0 < l.per_source_limit
    → failures_full l (get_source key l.source_times)
      ≡ leb l.per_source_limit (length (held key l.source_times))
failures_full-held l key p = elim (Option-cases (get_source key l.source_times)) [
  | inl e ↦ rw e (rw (held-none key l.source_times e) (ground arith))
  | inr (ts, e) ↦ rw e (rw (held-get_source key l.source_times ts e))
]

has_room-queues :
    {h : History} (l : Limiter) (now : ℕ) (key : List ℕ)
    → Counts l now h
    → has_room l now h key ≡ (
        ltb (length l.global_times) l.global_limit
        && ltb (length (held key l.source_times)) l.per_source_limit)
has_room-queues l now key c = rw (c.source_times key) (rw (sym c.all_times))

record_pruned-Counts :
    {h : History} (l : Limiter) (now : ℕ) (source : Option (List ℕ))
    → l.global_limit ≤ l.max_sources
    → Counts l now h
    → Counts
        (record_pruned l now (source_key source) (get_source (source_key source) l.source_times))
        now
        (recorded l now source h)
unfolding record_pruned
record_pruned-Counts {h} l now source room c = rw (has_room-queues l now key c) (
    rw (failures_full-held l key c.source_positive)
      (elim (Bool-cases (leb l.global_limit (length l.global_times))) [
        | inl full ↦ rw full (rw (closed (length l.global_times) l.global_limit full) c)
        | inr few ↦ rw few (
            rw (open_test (length l.global_times) l.global_limit few)
              (elim (Bool-cases (leb l.per_source_limit (length (held key l.source_times)))) [
                | inl full ↦
                    rw full
                      (rw (closed (length (held key l.source_times)) l.per_source_limit full) c)
                | inr few_source ↦ rw few_source (
                    rw (open_test (length (held key l.source_times)) l.per_source_limit few_source)
                      (Counts-pushed l now key room (ground arith) (ground arith) c))
              ]))
      ]))
  where
    key : List ℕ
    key = source_key source

    closed : (n m : ℕ) → leb m n ≡ true → ltb n m ≡ false
    closed n m h = ground arith

    open_test : (n m : ℕ) → leb m n ≡ false → ltb n m ≡ true
    open_test n m h = ground arith

-- On a limiter that counts a history and whose global limit is not above its number of sources, so
-- that no source is evicted, `record_failure` records a failure exactly if the window that ends at
-- `now` has room for it, so that the limiter counts the history with it, and drops it otherwise.
pub record_failure-Counts :
    {h : History} (l : Limiter) (last now : ℕ) (source : Option (List ℕ))
    → l.global_limit ≤ l.max_sources
    → Counts l last h
    → last ≤ now
    → Counts (record_failure l now source) now (recorded l now source h)
unfolding record_failure
record_failure-Counts {h} l last now source room c le =
    record_pruned-Counts (pruned l now) now source room (Counts-pruned l last now le c)
