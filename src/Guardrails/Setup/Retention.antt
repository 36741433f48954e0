-- ===== src/Guardrails/Setup/Retention.antt =====
-- What a `PairSetupAttemptLimiter` keeps, and its global limit, when sources are evicted too.
use mathlib.Core.Path.{subst}
use atvr4samsung.Common.{
  ℕ, ◌≤◌, ◌<◌, ◌≡◌, refl, sym, ap, ◌∙◌, false, List, [], ◌∷◌, ◌++◌, Option, some, arith, length,
  leb, Bool-cases, inl, inr,
}
use atvr4samsung.Guardrails.{Limiter, source_key, get_source, tracked_sources}
use atvr4samsung.Guardrails.Queues.{
  live, Ordered, pop_expired-live, live-live, live-append, Ordered-live, Ordered-later,
  Ordered-snoc, length-live,
}
use atvr4samsung.Guardrails.Queues.History.{History, times, times-append, pruned, pushed}
use atvr4samsung.Guardrails.Queues.Retained.{
  IsRetained, Short, Fits, IsRetained-pruned, IsRetained-pushed,
}
use atvr4samsung.Guardrails.Setup.{admit, admit_pruned, new_attempt_limiter, source_full, times_of}
use atvr4samsung.Guardrails.Setup.Limits.{
  fresh, new_attempt_limiter-fresh, new_attempt_limiter-positive, refused-allowed,
  refused-busy-allowed,
}
use atvr4samsung.Guardrails.Setup.Window.{
  counted, admit_all, admit_all-SameLimits, Advancing, end_of,
}

-- At the time `last`, the limiter keeps no more than its limits, and its global queue has exactly the
-- counted times that are still inside the window.
record CountsAll (l : Limiter) (last : ℕ) (h : History) : Type 0 where
  retained : IsRetained l
  window_positive : 0 < l.window
  source_positive : 0 < l.per_source_limit
  some_source : 0 < l.max_sources
  ordered : Ordered l.global_times last
  all_times : l.global_times ≡ live l.window last (times h)

CountsAll-pruned :
    {h : History} (l : Limiter) (last now : ℕ)
    → last ≤ now
    → CountsAll l last h
    → CountsAll (pruned l now) now h
CountsAll-pruned {h} l last now le c = record {
  retained = IsRetained-pruned l now c.retained;
  window_positive = c.window_positive;
  source_positive = c.source_positive;
  some_source = c.some_source;
  ordered =
      subst (λ ts. Ordered ts now)
        (sym (pop_expired-live l.window now last l.global_times c.ordered))
        (Ordered-later last now _ le (Ordered-live l.window now last l.global_times c.ordered));
  all_times =
      pop_expired-live l.window now last l.global_times c.ordered
      ∙ ap (live l.window now) c.all_times
      ∙ live-live l.window last now (times h) le;
}

CountsAll-pushed :
    {h : History} (l : Limiter) (now : ℕ) (key : List ℕ)
    → length l.global_times < l.global_limit
    → Fits l.per_source_limit key l.source_times
    → CountsAll l now h
    → CountsAll (pushed l now key) now (h ++ ((now, key) ∷ []))
CountsAll-pushed {h} l now key few fits c = record {
  retained = IsRetained-pushed l now key c.some_source c.source_positive few fits c.retained;
  window_positive = c.window_positive;
  source_positive = c.source_positive;
  some_source = c.some_source;
  ordered = Ordered-snoc now now l.global_times (omega arith) c.ordered;
  all_times = sym (
      ap (live l.window now) (times-append h ((now, key) ∷ []))
      ∙ live-append l.window now (times h) (now ∷ [])
      ∙ cc (alive, c.all_times));
}
  where
    alive : live l.window now (now ∷ []) ≡ now ∷ []
    alive = ground (arith, c.window_positive)

not_full :
    (l : Limiter) (key : List ℕ)
    → source_full l (get_source key l.source_times) ≡ false
    → Fits l.per_source_limit key l.source_times
not_full l key f ts e =
    subst (λ o. source_full l o ≡ false → length ts < l.per_source_limit) (sym e)
      (λ few. ground arith) f

admit_pruned-CountsAll :
    {h : History} (l : Limiter) (now : ℕ) (source : Option (List ℕ))
    → CountsAll l now h
    → let r =
        admit_pruned l now (source_key source) (get_source (source_key source) l.source_times) in
      CountsAll r.0 now (counted r.1 now source h)
unfolding admit_pruned
admit_pruned-CountsAll {h} l now source c =
    elim (Bool-cases (source_full l (get_source key l.source_times))) [
      | inl full ↦ rw full (rw (refused-allowed l now (times_of (get_source key l.source_times))) c)
      | inr few_source ↦
          rw few_source (elim (Bool-cases (leb l.global_limit (length l.global_times))) [
            | inl full ↦ rw full (rw (refused-busy-allowed l now l.global_times) c)
            | inr few ↦
                rw few (CountsAll-pushed l now key (ground arith) (not_full l key few_source) c)
          ])
    ]
  where
    key : List ℕ
    key = source_key source

admit_all-CountsAll :
    (starts : List (ℕ × Option (List ℕ))) (l : Limiter) (last : ℕ) (h : History)
    → CountsAll l last h
    → Advancing last starts
    → CountsAll (admit_all l h starts).0 (end_of last starts) (admit_all l h starts).1
unfolding admit
admit_all-CountsAll [] l last h c a = c
admit_all-CountsAll ((now, source) ∷ starts) l last h c (le, a) =
    admit_all-CountsAll starts (admit l now source).0 now
      (counted (admit l now source).1 now source h)
      (admit_pruned-CountsAll (pruned l now) now source (CountsAll-pruned l last now le c)) a

fresh-CountsAll :
    (per_source global window max_sources ticks : ℕ)
    → 0 < per_source
    → 0 < window
    → 0 < max_sources
    → CountsAll (fresh per_source global window max_sources ticks) 0 []
unfolding tracked_sources
fresh-CountsAll per_source global window max_sources ticks p w m = record {
  retained = record { tracked = omega arith; within = omega arith; short = tt };
  window_positive = w;
  source_positive = p;
  some_source = m;
  ordered = tt;
  all_times = refl;
}

-- The limits, for a limiter that keeps what it is allowed to.
abbrev Retains : ℕ → ℕ → ℕ → ℕ → ℕ → Limiter × History → Type 0
Retains per_source global window max_sources now (m, h) =
    (tracked_sources m ≤ max_sources)
    × Short per_source m.source_times
    × (length m.global_times ≤ global)
    × (length (live window now (times h)) ≤ global)

CountsAll-Retains :
    {h : History} (l : Limiter) (last now : ℕ)
    → CountsAll l last h
    → last ≤ now
    → Retains l.per_source_limit l.global_limit l.window l.max_sources now (l, h)
CountsAll-Retains {h} l last now c le = (
  c.retained.tracked,
  c.retained.short,
  c.retained.within,
  omega (
    arith,
    c.retained.within,
    ap length c.all_times,
    ap length (live-live l.window last now (times h) le),
    length-live l.window now (live l.window last (times h)),
  ),
)

-- Whatever the limits of a limiter are, also where it evicts sources: after any starts whose times do
-- not go back it tracks at most `max_sources` sources, keeps at most `per_source` times for each and
-- at most `global` in all, and any window that ends at the last start or later has at most `global`
-- admitted starts.
pub admit_all_retains :
    (per_source global window max_sources ticks : ℕ) {l : Limiter}
    (starts : List (ℕ × Option (List ℕ))) (now : ℕ)
    → new_attempt_limiter per_source global window max_sources ticks ≡ some l
    → Advancing 0 starts
    → end_of 0 starts ≤ now
    → let (m, h) = admit_all l [] starts in
      (tracked_sources m ≤ max_sources)
      × Short per_source m.source_times
      × (length m.global_times ≤ global)
      × (length (live window now (times h)) ≤ global)
admit_all_retains per_source global window max_sources ticks {l} starts now e a end =
    let (p, w, m) = new_attempt_limiter-fresh per_source global window max_sources ticks e in
    let start = fresh per_source global window max_sources ticks in
    let (sw, sp, sg, sm) = admit_all-SameLimits starts start [] in
    let r = admit_all start [] starts in
    let counts =
      admit_all-CountsAll starts start 0 []
        (fresh-CountsAll per_source global window max_sources ticks p w
          (new_attempt_limiter-positive per_source global window max_sources ticks e))
        a in
    subst (λ l. Retains per_source global window max_sources now (admit_all l [] starts)) (sym m)
      (of_limits r.0 r.1 sp sg sw sm (CountsAll-Retains r.0 (end_of 0 starts) now counts end))
  where
    of_limits :
        (l' : Limiter) (h : History)
        → l'.per_source_limit ≡ per_source
        → l'.global_limit ≡ global
        → l'.window ≡ window
        → l'.max_sources ≡ max_sources
        → Retains l'.per_source_limit l'.global_limit l'.window l'.max_sources now (l', h)
        → Retains per_source global window max_sources now (l', h)
    of_limits l' h sp sg sw sm (t, s, g, b) = (
      omega (arith, t),
      subst (λ n. Short n l'.source_times) sp s,
      omega (arith, g),
      omega (arith, subst (λ w. length (live w now (times h)) ≤ l'.global_limit) sw b),
    )
