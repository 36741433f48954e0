-- ===== src/Guardrails/Setup/Window.antt =====
-- `PairSetupAttemptLimiter.admit` against a sliding window over the admitted starts.
use mathlib.Core.Path.{subst, subst₂}
use atvr4samsung.Common.{
  ℕ, ◌≤◌, ◌<◌, ◌≡◌, refl, sym, ap, ◌∙◌, Bool, ◌&&◌, List, [], ◌∷◌, ◌++◌, Option, some, arith,
  length, ltb, leb, if◌then◌else◌, Bool-cases, Option-cases, inl, inr,
}
use atvr4samsung.Guardrails.{Limiter, source_key, get_source}
use atvr4samsung.Guardrails.Queues.{live}
use atvr4samsung.Guardrails.Queues.PerSource.{held, held-get_source, held-none}
use atvr4samsung.Guardrails.Queues.History.{
  History, times, times_for, Counts, pruned, Counts-pruned, Counts-pushed, Counts-bounds,
}
use atvr4samsung.Guardrails.Setup.{
  AttemptAdmission, admit, admit_pruned, new_attempt_limiter, source_full, times_of,
}
use atvr4samsung.Guardrails.Setup.Limits.{
  SameLimits, admit-SameLimits, fresh, new_attempt_limiter-fresh, refused-allowed,
  refused-busy-allowed,
}

-- The history with the start that `admit` answered, if it was admitted.
abbrev pub counted : AttemptAdmission → ℕ → Option (List ℕ) → History → History
counted a now source h = if a.allowed then h ++ ((now, source_key source) ∷ []) else h

abbrev pub has_room : Limiter → ℕ → History → List ℕ → Bool
has_room l now h key =
    ltb (length (live l.window now (times_for key h))) l.per_source_limit
    && ltb (length (live l.window now (times h))) l.global_limit

source_full-held :
    (l : Limiter) (key : List ℕ)
    → 0 < l.per_source_limit
    → source_full l (get_source key l.source_times)
      ≡ leb l.per_source_limit (length (held key l.source_times))
source_full-held l key p = elim (Option-cases (get_source key l.source_times)) [
  | inl e ↦ rw e (rw (held-none key l.source_times e) (ground arith))
  | inr (ts, e) ↦ rw e (rw (held-get_source key l.source_times ts e))
]

-- In a limiter that counts the history, the tests on its queues are tests on the history.
has_room-queues :
    {h : History} (l : Limiter) (now : ℕ) (key : List ℕ)
    → Counts l now h
    → has_room l now h key ≡ (
        ltb (length (held key l.source_times)) l.per_source_limit
        && ltb (length l.global_times) l.global_limit)
has_room-queues l now key c = rw (c.source_times key) (rw (sym c.all_times))

abbrev pub Answers : Limiter → ℕ → Option (List ℕ) → History → Limiter × AttemptAdmission → Type 0
Answers l now source h (l', a) =
    (a.allowed ≡ has_room l now h (source_key source)) × Counts l' now (counted a now source h)

admit_pruned-Counts :
    {h : History} (l : Limiter) (now : ℕ) (source : Option (List ℕ))
    → l.global_limit ≤ l.max_sources
    → Counts l now h
    → Answers l now source h
        (admit_pruned l now (source_key source) (get_source (source_key source) l.source_times))
unfolding admit_pruned
admit_pruned-Counts {h} l now source room c =
    rw (source_full-held l key c.source_positive)
      (elim (Bool-cases (leb l.per_source_limit (length (held key l.source_times)))) [
        | inl full ↦ rw full (
            rw (refused-allowed l now (times_of (get_source key l.source_times)))
              (sym (has_room-queues l now key c ∙ ground arith), c))
        | inr few_source ↦
            rw few_source (elim (Bool-cases (leb l.global_limit (length l.global_times))) [
              | inl full ↦ rw full (
                  rw (refused-busy-allowed l now l.global_times)
                    (sym (has_room-queues l now key c ∙ ground arith), c))
              | inr few ↦ rw few (
                sym (has_room-queues l now key c ∙ ground arith),
                Counts-pushed l now key room (ground arith) (ground arith) c,
              )
            ])
      ])
  where
    key : List ℕ
    key = source_key source

-- On a limiter that counts a history and whose global limit is not above its number of sources, so
-- that no source is evicted, a start at `now` is admitted exactly if the window that ends at `now` has
-- fewer than `per_source_limit` admitted starts of its source and fewer than `global_limit` in all; the
-- limiter then counts the history with that start, and otherwise the same history.
pub admit-Counts :
    {h : History} (l : Limiter) (last now : ℕ) (source : Option (List ℕ))
    → l.global_limit ≤ l.max_sources
    → Counts l last h
    → last ≤ now
    → Answers l now source h (admit l now source)
unfolding admit
admit-Counts l last now source room c le =
    admit_pruned-Counts (pruned l now) now source room (Counts-pruned l last now le c)

-- A sequence of starts, each with its time and its source, and the history of those admitted.
abbrev pub admit_all : Limiter → History → List (ℕ × Option (List ℕ)) → Limiter × History
admit_all l h [] = (l, h)
admit_all l h ((now, source) ∷ starts) =
    let (l', a) = admit l now source in admit_all l' (counted a now source h) starts

-- The times of the starts do not go back, from `last` on.
abbrev pub Advancing : ℕ → List (ℕ × Option (List ℕ)) → Type 0
Advancing last [] = Unit
Advancing last ((now, source) ∷ starts) = (last ≤ now) × Advancing now starts

abbrev pub end_of : ℕ → List (ℕ × Option (List ℕ)) → ℕ
end_of last [] = last
end_of last ((now, source) ∷ starts) = end_of now starts

pub admit_all-SameLimits :
    (starts : List (ℕ × Option (List ℕ))) (l : Limiter) (h : History)
    → SameLimits (admit_all l h starts).0 l
admit_all-SameLimits [] l h = (refl, refl, refl, refl)
admit_all-SameLimits ((now, source) ∷ starts) l h =
    let (w, p, g, m) =
      admit_all-SameLimits starts (admit l now source).0
        (counted (admit l now source).1 now source h) in
    let (w', p', g', m') = admit-SameLimits l now source in (w ∙ w', p ∙ p', g ∙ g', m ∙ m')

admit_all-Counts :
    (starts : List (ℕ × Option (List ℕ))) (l : Limiter) (last : ℕ) (h : History)
    → l.global_limit ≤ l.max_sources
    → Counts l last h
    → Advancing last starts
    → Counts (admit_all l h starts).0 (end_of last starts) (admit_all l h starts).1
admit_all-Counts [] l last h room c a = c
admit_all-Counts ((now, source) ∷ starts) l last h room c (le, a) =
    let (w, p, g, m) = admit-SameLimits l now source in
    admit_all-Counts starts (admit l now source).0 now (counted (admit l now source).1 now source h)
      (omega arith) (admit-Counts l last now source room c le).1 a

pub fresh-Counts :
    (per_source global window max_sources ticks : ℕ)
    → 0 < per_source
    → 0 < window
    → Counts (fresh per_source global window max_sources ticks) 0 []
fresh-Counts per_source global window max_sources ticks p w = record {
  window_positive = w;
  source_positive = p;
  distinct = tt;
  queues = tt;
  ordered = tt;
  within = omega arith;
  totals = λ n m. refl;
  all_times = refl;
  source_times = λ key. refl;
}

-- A limiter made with a global limit not above its number of sources, as with the default limits,
-- keeps both limits: after any starts whose times do not go back, any window that ends at the last
-- start or later has at most `global` admitted starts, and at most `per_source` of each source.
pub admit_all_bounds :
    (per_source global window max_sources ticks : ℕ) {l : Limiter}
    (starts : List (ℕ × Option (List ℕ))) (now : ℕ)
    → new_attempt_limiter per_source global window max_sources ticks ≡ some l
    → global ≤ max_sources
    → Advancing 0 starts
    → end_of 0 starts ≤ now
    → let h = (admit_all l [] starts).1 in
      (length (live window now (times h)) ≤ global)
      × ((key : List ℕ) → length (live window now (times_for key h)) ≤ per_source)
admit_all_bounds per_source global window max_sources ticks {l} starts now e le a end =
    let (p, w, m) = new_attempt_limiter-fresh per_source global window max_sources ticks e in
    let start : Counts l 0 [] =
      subst (λ l. Counts l 0 []) (sym m)
        (fresh-Counts per_source global window max_sources ticks p w) in
    let (sw, sp, sg, sm) = admit_all-SameLimits starts l [] in
    let (all, each) =
      Counts-bounds (admit_all l [] starts).0 (end_of 0 starts) now
        (admit_all-Counts starts l 0 []
          (subst (λ (l : Limiter). l.global_limit ≤ l.max_sources) (sym m) le) start a)
        end in
    let ew = sw ∙ ap (λ (l : Limiter). l.window) m in
    (
      subst₂ (λ (w g : ℕ). length (live w now (times (admit_all l [] starts).1)) ≤ g) ew
          (sg ∙ ap (λ (l : Limiter). l.global_limit) m) all,
      λ key.
          subst₂ (λ (w g : ℕ). length (live w now (times_for key (admit_all l [] starts).1)) ≤ g) ew
            (sp ∙ ap (λ (l : Limiter). l.per_source_limit) m) (each key),
    )
