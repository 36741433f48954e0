-- ===== src/Guardrails/Queues/History.antt =====
-- A limiter against the history of the starts, or failures, that it counted.
use atvr4samsung.Common.{
  ℕ, ◌+◌, ◌≤◌, ◌<◌, ◌≡◌, refl, sym, ap, ◌∙◌, List, [], ◌∷◌, ◌++◌, arith, length, length-append,
  if◌then◌else◌, Bool-cases, inl, inr, append-nil,
}
use atvr4samsung.Common.Bytes.{bytes_eq}
use atvr4samsung.Guardrails.{
  Limiter, Sources, get_source, pop_expired, pop_sources, push_source, tracked_sources,
}
use atvr4samsung.Guardrails.Queues.{
  live, Ordered, pop_expired-live, live-live, live-append, Ordered-live, Ordered-later,
  Ordered-snoc, length-live,
}
use atvr4samsung.Guardrails.Queues.PerSource.{
  live_total, Distinct, Queues, held, Distinct-pop, held-pop, live_total-pop, Queues-pop,
}
use atvr4samsung.Guardrails.Queues.Push.{held-push, Distinct-push, live_total-push, Queues-push}

-- What was counted, oldest first: when, and for which source key.
abbrev pub History : Type 0
History = List (ℕ × List ℕ)

abbrev pub times : History → List ℕ
times [] = []
times ((t, key) ∷ h) = t ∷ times h

abbrev pub times_for : List ℕ → History → List ℕ
times_for key [] = []
times_for key ((t, k) ∷ h) = let rest = times_for key h in if bytes_eq k key then t ∷ rest else rest

-- At the time `last`, the limiter holds exactly the counted times that are still inside the window,
-- all together and for each source, and they are within the limits.
pub record Counts (l : Limiter) (last : ℕ) (h : History) : Type 0 where
  pub window_positive : 0 < l.window
  pub source_positive : 0 < l.per_source_limit
  pub distinct : Distinct l.source_times
  pub queues : Queues l.window l.per_source_limit last l.source_times
  pub ordered : Ordered l.global_times last
  pub within : length l.global_times ≤ l.global_limit
  pub totals :
      (n : ℕ)
      → last ≤ n
      → live_total l.window n l.source_times ≡ length (live l.window n l.global_times)
  pub all_times : l.global_times ≡ live l.window last (times h)
  pub source_times : (key : List ℕ) → held key l.source_times ≡ live l.window last (times_for key h)

pub times-append : (h k : History) → times (h ++ k) ≡ times h ++ times k
times-append [] k = refl
times-append ((t, key) ∷ h) k = ap (λ ts. t ∷ ts) (times-append h k)

times_for-append :
    (key : List ℕ) (h k : History) → times_for key (h ++ k) ≡ times_for key h ++ times_for key k
times_for-append key [] k = refl
times_for-append key ((t, j) ∷ h) k = ground (arith, times_for-append key h k)

length-le-live_total :
    (window limit last : ℕ) (s : Sources)
    → Queues window limit last s
    → length s ≤ live_total window last s
length-le-live_total window limit last [] q = omega arith
length-le-live_total window limit last ((k, ts) ∷ s) (o, p, l, v, q) =
    omega (arith, length-le-live_total window limit last s q, ap length v)

held-le :
    (window limit last : ℕ) (key : List ℕ) (s : Sources)
    → Queues window limit last s
    → length (held key s) ≤ limit
held-le window limit last key [] q = omega arith
held-le window limit last key ((k, ts) ∷ s) (o, p, l, v, q) =
    ground (arith, held-le window limit last key s q)

-- No more sources are tracked than there are times inside the window.
pub tracked_sources-le :
    {h : History} (l : Limiter) (last : ℕ)
    → Counts l last h
    → tracked_sources l ≤ length l.global_times
unfolding tracked_sources
tracked_sources-le l last c = omega (
  arith,
  length-le-live_total l.window l.per_source_limit last l.source_times c.queues,
  c.totals last (omega arith),
  length-live l.window last l.global_times,
)

abbrev pub pruned : Limiter → ℕ → Limiter
pruned l now = record l {
  global_times = pop_expired l.window now l.global_times;
  source_times = pop_sources l.window now l.source_times;
}

pub Counts-pruned :
    {h : History} (l : Limiter) (last now : ℕ)
    → last ≤ now
    → Counts l last h
    → Counts (pruned l now) now h
Counts-pruned {h} l last now le c =
    rw (pop_expired-live l.window now last l.global_times c.ordered) (record {
      window_positive = c.window_positive;
      source_positive = c.source_positive;
      distinct = Distinct-pop l.window now l.source_times c.distinct;
      queues = Queues-pop l.window now last l.per_source_limit l.source_times c.queues le;
      ordered =
          Ordered-later last now _ le (Ordered-live l.window now last l.global_times c.ordered);
      within = omega (arith, c.within, length-live l.window now l.global_times);
      totals = λ n m.
          live_total-pop l.window now n last l.per_source_limit l.source_times c.queues m
          ∙ c.totals n (omega arith)
          ∙ ap length (sym (live-live l.window now n l.global_times m));
      all_times = ap (live l.window now) c.all_times ∙ live-live l.window last now (times h) le;
      source_times = λ key.
          held-pop l.window now last l.per_source_limit key l.source_times c.distinct c.queues
          ∙ ap (live l.window now) (c.source_times key)
          ∙ live-live l.window last now (times_for key h) le;
    })

abbrev pub pushed : Limiter → ℕ → List ℕ → Limiter
pushed l now key = record l {
  source_times = push_source l.max_sources key now l.source_times (get_source key l.source_times);
  global_times = l.global_times ++ (now ∷ []);
}

-- A time is counted while no source is evicted: there are as many sources as times at most.
pub Counts-pushed :
    {h : History} (l : Limiter) (now : ℕ) (key : List ℕ)
    → l.global_limit ≤ l.max_sources
    → length l.global_times < l.global_limit
    → length (held key l.source_times) < l.per_source_limit
    → Counts l now h
    → Counts (pushed l now key) now (h ++ ((now, key) ∷ []))
unfolding tracked_sources
Counts-pushed {h} l now key room few few_source c = record {
  window_positive = c.window_positive;
  source_positive = c.source_positive;
  distinct = Distinct-push l.max_sources now key l.source_times space c.distinct;
  queues =
      Queues-push l.window l.per_source_limit l.max_sources now key l.source_times space
        c.window_positive few_source c.queues;
  ordered = Ordered-snoc now now l.global_times (omega arith) c.ordered;
  within = omega (arith, length-append l.global_times (now ∷ []));
  totals = λ n m.
      live_total-push l.window n l.max_sources now key l.source_times space c.distinct
      ∙ ap (λ (k : ℕ). k + length (live l.window n (now ∷ []))) (c.totals n m)
      ∙ sym (
          ap length (live-append l.window n l.global_times (now ∷ []))
          ∙ length-append (live l.window n l.global_times) (live l.window n (now ∷ [])));
  all_times = sym (
      ap (live l.window now) (times-append h ((now, key) ∷ []))
      ∙ live-append l.window now (times h) (now ∷ [])
      ∙ cc (fresh, c.all_times));
  source_times = λ j.
      held-push l.max_sources now key j l.source_times space
      ∙ sym (
          ap (live l.window now) (times_for-append j h ((now, key) ∷ []))
          ∙ live-append l.window now (times_for j h) (times_for j ((now, key) ∷ []))
          ∙ joined j);
}
  where
    space : length l.source_times < l.max_sources
    space = omega (arith, tracked_sources-le l now c)

    fresh : live l.window now (now ∷ []) ≡ now ∷ []
    fresh = ground (arith, c.window_positive)

    joined :
        (j : List ℕ)
        → live l.window now (times_for j h) ++ live l.window now (times_for j ((now, key) ∷ []))
          ≡ (if bytes_eq key j then held j l.source_times ++ (now ∷ []) else held j l.source_times)
    joined j = elim (Bool-cases (bytes_eq key j)) [
      | inl e ↦ rw e (rw fresh (ap (λ ts. ts ++ (now ∷ [])) (sym (c.source_times j))))
      | inr e ↦ rw e (append-nil _ ∙ sym (c.source_times j))
    ]

-- In any window that ends at `last` or later, at most `global_limit` times were counted, and at most
-- `per_source_limit` for each source.
pub Counts-bounds :
    {h : History} (l : Limiter) (last now : ℕ)
    → Counts l last h
    → last ≤ now
    → (length (live l.window now (times h)) ≤ l.global_limit)
      × ((key : List ℕ) → length (live l.window now (times_for key h)) ≤ l.per_source_limit)
Counts-bounds {h} l last now c le = (
  omega (
    arith,
    c.within,
    ap length c.all_times,
    ap length (live-live l.window last now (times h) le),
    length-live l.window now (live l.window last (times h)),
  ),
  λ key. omega (
    arith,
    held-le l.window l.per_source_limit last key l.source_times c.queues,
    ap length (c.source_times key),
    ap length (live-live l.window last now (times_for key h) le),
    length-live l.window now (live l.window last (times_for key h)),
  ),
)
