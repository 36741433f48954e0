-- ===== src/Guardrails/Queues/PerSource.antt =====
-- The sources of a limiter: what each has, and how many times they have together.
use mathlib.Core.Path.{subst}
use atvr4samsung.Common.{
  ℕ, ◌+◌, ◌≤◌, ◌<◌, ◌≡◌, refl, sym, ap, ◌∙◌, List, [], ◌∷◌, ◌++◌, none, some, arith, length,
  if◌then◌else◌, Bool-cases, inl, inr,
}
use atvr4samsung.Common.Bytes.{bytes_eq, bytes_eq_iff}
use atvr4samsung.Guardrails.{Sources, get_source, remove_source, pop_expired, kept, pop_sources}
use atvr4samsung.Guardrails.Queues.{
  live, Ordered, pop_expired-live, live-live, Ordered-live, Ordered-later, length-live,
}

-- How many of the sources' times are inside the window.
abbrev pub live_total : ℕ → ℕ → Sources → ℕ
live_total window now [] = 0
live_total window now ((key, times) ∷ sources) =
    length (live window now times) + live_total window now sources

-- Each key stands once.
abbrev pub Distinct : Sources → Type 0
Distinct [] = Unit
Distinct ((key, times) ∷ sources) = (get_source key sources ≡ none) × Distinct sources

-- Each queue is in order, is not empty and has at most `limit` times, all inside the window.
abbrev pub Queues : ℕ → ℕ → ℕ → Sources → Type 0
Queues window limit last [] = Unit
Queues window limit last ((key, times) ∷ sources) =
    Ordered times last
    × (0 < length times)
    × (length times ≤ limit)
    × (live window last times ≡ times)
    × Queues window limit last sources

pub live_total-append :
    (window now : ℕ) (s t : Sources)
    → live_total window now (s ++ t) ≡ live_total window now s + live_total window now t
live_total-append window now [] t = omega arith
live_total-append window now ((k, ts) ∷ s) t = omega (arith, live_total-append window now s t)

pub get_source-append :
    (key : List ℕ) (s t : Sources)
    → get_source key (s ++ t)
      ≡ elim (get_source key s) [ none ↦ get_source key t | some ts ↦ some ts ]
unfolding get_source
get_source-append key [] t = refl
get_source-append key ((k, ts) ∷ s) t = ground (arith, get_source-append key s t)

pub get_source-remove :
    (key k : List ℕ) (s : Sources)
    → get_source key (remove_source k s) ≡ (if bytes_eq k key then none else get_source key s)
unfolding get_source remove_source
get_source-remove key k [] = ground arith
get_source-remove key k ((j, ts) ∷ s) =
    ground
      (arith, get_source-remove key k s, bytes_eq_iff j k, bytes_eq_iff k key, bytes_eq_iff j key)

remove-absent : (key : List ℕ) (s : Sources) → get_source key s ≡ none → remove_source key s ≡ s
unfolding get_source remove_source
remove-absent key [] h = refl
remove-absent key ((k, ts) ∷ s) h = ground (arith, remove-absent key s)

pub live_total-remove :
    (window now : ℕ) (key : List ℕ) (s : Sources) (ts : List ℕ)
    → Distinct s
    → get_source key s ≡ some ts
    → live_total window now (remove_source key s) + length (live window now ts)
      ≡ live_total window now s
unfolding get_source remove_source
live_total-remove window now key [] ts d h = cc
live_total-remove window now key ((k, us) ∷ s) ts (n, d) h = elim (Bool-cases (bytes_eq k key)) [
  | inl e ↦ ground (arith, remove-absent key s, bytes_eq_iff k key)
  | inr e ↦ rw e (omega (arith, live_total-remove window now key s ts d (rw e at h)))
]

-- The times that are kept for a source: none for an unknown one.
abbrev pub held : List ℕ → Sources → List ℕ
held key [] = []
held key ((k, times) ∷ sources) = if bytes_eq k key then times else held key sources

pub held-get_source :
    (key : List ℕ) (s : Sources) (ts : List ℕ) → get_source key s ≡ some ts → held key s ≡ ts
unfolding get_source
held-get_source key [] ts h = cc
held-get_source key ((k, us) ∷ s) ts h = ground (arith, held-get_source key s ts)

pub held-none : (key : List ℕ) (s : Sources) → get_source key s ≡ none → held key s ≡ []
unfolding get_source
held-none key [] h = refl
held-none key ((k, us) ∷ s) h = ground (arith, held-none key s)

get_source-pop_none :
    (window now : ℕ) (key : List ℕ) (s : Sources)
    → get_source key s ≡ none
    → get_source key (pop_sources window now s) ≡ none
unfolding get_source pop_sources
get_source-pop_none window now key [] h = refl
get_source-pop_none window now key ((k, ts) ∷ s) h =
    ground (arith, get_source-pop_none window now key s)

pub Distinct-pop : (window now : ℕ) (s : Sources) → Distinct s → Distinct (pop_sources window now s)
unfolding pop_sources
Distinct-pop window now [] d = tt
Distinct-pop window now ((k, ts) ∷ s) (n, d) =
    go (pop_expired window now ts) (Distinct-pop window now s d)
  where
    go :
        (us : List ℕ)
        → Distinct (pop_sources window now s)
        → Distinct (kept k us (pop_sources window now s))
    go [] r = r
    go (u ∷ us) r = (get_source-pop_none window now k s n, r)

-- Pruning the sources prunes what is kept for each.
pub held-pop :
    (window now last limit : ℕ) (key : List ℕ) (s : Sources)
    → Distinct s
    → Queues window limit last s
    → held key (pop_sources window now s) ≡ live window now (held key s)
unfolding pop_sources
held-pop window now last limit key [] d q = refl
held-pop window now last limit key ((k, ts) ∷ s) (n, d) (o, p, l, v, q) =
    rw (pop_expired-live window now last ts o)
      (go (live window now ts) refl (held-pop window now last limit key s d q))
  where
    go :
        (us : List ℕ)
        → live window now ts ≡ us
        → held key (pop_sources window now s) ≡ live window now (held key s)
        → held key (kept k us (pop_sources window now s))
          ≡ live window now (if bytes_eq k key then ts else held key s)
    go [] e ih = elim (Bool-cases (bytes_eq k key)) [
      | inl same ↦ rw same (
          held-none key (pop_sources window now s) (
            get_source-pop_none window now key s
              (subst (λ j. get_source j s ≡ none) ((bytes_eq_iff k key).0 same) n))
          ∙ sym e)
      | inr other ↦ rw other ih
    ]
    go (u ∷ us) e ih = ground arith

pub live_total-pop :
    (window now n last limit : ℕ) (s : Sources)
    → Queues window limit last s
    → now ≤ n
    → live_total window n (pop_sources window now s) ≡ live_total window n s
unfolding pop_sources
live_total-pop window now n last limit [] q h = refl
live_total-pop window now n last limit ((k, ts) ∷ s) (o, p, l, v, q) h =
    rw (pop_expired-live window now last ts o)
      (go (live window now ts) refl (live_total-pop window now n last limit s q h))
  where
    go :
        (us : List ℕ)
        → live window now ts ≡ us
        → live_total window n (pop_sources window now s) ≡ live_total window n s
        → live_total window n (kept k us (pop_sources window now s))
          ≡ length (live window n ts) + live_total window n s
    go [] e ih =
        omega (arith, ih, ap length (sym (live-live window now n ts h) ∙ ap (live window n) e))
    go (u ∷ us) e ih =
        omega (arith, ih, ap length (sym (live-live window now n ts h) ∙ ap (live window n) e))

pub Queues-pop :
    (window now last limit : ℕ) (s : Sources)
    → Queues window limit last s
    → last ≤ now
    → Queues window limit now (pop_sources window now s)
unfolding pop_sources
Queues-pop window now last limit [] q h = tt
Queues-pop window now last limit ((k, ts) ∷ s) (o, p, l, v, q) h =
    rw (pop_expired-live window now last ts o)
      (go (live window now ts) refl (Queues-pop window now last limit s q h))
  where
    go :
        (us : List ℕ)
        → live window now ts ≡ us
        → Queues window limit now (pop_sources window now s)
        → Queues window limit now (kept k us (pop_sources window now s))
    go [] e r = r
    go (u ∷ us) e r = (
      subst (λ q. Ordered q now) e (Ordered-later last now _ h (Ordered-live window now last ts o)),
      omega arith,
      omega (arith, ap length (sym e), length-live window now ts, l),
      subst (λ q. live window now q ≡ q) e (live-live window now now ts (omega arith)),
      r,
    )
