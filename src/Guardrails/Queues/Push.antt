-- ===== src/Guardrails/Queues/Push.antt =====
-- `push_source`: what a new time of one source changes.
use mathlib.Core.Path.{subst}
use atvr4samsung.Common.{
  ℕ, ◌+◌, ◌<◌, ◌≡◌, refl, ap, ◌∙◌, true, false, List, [], ◌∷◌, ◌++◌, none, some, arith, length,
  length-append, leb, if◌then◌else◌, Bool-cases, Option-cases, inl, inr,
}
use atvr4samsung.Common.Bytes.{bytes_eq, bytes_eq_iff, bytes_eq_refl}
use atvr4samsung.Guardrails.{Sources, get_source, remove_source, push_source}
use atvr4samsung.Guardrails.Queues.{live, Ordered, Ordered-snoc, live-append}
use atvr4samsung.Guardrails.Queues.PerSource.{
  live_total, Distinct, Queues, held, held-get_source, held-none, live_total-append,
  live_total-remove, get_source-append, get_source-remove,
}

held-append :
    (key : List ℕ) (s t : Sources) → (get_source key s ≡ none) → held key (s ++ t) ≡ held key t
unfolding get_source
held-append key [] t h = refl
held-append key ((k, ts) ∷ s) t h = ground (arith, held-append key s t)

held-append_other :
    (key k : List ℕ) (ts : List ℕ) (s : Sources)
    → bytes_eq k key ≡ false
    → held key (s ++ ((k, ts) ∷ [])) ≡ held key s
held-append_other key k ts [] h = ground arith
held-append_other key k ts ((j, us) ∷ s) h = ground (arith, held-append_other key k ts s h)

held-remove_other :
    (key k : List ℕ) (s : Sources)
    → bytes_eq k key ≡ false
    → held key (remove_source k s) ≡ held key s
unfolding remove_source
held-remove_other key k [] h = refl
held-remove_other key k ((j, us) ∷ s) h =
    ground
      (arith, held-remove_other key k s h, bytes_eq_iff j k, bytes_eq_iff j key, bytes_eq_iff k key)

-- With room for a new source, the time joins those of its source, and the others keep theirs.
pub held-push :
    (max_sources now : ℕ) (key j : List ℕ) (s : Sources)
    → length s < max_sources
    → held j (push_source max_sources key now s (get_source key s))
      ≡ (if bytes_eq key j then held j s ++ (now ∷ []) else held j s)
unfolding push_source
held-push max_sources now key j s room = elim (Option-cases (get_source key s)) [
  | inl e ↦ rw e (
      rw (le→ltb_leb room) (elim (Bool-cases (bytes_eq key j)) [
        | inl same ↦ rw same (
            held-append j s ((key, now ∷ []) ∷ []) (at_key same s e)
            ∙ rw same (rw (held-none j s (at_key same s e))))
        | inr other ↦ rw other (held-append_other j key (now ∷ []) s other)
      ]))
  | inr (ts, e) ↦ rw e (elim (Bool-cases (bytes_eq key j)) [
    | inl same ↦ rw same (
        held-append j (remove_source key s) ((key, ts ++ (now ∷ [])) ∷ [])
          (get_source-remove j key s ∙ rw same)
        ∙ rw same (
            rw (
              held-get_source j s ts
                (subst (λ k. get_source k s ≡ some ts) ((bytes_eq_iff key j).0 same) e))))
    | inr other ↦ rw other (
        held-append_other j key (ts ++ (now ∷ [])) (remove_source key s) other
        ∙ held-remove_other j key s other)
  ])
]
  where
    at_key : bytes_eq key j ≡ true → (s : Sources) → get_source key s ≡ none → get_source j s ≡ none
    at_key same s e = subst (λ k. get_source k s ≡ none) ((bytes_eq_iff key j).0 same) e

    le→ltb_leb : length s < max_sources → leb max_sources (length s) ≡ false
    le→ltb_leb h = ground arith

Distinct-append :
    (key ts : List ℕ) (s : Sources)
    → Distinct s
    → get_source key s ≡ none
    → Distinct (s ++ ((key, ts) ∷ []))
unfolding get_source
Distinct-append key ts [] d h = (refl, tt)
Distinct-append key ts ((k, us) ∷ s) (n, d) h = (
  get_source-append k s ((key, ts) ∷ [])
      ∙ rw n (ground (arith, bytes_eq_iff key k, bytes_eq_iff k key)),
  Distinct-append key ts s d (ground arith),
)

Distinct-remove : (key : List ℕ) (s : Sources) → Distinct s → Distinct (remove_source key s)
unfolding remove_source
Distinct-remove key [] d = tt
Distinct-remove key ((k, us) ∷ s) (n, d) = elim (Bool-cases (bytes_eq k key)) [
  | inl e ↦ rw e (Distinct-remove key s d)
  | inr e ↦ rw e (get_source-remove k key s ∙ ground arith, Distinct-remove key s d)
]

Queues-append :
    (window limit last : ℕ) (s t : Sources)
    → Queues window limit last s
    → Queues window limit last t
    → Queues window limit last (s ++ t)
Queues-append window limit last [] t q r = r
Queues-append window limit last ((k, ts) ∷ s) t (o, p, l, v, q) r =
    (o, p, l, v, Queues-append window limit last s t q r)

Queues-remove :
    (window limit last : ℕ) (key : List ℕ) (s : Sources)
    → Queues window limit last s
    → Queues window limit last (remove_source key s)
unfolding remove_source
Queues-remove window limit last key [] q = tt
Queues-remove window limit last key ((k, ts) ∷ s) (o, p, l, v, q) =
    elim (Bool-cases (bytes_eq k key)) [
      | inl e ↦ rw e (Queues-remove window limit last key s q)
      | inr e ↦ rw e (o, p, l, v, Queues-remove window limit last key s q)
    ]

Queues-get :
    (window limit last : ℕ) (key : List ℕ) (s : Sources) (ts : List ℕ)
    → Queues window limit last s
    → get_source key s ≡ some ts
    → Ordered ts last × (live window last ts ≡ ts)
unfolding get_source
Queues-get window limit last key [] ts q h = cc
Queues-get window limit last key ((k, us) ∷ s) ts (o, p, l, v, q) h =
    elim (Bool-cases (bytes_eq k key)) [
      | inl e ↦ subst (λ q. Ordered q last × (live window last q ≡ q)) (ground arith) (o, v)
      | inr e ↦ Queues-get window limit last key s ts q (ground arith)
    ]

-- What `push_source` keeps, while there is room for a new source and the source has room for a time.
pub Distinct-push :
    (max_sources now : ℕ) (key : List ℕ) (s : Sources)
    → length s < max_sources
    → Distinct s
    → Distinct (push_source max_sources key now s (get_source key s))
unfolding push_source
Distinct-push max_sources now key s room d = elim (Option-cases (get_source key s)) [
  | inl e ↦ rw e (rw (not_full room) (Distinct-append key (now ∷ []) s d e))
  | inr (ts, e) ↦ rw e (
      Distinct-append key (ts ++ (now ∷ [])) (remove_source key s) (Distinct-remove key s d)
        (get_source-remove key key s ∙ rw (bytes_eq_refl key)))
]
  where
    not_full : length s < max_sources → leb max_sources (length s) ≡ false
    not_full h = ground arith

pub live_total-push :
    (window n max_sources now : ℕ) (key : List ℕ) (s : Sources)
    → length s < max_sources
    → Distinct s
    → live_total window n (push_source max_sources key now s (get_source key s))
      ≡ live_total window n s + length (live window n (now ∷ []))
unfolding push_source
live_total-push window n max_sources now key s room d = elim (Option-cases (get_source key s)) [
  | inl e ↦
      rw e (rw (not_full room) (live_total-append window n s ((key, now ∷ []) ∷ []) ∙ omega arith))
  | inr (ts, e) ↦ rw e (
      live_total-append window n (remove_source key s) ((key, ts ++ (now ∷ [])) ∷ [])
      ∙ omega (
        arith,
        live_total-remove window n key s ts d e,
        ap length (live-append window n ts (now ∷ [])),
        length-append (live window n ts) (live window n (now ∷ [])),
      ))
]
  where
    not_full : length s < max_sources → leb max_sources (length s) ≡ false
    not_full h = ground arith

pub Queues-push :
    (window limit max_sources now : ℕ) (key : List ℕ) (s : Sources)
    → length s < max_sources
    → 0 < window
    → length (held key s) < limit
    → Queues window limit now s
    → Queues window limit now (push_source max_sources key now s (get_source key s))
unfolding push_source
Queues-push window limit max_sources now key s room w fits q =
    elim (Option-cases (get_source key s)) [
      | inl e ↦ rw e (
          rw (not_full room) (
            Queues-append window limit now s ((key, now ∷ []) ∷ []) q
              (omega arith, omega arith, omega (arith, fits), fresh, tt)))
      | inr (ts, e) ↦
          let (o, v) = Queues-get window limit now key s ts q e in
          rw e (
            Queues-append window limit now (remove_source key s) ((key, ts ++ (now ∷ [])) ∷ [])
              (Queues-remove window limit now key s q)
              (
                Ordered-snoc now now ts (omega arith) o,
                omega (arith, length-append ts (now ∷ [])),
                omega (arith, length-append ts (now ∷ []), ap length (held-get_source key s ts e)),
                live-append window now ts (now ∷ []) ∙ rw v (rw fresh),
                tt,
              ))
    ]
  where
    not_full : length s < max_sources → leb max_sources (length s) ≡ false
    not_full h = ground arith

    fresh : live window now (now ∷ []) ≡ now ∷ []
    fresh = ground arith
