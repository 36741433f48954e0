-- ===== src/Guardrails/Admission.antt =====
-- The bounds of `ConnectionAdmission`.
use atvr4samsung.Common.{
  ℕ, ◌+◌, ◌≤◌, ◌<◌, ◌≡◌, refl, true, false, List, [], ◌∷◌, none, arith, length, leb, ◌==◌,
  if◌then◌else◌, Bool-cases, inl, inr,
}
use atvr4samsung.Guardrails.{
  contains, discard, add, ConnectionAdmission, new_admission, connection_count,
  unauthenticated_count, acquire, authenticated, release,
}

abbrev Unique : List ℕ → Type 0
Unique [] = Unit
Unique (x ∷ xs) = (contains x xs ≡ false) × Unique xs

-- Both sets hold a connection once and stay within their limits, and a connection that is not yet
-- authenticated is one of the connections.
pub record IsValid (a : ConnectionAdmission) : Type 0 where
  pub connections_unique : Unique a.connections
  pub unauthenticated_unique : Unique a.unauthenticated
  pub within : length a.connections ≤ a.max_connections
  pub unauthenticated_within : length a.unauthenticated ≤ a.max_unauthenticated
  pub subset : (c : ℕ) → contains c a.unauthenticated ≡ true → contains c a.connections ≡ true

contains-discard :
    (c x : ℕ) (xs : List ℕ) → contains c (discard x xs) ≡ (if x == c then false else contains c xs)
contains-discard c x [] = ground arith
contains-discard c x (y ∷ ys) = ground (arith, contains-discard c x ys)

length-discard : (x : ℕ) (xs : List ℕ) → length (discard x xs) ≤ length xs
length-discard x [] = omega arith
length-discard x (y ∷ ys) = ground (arith, length-discard x ys)

discard-absent : (x : ℕ) (xs : List ℕ) → contains x xs ≡ false → discard x xs ≡ xs
discard-absent x [] h = refl
discard-absent x (y ∷ ys) h = ground (arith, discard-absent x ys)

length-discard_one :
    (x : ℕ) (xs : List ℕ) → Unique xs → contains x xs ≡ true → length (discard x xs) + 1 ≡ length xs
length-discard_one x [] u h = cc
length-discard_one x (y ∷ ys) (n, u) h = elim (Bool-cases (x == y)) [
  | inl e ↦ rw e (rw (discard-absent x ys (ground arith)) (omega arith))
  | inr e ↦ rw e (omega (arith, length-discard_one x ys u (rw e at h)))
]

Unique-discard : (x : ℕ) (xs : List ℕ) → Unique xs → Unique (discard x xs)
Unique-discard x [] u = tt
Unique-discard x (y ∷ ys) (n, u) = elim (Bool-cases (x == y)) [
  | inl e ↦ rw e (Unique-discard x ys u)
  | inr e ↦ rw e (ground (arith, contains-discard y x ys), Unique-discard x ys u)
]

not_unauthenticated :
    (a : ConnectionAdmission) (c : ℕ)
    → IsValid a
    → contains c a.connections ≡ false
    → contains c a.unauthenticated ≡ false
not_unauthenticated a c v new = ground (arith, v.subset c)

admitted-IsValid :
    (a : ConnectionAdmission) (c : ℕ)
    → IsValid a
    → contains c a.connections ≡ false
    → leb a.max_connections (length a.connections) ≡ false
    → leb a.max_unauthenticated (length a.unauthenticated) ≡ false
    → IsValid
        (record a { connections = c ∷ a.connections; unauthenticated = add c a.unauthenticated })
admitted-IsValid a c v new room space = rw (not_unauthenticated a c v new) (record {
  connections_unique = (new, v.connections_unique);
  unauthenticated_unique = (not_unauthenticated a c v new, v.unauthenticated_unique);
  within = ground arith;
  unauthenticated_within = ground arith;
  subset = λ d h. ground (arith, v.subset d);
})

acquire-IsValid : (a : ConnectionAdmission) (c : ℕ) → IsValid a → IsValid (acquire a c).0
unfolding acquire
acquire-IsValid a c v = elim (Bool-cases (contains c a.connections)) [
  | inl held ↦ rw held v
  | inr new ↦ rw new (elim (Bool-cases (leb a.max_connections (length a.connections))) [
    | inl full ↦ rw full v
    | inr room ↦ rw room (elim (Bool-cases (leb a.max_unauthenticated (length a.unauthenticated))) [
      | inl full ↦ rw full v
      | inr space ↦ rw space (admitted-IsValid a c v new room space)
    ])
  ])
]

authenticated-IsValid : (a : ConnectionAdmission) (c : ℕ) → IsValid a → IsValid (authenticated a c)
unfolding authenticated
authenticated-IsValid a c v = record {
  connections_unique = v.connections_unique;
  unauthenticated_unique = Unique-discard c a.unauthenticated v.unauthenticated_unique;
  within = v.within;
  unauthenticated_within =
      omega (arith, v.unauthenticated_within, length-discard c a.unauthenticated);
  subset = λ d h. v.subset d (ground (arith, contains-discard d c a.unauthenticated));
}

release-IsValid : (a : ConnectionAdmission) (c : ℕ) → IsValid a → IsValid (release a c)
unfolding release
release-IsValid a c v = record {
  connections_unique = Unique-discard c a.connections v.connections_unique;
  unauthenticated_unique = Unique-discard c a.unauthenticated v.unauthenticated_unique;
  within = omega (arith, v.within, length-discard c a.connections);
  unauthenticated_within =
      omega (arith, v.unauthenticated_within, length-discard c a.unauthenticated);
  subset = λ d h. ground (
    arith,
    v.subset d,
    contains-discard d c a.unauthenticated,
    contains-discard d c a.connections,
  );
}

pub data Event : Type 0 where
  opened verified closed : ℕ → Event

-- What the server does with its one admission object as connections come, verify and go.
abbrev pub handle : ConnectionAdmission → Event → ConnectionAdmission
handle a (opened c) = (acquire a c).0
handle a (verified c) = authenticated a c
handle a (closed c) = release a c

abbrev pub handle_all : ConnectionAdmission → List Event → ConnectionAdmission
handle_all a [] = a
handle_all a (e ∷ es) = handle_all (handle a e) es

handle_all-IsValid :
    (es : List Event) (a : ConnectionAdmission) → IsValid a → IsValid (handle_all a es)
handle_all-IsValid [] a v = v
handle_all-IsValid (opened c ∷ es) a v = handle_all-IsValid es _ (acquire-IsValid a c v)
handle_all-IsValid (verified c ∷ es) a v = handle_all-IsValid es _ (authenticated-IsValid a c v)
handle_all-IsValid (closed c ∷ es) a v = handle_all-IsValid es _ (release-IsValid a c v)

-- After any sequence of opened, verified and closed connections, in any order and repeated at will,
-- the admission is valid: in particular both counts are within their limits.
pub admission-IsValid :
    (max_connections max_unauthenticated : ℕ) (es : List Event)
    → IsValid (handle_all (new_admission max_connections max_unauthenticated) es)
admission-IsValid m n es = handle_all-IsValid es (new_admission m n) (record {
  connections_unique = tt;
  unauthenticated_unique = tt;
  within = omega arith;
  unauthenticated_within = omega arith;
  subset = λ c h. cc;
})

-- Releasing a held connection lowers the count by one, and a second release changes nothing; then a
-- new connection is admitted, if there is room among those not yet authenticated.
pub release_frees :
    (a : ConnectionAdmission) (c d : ℕ)
    → IsValid a
    → contains c a.connections ≡ true
    → contains d a.connections ≡ false
    → unauthenticated_count a < a.max_unauthenticated
    → (connection_count (release a c) + 1 ≡ connection_count a)
      × (release (release a c) c ≡ release a c)
      × ((acquire (release a c) d).1 ≡ none)
unfolding connection_count unauthenticated_count release acquire
release_frees a c d v held new room = (
  length-discard_one c a.connections v.connections_unique held,
  cc (
    discard-absent c (discard c a.connections) (gone a.connections),
    discard-absent c (discard c a.unauthenticated) (gone a.unauthenticated),
  ),
  ground (
    arith,
    v.within,
    contains-discard d c a.connections,
    length-discard_one c a.connections v.connections_unique held,
    length-discard c a.unauthenticated,
  ),
)
  where
    gone : (xs : List ℕ) → contains c (discard c xs) ≡ false
    gone xs = ground (arith, contains-discard c c xs)
