-- ===== src/Enrollment/Drawing.antt =====
-- The draw of a PIN ends with the first strong one.
use atvr4samsung.Common.{
  ℕ, ◌+◌, ◌/◌, ◌%◌, ◌<◌, ◌==◌, ◌≡◌, refl, ap, Bool, true, false, not, ◌&&◌, ◌||◌, List, [], ◌∷◌,
  ◌++◌, Option, none, some, All, arith, length, if◌then◌else◌,
}
use atvr4samsung.Common.Options.{◌>>=◌}
use atvr4samsung.Enrollment.{
  Digits, is_strong_window_pin, all_pairs, all_digits, is_in, is_repeated, weak_pins,
  window_pin_length,
}
use atvr4samsung.Enrollment.Opening.{Drawn, drew, failed, format_pin, generate_window_pin}

abbrev pub IsSome : Option Bool → Type 0
IsSome none = ⊥
IsSome (some b) = Unit

-- `int` of the ten ASCII digits
abbrev pub ReadsAscii : Digits → Type 0
ReadsAscii d = (k : ℕ) → k < 10 → d.int_of (48 + k) ≡ some k

abbrev Readable : Digits → ℕ → Type 0
Readable d c = (k : ℕ) × (d.int_of c ≡ some k)

all_pairs-IsSome :
    (d : Digits) (follows : ℕ → ℕ → Bool) (cs : List ℕ)
    → All (Readable d) cs
    → IsSome (all_pairs d follows cs)
unfolding all_pairs
all_pairs-IsSome d follows [] h = tt
all_pairs-IsSome d follows (c ∷ []) h = tt
all_pairs-IsSome d follows (c ∷ n ∷ cs) ((a, p), ((b, q), h)) =
    rw p (rw q (more (follows a b) (all_pairs-IsSome d follows (n ∷ cs) ((b, q), h))))
  where
    more :
        (t : Bool)
        → IsSome (all_pairs d follows (n ∷ cs))
        → IsSome (if t then all_pairs d follows (n ∷ cs) else some false)
    more true r = r
    more false r = tt

is_strong-IsSome :
    (d : Digits) (pin : List ℕ) → All (Readable d) pin → IsSome (is_strong_window_pin d pin)
unfolding is_strong_window_pin
is_strong-IsSome d pin h =
    either (not (all_digits d pin && length pin == window_pin_length)) _ _ tt (
      either (is_in pin weak_pins || is_repeated pin) _ _ tt (
        both (all_pairs d (λ a b. a + 1 == b) pin) (all_pairs d (λ a b. a == b + 1) pin)
          (all_pairs-IsSome d (λ a b. a + 1 == b) pin h)
          (all_pairs-IsSome d (λ a b. a == b + 1) pin h)))
  where
    either : (t : Bool) (x y : Option Bool) → IsSome x → IsSome y → IsSome (if t then x else y)
    either true x y p q = p
    either false x y p q = q

    both :
        (x y : Option Bool)
        → IsSome x
        → IsSome y
        → IsSome (do ascending ← x; descending ← y; some (not ascending && not descending))
    both none y p q = p
    both (some a) none p q = q
    both (some a) (some b) p q = tt

format_pin-Readable : (d : Digits) (n : ℕ) → ReadsAscii d → All (Readable d) (format_pin n)
format_pin-Readable d n law = (digit (n / 1000), (digit (n / 100), (digit (n / 10), (digit n, tt))))
  where
    digit : (m : ℕ) → Readable d (48 + m % 10)
    digit m = (m % 10, law (m % 10) (omega arith))

-- What the loop passes over and returns of some draws: weak PINs, then the first strong one.
abbrev pub FirstStrong : Digits → List ℕ → List ℕ → List ℕ → Type 0
FirstStrong d draws pin rest =
    (weak : List ℕ) × (m : ℕ) × (draws ≡ weak ++ m ∷ rest)
    × All (λ k. is_strong_window_pin d (format_pin k) ≡ some false) weak
    × (is_strong_window_pin d (format_pin m) ≡ some true)
    × (pin ≡ format_pin m)

-- Where `int` reads the ASCII digits and a strong PIN is drawn at some time, however many weak PINs
-- come first, the loop ends without raising: it passes over weak PINs only, returns the first strong
-- one, and leaves exactly the draws behind it.
pub generate_window_pin-drew :
    (d : Digits) (before after : List ℕ) (n : ℕ)
    → ReadsAscii d
    → is_strong_window_pin d (format_pin n) ≡ some true
    → (pin : List ℕ) × (rest : List ℕ) × (generate_window_pin d (before ++ n ∷ after)
        ≡ drew pin rest)
      × FirstStrong d (before ++ n ∷ after) pin rest
unfolding generate_window_pin
generate_window_pin-drew d [] after n law e =
    (format_pin n, after, rw (e, generate_window_pin) refl, ([], n, refl, tt, e, refl))
generate_window_pin-drew d (m ∷ before) after n law e =
    checked (is_strong_window_pin d (format_pin m)) refl
      (is_strong-IsSome d (format_pin m) (format_pin-Readable d m law))
      (generate_window_pin-drew d before after n law e)
  where
    Ends : List ℕ → Drawn (List ℕ) ℕ → Type 0
    Ends draws r =
        (pin : List ℕ) × (rest : List ℕ) × (r ≡ drew pin rest) × FirstStrong d draws pin rest

    checked :
        (o : Option Bool)
        → is_strong_window_pin d (format_pin m) ≡ o
        → IsSome o
        → Ends (before ++ n ∷ after) (generate_window_pin d (before ++ n ∷ after))
        → Ends (m ∷ before ++ n ∷ after) (elim o [
          | none ↦ failed
          | some true ↦ drew (format_pin m) (before ++ n ∷ after)
          | some false ↦ generate_window_pin d (before ++ n ∷ after)
        ])
    checked none p s r = absurd s
    checked (some true) p s r =
        (format_pin m, before ++ n ∷ after, refl, ([], m, refl, tt, p, refl))
    checked (some false) p s (pin, rest, q, (weak, k, split, all, strong, same)) =
        (pin, rest, q, (m ∷ weak, k, ap (λ ds. m ∷ ds) split, (p, all), strong, same))
