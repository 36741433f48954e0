-- ===== src/Tlv8/Merge.antt =====
-- `read_tlv` on any input: it ends, its keys are distinct, and it fails only on a cut header.
use mathlib.Core.Path.{subst}
use atvr4samsung.Common.{
  ℕ, zero, suc, ◌≤◌, ◌≡◌, ◌≢◌, ◌⊎◌, refl, sym, ◌∙◌, List, [], ◌∷◌, ◌++◌, arith, length, take, drop,
  length-drop, append_assoc, append-nil, ◌==◌, if◌then◌else◌, Bool-cases, inl, inr,
}
use atvr4samsung.Tlv8.{ok, err, index_error, Dict, extend, parse, read_tlv}

-- The value bytes that a dict holds for a tag: none for a missing key.
abbrev pub value_of : ℕ → Dict → List ℕ
value_of tag [] = []
value_of tag ((k, v) ∷ d) = if k == tag then v else value_of tag d

-- No entry of the dict has the key.
abbrev pub Absent : ℕ → Dict → Type 0
Absent tag [] = Unit
Absent tag ((k, v) ∷ d) = (k ≢ tag) × Absent tag d

abbrev pub DistinctKeys : Dict → Type 0
DistinctKeys [] = Unit
DistinctKeys ((k, v) ∷ d) = Absent k d × DistinctKeys d

pub Absent-extend :
    (k tag : ℕ) (value : List ℕ) (d : Dict) → k ≢ tag → Absent k d → Absent k (extend tag value d)
unfolding extend
Absent-extend k tag value [] h a = ((λ e. h (sym e)), tt)
Absent-extend k tag value ((j, v) ∷ d) h (n, a) = elim (Bool-cases (j == tag)) [
  | inl same ↦ rw same (n, a)
  | inr other ↦ rw other (n, Absent-extend k tag value d h a)
]

DistinctKeys-extend :
    (tag : ℕ) (value : List ℕ) (d : Dict) → DistinctKeys d → DistinctKeys (extend tag value d)
unfolding extend
DistinctKeys-extend tag value [] h = (tt, tt)
DistinctKeys-extend tag value ((k, v) ∷ d) (a, h) = elim (Bool-cases (k == tag)) [
  | inl same ↦ rw same (a, h)
  | inr other ↦
      rw other (Absent-extend k tag value d (ground arith) a, DistinctKeys-extend tag value d h)
]

parse-DistinctKeys :
    (fuel : ℕ) (bytes : List ℕ) (d : Dict) {r : Dict}
    → DistinctKeys d
    → parse fuel bytes d ≡ ok r
    → DistinctKeys r
unfolding parse
parse-DistinctKeys fuel [] d h e = subst DistinctKeys (cc) h
parse-DistinctKeys zero (tag ∷ rest) d h e = cc
parse-DistinctKeys (suc fuel) (tag ∷ []) d h e = cc
parse-DistinctKeys (suc fuel) (tag ∷ len ∷ rest) d h e =
    parse-DistinctKeys fuel (drop len rest) (extend tag (take len rest) d)
      (DistinctKeys-extend tag (take len rest) d h) e

-- Whatever the input, a dict that `read_tlv` returns has one entry for each of its keys.
pub read_tlv-DistinctKeys : (bytes : List ℕ) {r : Dict} → read_tlv bytes ≡ ok r → DistinctKeys r
unfolding read_tlv
read_tlv-DistinctKeys bytes e = parse-DistinctKeys (length bytes) bytes [] tt e

-- More fuel than the input has bytes changes nothing.
pub parse_fuel :
    (f g : ℕ) (bytes : List ℕ) (d : Dict)
    → length bytes ≤ f
    → length bytes ≤ g
    → parse f bytes d ≡ parse g bytes d
unfolding parse
parse_fuel f g [] d hf hg = refl
parse_fuel zero g (tag ∷ rest) d hf hg = absurd (omega arith)
parse_fuel (suc f) zero (tag ∷ rest) d hf hg = absurd (omega arith)
parse_fuel (suc f) (suc g) (tag ∷ []) d hf hg = refl
parse_fuel (suc f) (suc g) (tag ∷ len ∷ rest) d hf hg =
    parse_fuel f g (drop len rest) (extend tag (take len rest) d)
      (omega (arith, length-drop len rest)) (omega (arith, length-drop len rest))

-- A fragment of a value: its tag and at most 255 of its bytes.
abbrev pub Fragments : Type 0
Fragments = List (ℕ × List ℕ)

-- The bytes that a tag's fragments hold, in order.
abbrev pub joined : ℕ → Fragments → List ℕ
joined tag [] = []
joined tag ((k, v) ∷ fs) = if k == tag then v ++ joined tag fs else joined tag fs

-- How a message splits into fragments; only the last value may be shorter than its length says.
pub data Splits : List ℕ → Fragments → Type 0 where
  done : Splits [] []
  next :
      {tag len : ℕ} {rest : List ℕ} {fs : Fragments}
      → Splits (drop len rest) fs
      → Splits (tag ∷ len ∷ rest) ((tag, take len rest) ∷ fs)

value_of-extend :
    (tag k : ℕ) (value : List ℕ) (d : Dict)
    → value_of tag (extend k value d)
      ≡ (if k == tag then value_of tag d ++ value else value_of tag d)
unfolding extend
value_of-extend tag k value [] = ground arith
value_of-extend tag k value ((j, v) ∷ d) = ground (arith, value_of-extend tag k value d)

parse-Splits :
    (fuel : ℕ) (bytes : List ℕ) (d : Dict) {fs : Fragments}
    → length bytes ≤ fuel
    → Splits bytes fs
    → (r : Dict) × (parse fuel bytes d ≡ ok r)
      × ((tag : ℕ) → value_of tag r ≡ value_of tag d ++ joined tag fs)
unfolding parse
parse-Splits fuel bytes d h done = (d, refl, λ tag. sym (append-nil (value_of tag d)))
parse-Splits zero bytes d h (next s) = absurd (omega arith)
parse-Splits (suc fuel) bytes d h (next {tag} {len} {rest} {fs} s) =
    let (r, e, v) =
      parse-Splits fuel (drop len rest) (extend tag (take len rest) d)
        (omega (arith, length-drop len rest)) s in
    (r, e, λ k. v k ∙ step k)
  where
    step :
        (k : ℕ)
        → value_of k (extend tag (take len rest) d) ++ joined k fs
          ≡ value_of k d ++ joined k ((tag, take len rest) ∷ fs)
    step k =
        rw value_of-extend
          (ground (arith, append_assoc (value_of k d) (take len rest) (joined k fs)))

-- On a message that splits into fragments `read_tlv` succeeds, and each tag's value is the
-- concatenation of that tag's fragments in the order of the message.
pub read_tlv-Splits :
    (bytes : List ℕ) {fs : Fragments}
    → Splits bytes fs
    → (r : Dict) × (read_tlv bytes ≡ ok r) × ((tag : ℕ) → value_of tag r ≡ joined tag fs)
unfolding read_tlv
read_tlv-Splits bytes s = parse-Splits (length bytes) bytes [] (omega arith) s

-- A message that ends after a tag, behind any number of whole fragments.
pub data Cut : List ℕ → Type 0 where
  cut : {tag : ℕ} → Cut (tag ∷ [])
  behind : {tag len : ℕ} {rest : List ℕ} → Cut (drop len rest) → Cut (tag ∷ len ∷ rest)

parse-Cut :
    (fuel : ℕ) (bytes : List ℕ) (d : Dict)
    → length bytes ≤ fuel
    → Cut bytes
    → parse fuel bytes d ≡ err index_error
unfolding parse
parse-Cut zero bytes d h cut = absurd (omega arith)
parse-Cut (suc fuel) bytes d h cut = refl
parse-Cut zero bytes d h (behind c) = absurd (omega arith)
parse-Cut (suc fuel) bytes d h (behind {tag} {len} {rest} c) =
    parse-Cut fuel (drop len rest) (extend tag (take len rest) d)
      (omega (arith, length-drop len rest)) c

Splits-or-Cut :
    (fuel : ℕ) (bytes : List ℕ)
    → length bytes ≤ fuel
    → ((fs : Fragments) × Splits bytes fs) ⊎ Cut bytes
Splits-or-Cut fuel [] h = inl ([], done)
Splits-or-Cut zero (tag ∷ rest) h = absurd (omega arith)
Splits-or-Cut (suc fuel) (tag ∷ []) h = inr cut
Splits-or-Cut (suc fuel) (tag ∷ len ∷ rest) h =
    elim (Splits-or-Cut fuel (drop len rest) (omega (arith, length-drop len rest))) [
      | inl (fs, s) ↦ inl ((tag, take len rest) ∷ fs, next s)
      | inr c ↦ inr (behind c)
    ]

-- Every message either splits into fragments, and then `read_tlv` returns a dict with the joined
-- fragments of each tag, or it ends after a tag, and then `read_tlv` raises IndexError; within Python's
-- recursion limit, which is left out.
pub read_tlv-cases :
    (bytes : List ℕ)
    → ((fs : Fragments) × Splits bytes fs
        × (r : Dict) × (read_tlv bytes ≡ ok r)
        × ((tag : ℕ) → value_of tag r ≡ joined tag fs))
      ⊎ (Cut bytes × (read_tlv bytes ≡ err index_error))
unfolding read_tlv
read_tlv-cases bytes = elim (Splits-or-Cut (length bytes) bytes (omega arith)) [
  | inl (fs, s) ↦ let (r, e, v) = read_tlv-Splits bytes s in inl (fs, s, r, e, v)
  | inr c ↦ inr (c, parse-Cut (length bytes) bytes [] (omega arith) c)
]
