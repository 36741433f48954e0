-- ===== src/Tlv8/RoundTrip.antt =====
-- `read_tlv` after `write_tlv`.
use mathlib.Core.Path.{subst}
use native.Mathlib.Decide.{dec_lt}
use atvr4samsung.Common.{
  ℕ, zero, suc, ◌+◌, ◌-◌, ◌≤◌, ◌<◌, ◌≡◌, ◌≢◌, min, refl, sym, ap, ◌∙◌, List, [], ◌∷◌, ◌++◌, arith,
  length, take, drop, length-drop, length-take, length-append, take-append, drop-append,
  take-append-drop, take_all, drop_all, drop-drop, append_assoc, append-nil, lt→ltb, le→ltb,
}
use atvr4samsung.Tlv8.{
  Result, ok, err, value_error, Dict, extend, parse, read_tlv, write_value, write_items, write_tlv,
}
use atvr4samsung.Tlv8.Merge.{Absent, DistinctKeys, parse_fuel}

-- The fragments of a value: chunks of 255 bytes and a shorter one, none for an empty value.
chunks : ℕ → ℕ → List ℕ → List ℕ
chunks zero tag value = []
chunks (suc fuel) tag [] = []
chunks (suc fuel) tag (x ∷ xs) =
    let size = min (length (x ∷ xs)) 255 in
    tag ∷ size ∷ (take size (x ∷ xs) ++ chunks fuel tag (drop size (x ∷ xs)))

-- One round of the loop that meets more input.
write_value_round :
    (fuel tag : ℕ) (value : List ℕ) (pos len : ℕ) (tlv : List ℕ)
    → pos < length value
    → write_value (suc fuel) tag value pos len tlv
      ≡ write_value fuel tag value
          (pos + min len 255)
          (len - min len 255)
          (tlv ++ (tag ∷ min len 255 ∷ take (min len 255) (drop pos value)))
unfolding write_value
write_value_round fuel tag value pos len tlv h = rw (lt→ltb pos (length value) h)

write_value_end :
    (fuel tag : ℕ) (value : List ℕ) (pos len : ℕ) (tlv : List ℕ)
    → length value ≤ pos
    → write_value fuel tag value pos len tlv ≡ ok tlv
unfolding write_value
write_value_end zero tag value pos len tlv h = rw (le→ltb pos (length value) h)
write_value_end (suc fuel) tag value pos len tlv h = rw (le→ltb pos (length value) h)

chunks_round :
    (fuel tag x : ℕ) (xs : List ℕ)
    → chunks (suc fuel) tag (x ∷ xs)
      ≡ tag
        ∷ min (length (x ∷ xs)) 255
        ∷ (take (min (length (x ∷ xs)) 255) (x ∷ xs)
            ++ chunks fuel tag (drop (min (length (x ∷ xs)) 255) (x ∷ xs)))
unfolding chunks
chunks_round fuel tag x xs = refl

chunks_end : (fuel tag : ℕ) → chunks fuel tag [] ≡ []
unfolding chunks
chunks_end zero tag = refl
chunks_end (suc fuel) tag = refl

-- The loop writes the chunks of what is left of the value.
write_value-chunks :
    (fuel tag : ℕ) (value : List ℕ) (pos : ℕ) (tlv left : List ℕ)
    → drop pos value ≡ left
    → length left ≤ fuel
    → write_value fuel tag value pos (length left) tlv ≡ ok (tlv ++ chunks fuel tag left)
write_value-chunks fuel tag value pos tlv [] e h =
    write_value_end fuel tag value pos 0 tlv (omega (arith, length-drop pos value, ap length e))
    ∙ rw chunks_end (rw append-nil)
write_value-chunks zero tag value pos tlv (x ∷ xs) e h = absurd (omega arith)
write_value-chunks (suc fuel) tag value pos tlv (x ∷ xs) e h =
    write_value_round fuel tag value pos (length left) tlv
      (omega (arith, length-drop pos value, ap length e))
    ∙ rw e (
        rw (sym (length-drop size left)) (
          write_value-chunks fuel tag value (pos + size) (tlv ++ head) (drop size left)
            (sym (drop-drop size pos value) ∙ ap (drop size) e)
            (omega (arith, length-drop size left))))
    ∙ ap ok (append_assoc tlv head (chunks fuel tag (drop size left)))
    ∙ unfold chunks in refl
  where
    left : List ℕ
    left = x ∷ xs

    size : ℕ
    size = min (length left) 255

    head : List ℕ
    head = tag ∷ size ∷ take size left

-- What a whole dict is written as.
abbrev written : Dict → List ℕ
written [] = []
written ((k, v) ∷ d) = chunks (length v) k v ++ written d

abbrev pub KeysAreBytes : Dict → Type 0
KeysAreBytes [] = Unit
KeysAreBytes ((k, v) ∷ d) = (k < 256) × KeysAreBytes d

write_items-written :
    (d : Dict) (tlv : List ℕ) → KeysAreBytes d → write_items d tlv ≡ ok (tlv ++ written d)
unfolding write_items
write_items-written [] tlv h = rw append-nil
write_items-written ((k, v) ∷ d) tlv (hk, h) = rw (lt→ltb k 256 hk) (
    rw (write_value-chunks (length v) k v 0 tlv v refl (omega arith)) (
      write_items-written d (tlv ++ chunks (length v) k v) h
      ∙ ap ok (append_assoc tlv (chunks (length v) k v) (written d))))

-- `parse` with as much fuel as there are bytes.
abbrev parse_all : List ℕ → Dict → Result Dict
parse_all bytes d = parse (length bytes) bytes d

parse_round :
    (fuel tag len : ℕ) (rest : List ℕ) (d : Dict)
    → parse (suc fuel) (tag ∷ len ∷ rest) d
      ≡ parse fuel (drop len rest) (extend tag (take len rest) d)
unfolding parse
parse_round fuel tag len rest d = refl

parse_record :
    (tag len : ℕ) (value rest : List ℕ) (d : Dict)
    → length value ≡ len
    → parse_all (tag ∷ len ∷ (value ++ rest)) d ≡ parse_all rest (extend tag value d)
parse_record tag len value rest d h =
    parse_round (suc (length (value ++ rest))) tag len (value ++ rest) d
    ∙ rw (take-append len value rest h) (
        rw (drop-append len value rest h) (
          parse_fuel _ (length rest) rest (extend tag value d)
            (omega (arith, length-append value rest)) (omega arith)))

extend-extend :
    (tag : ℕ) (v w : List ℕ) (d : Dict) → extend tag w (extend tag v d) ≡ extend tag (v ++ w) d
unfolding extend
extend-extend tag v w [] = ground arith
extend-extend tag v w ((k, u) ∷ d) = ground (arith, extend-extend tag v w d, append_assoc u v w)

-- The chunks of a value that is not empty read as one extension by the whole value.
parse-chunks :
    (fuel tag : ℕ) (value rest : List ℕ) (d : Dict)
    → 0 < length value
    → length value ≤ fuel
    → parse_all (chunks fuel tag value ++ rest) d ≡ parse_all rest (extend tag value d)
parse-chunks zero tag value rest d p h = absurd (omega arith)
parse-chunks (suc fuel) tag [] rest d p h = absurd (omega arith)
parse-chunks (suc fuel) tag (x ∷ xs) rest d p h =
    ap (λ bytes. parse_all bytes d) regroup
    ∙ parse_record tag size (take size left) (chunks fuel tag (drop size left) ++ rest) d
        (length-take size left ∙ omega arith)
    ∙ elim (dec_lt 0 (length (drop size left))) [
      | yes more ↦
          parse-chunks fuel tag (drop size left) rest (extend tag (take size left) d) more
            (omega (arith, length-drop size left))
          ∙ rw extend-extend (rw take-append-drop)
      | no end ↦ last (omega (arith, length-drop size left))
    ]
  where
    left : List ℕ
    left = x ∷ xs

    size : ℕ
    size = min (length left) 255

    unfolded :
        chunks (suc fuel) tag left
        ≡ tag ∷ size ∷ (take size left ++ chunks fuel tag (drop size left))
    unfolded = chunks_round fuel tag x xs

    regroup :
        chunks (suc fuel) tag left ++ rest
        ≡ tag ∷ size ∷ (take size left ++ (chunks fuel tag (drop size left) ++ rest))
    regroup =
        ap (λ t. t ++ rest) (unfolded)
        ∙ ap (λ (t : List ℕ). tag ∷ size ∷ t)
            (append_assoc (take size left) (chunks fuel tag (drop size left)) rest)

    last :
        length left ≤ size
        → parse_all (chunks fuel tag (drop size left) ++ rest) (extend tag (take size left) d)
          ≡ parse_all rest (extend tag left d)
    last e = rw (drop_all size left e) (rw (take_all size left e) (rw chunks_end))

extend-Absent :
    (tag : ℕ) (value : List ℕ) (d : Dict)
    → Absent tag d
    → extend tag value d ≡ d ++ ((tag, value) ∷ [])
unfolding extend
extend-Absent tag value [] h = refl
extend-Absent tag value ((k, v) ∷ d) (n, h) = ground (arith, extend-Absent tag value d h)

-- The entries that `write_tlv` writes anything for.
abbrev pub non_empty : Dict → Dict
non_empty [] = []
non_empty ((k, []) ∷ d) = non_empty d
non_empty ((k, x ∷ v) ∷ d) = (k, x ∷ v) ∷ non_empty d

Absent-middle : (k : ℕ) (v : List ℕ) (d e : Dict) → DistinctKeys (d ++ ((k, v) ∷ e)) → Absent k d
Absent-middle k v [] e h = tt
Absent-middle k v ((j, w) ∷ d) e (a, h) = (apart d a, Absent-middle k v d e h)
  where
    apart : (d : Dict) → Absent j (d ++ ((k, v) ∷ e)) → j ≢ k
    apart [] (n, _) = λ p. n (sym p)
    apart (_ ∷ d) (_, m) = apart d m

Absent-remove :
    (j k : ℕ) (v : List ℕ) (d e : Dict) → Absent j (d ++ ((k, v) ∷ e)) → Absent j (d ++ e)
Absent-remove j k v [] e (n, a) = a
Absent-remove j k v ((i, w) ∷ d) e (n, a) = (n, Absent-remove j k v d e a)

DistinctKeys-remove :
    (k : ℕ) (v : List ℕ) (d e : Dict) → DistinctKeys (d ++ ((k, v) ∷ e)) → DistinctKeys (d ++ e)
DistinctKeys-remove k v [] e (a, h) = h
DistinctKeys-remove k v ((j, w) ∷ d) e (a, h) =
    (Absent-remove j k v d e a, DistinctKeys-remove k v d e h)

parse-written :
    (items d : Dict)
    → DistinctKeys (d ++ items)
    → parse_all (written items) d ≡ ok (d ++ non_empty items)
parse-written [] d h = rw append-nil (unfold parse in refl)
parse-written ((k, []) ∷ items) d h =
    rw chunks_end (parse-written items d (DistinctKeys-remove k [] d items h))
parse-written ((k, x ∷ v) ∷ items) d h =
    parse-chunks (length (x ∷ v)) k (x ∷ v) (written items) d (omega arith) (omega arith)
    ∙ rw (extend-Absent k (x ∷ v) d (Absent-middle k (x ∷ v) d items h)) (
        parse-written items (d ++ ((k, x ∷ v) ∷ []))
          (subst DistinctKeys (sym (append_assoc d ((k, x ∷ v) ∷ []) items)) h)
        ∙ ap ok (append_assoc d ((k, x ∷ v) ∷ []) (non_empty items)))

-- For a dict with distinct keys that are bytes, `write_tlv` succeeds, and `read_tlv` reads back
-- every entry in its order, except those with an empty value, which are not written at all.
pub read_tlv-write_tlv :
    (d : Dict)
    → KeysAreBytes d
    → DistinctKeys d
    → (bytes : List ℕ) × (write_tlv d ≡ ok bytes) × (read_tlv bytes ≡ ok (non_empty d))
unfolding write_tlv read_tlv
read_tlv-write_tlv d kb dk = (written d, write_items-written d [] kb, parse-written d [] dk)

write_items-value_error :
    (d e : Dict) (k : ℕ) (v tlv : List ℕ)
    → KeysAreBytes d
    → 256 ≤ k
    → write_items (d ++ ((k, v) ∷ e)) tlv ≡ err value_error
unfolding write_items
write_items-value_error [] e k v tlv h g = rw (le→ltb k 256 g)
write_items-value_error ((j, w) ∷ d) e k v tlv (hj, h) g = rw (lt→ltb j 256 hj) (
    rw (write_value-chunks (length w) j w 0 tlv w refl (omega arith))
      (write_items-value_error d e k v _ h g))

-- A key above 255 anywhere in the dict makes `write_tlv` fail with a ValueError.
pub write_tlv-value_error :
    (d e : Dict) (k : ℕ) (v : List ℕ)
    → KeysAreBytes d
    → 256 ≤ k
    → write_tlv (d ++ ((k, v) ∷ e)) ≡ err value_error
unfolding write_tlv
write_tlv-value_error d e k v h g = write_items-value_error d e k v [] h g
