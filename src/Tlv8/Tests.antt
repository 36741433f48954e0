-- ===== src/Tlv8/Tests.antt =====
-- Runs of the codec, and its theorems at concrete messages.
use atvr4samsung.Common.{ℕ, ◌≡◌, refl, List, [], ◌∷◌, ◌⊎◌, arith}
use atvr4samsung.Tlv8.{ok, err, index_error, Dict, read_tlv, write_tlv}
use atvr4samsung.Tlv8.Merge.{
  value_of, joined, Fragments, Splits, Cut, done, next, read_tlv-Splits, read_tlv-cases,
}
use atvr4samsung.Tlv8.RoundTrip.{non_empty, read_tlv-write_tlv}

-- Tag 6 in two fragments, tag 3 between them.
abbrev message : List ℕ
message = 6 ∷ 1 ∷ 10 ∷ 3 ∷ 2 ∷ 7 ∷ 8 ∷ 6 ∷ 1 ∷ 11 ∷ []

read-message : read_tlv message ≡ ok ((6, 10 ∷ 11 ∷ []) ∷ (3, 7 ∷ 8 ∷ []) ∷ [])
unfolding read_tlv
read-message = refl

-- The tag of a second fragment, without its length.
abbrev cut_message : List ℕ
cut_message = 6 ∷ 1 ∷ 10 ∷ 6 ∷ []

read_cut : read_tlv cut_message ≡ err index_error
unfolding read_tlv
read_cut = refl

abbrev reply : Dict
reply = (6, 2 ∷ []) ∷ (2, []) ∷ (3, 7 ∷ 8 ∷ []) ∷ []

write-reply : write_tlv reply ≡ ok (6 ∷ 1 ∷ 2 ∷ 3 ∷ 2 ∷ 7 ∷ 8 ∷ [])
unfolding write_tlv
write-reply = refl

read_tlv-Splits_example :
    (r : Dict) × (read_tlv message ≡ ok r)
    × ((tag : ℕ) → value_of tag r ≡ joined tag ((6, 10 ∷ []) ∷ (3, 7 ∷ 8 ∷ []) ∷ (6, 11 ∷ []) ∷ []))
read_tlv-Splits_example = read_tlv-Splits message (next (next (next done)))

read_tlv-write_tlv_example :
    (bytes : List ℕ) × (write_tlv reply ≡ ok bytes) × (read_tlv bytes ≡ ok (non_empty reply))
read_tlv-write_tlv_example = read_tlv-write_tlv reply (omega arith) (omega arith)

read_tlv-cases_example :
    ((fs : Fragments) × Splits cut_message fs
      × (r : Dict) × (read_tlv cut_message ≡ ok r)
      × ((tag : ℕ) → value_of tag r ≡ joined tag fs))
    ⊎ (Cut cut_message × (read_tlv cut_message ≡ err index_error))
read_tlv-cases_example = read_tlv-cases cut_message
