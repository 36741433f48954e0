-- ===== src/Common/Bytes.antt =====
-- Byte strings: lists of numbers below 256, their equality and little- and big-endian numbers.
use Prim.Native.Nat.{ℕ, zero, suc, ◌+◌, ◌*◌, ◌/◌, ◌%◌, ◌^◌, ◌<◌}
use mathlib.Core.Path.{◌≡◌, refl, ap}
use mathlib.Core.Logic.{◌↔◌}
use mathlib.Core.Bool.{Bool, true, false, ◌&&◌}
use mathlib.Core.List.{List, [], ◌∷◌}
use native.Mathlib.Omega.{arith}
use native.Mathlib.Nat.{pow-suc}
use atvr4samsung.Common.Tests.{◌==◌}
use atvr4samsung.Common.Lists.{length}

abbrev pub IsByte : ℕ → Type 0
IsByte b = b < 256

abbrev pub Bytes : Type 0
Bytes = List ℕ

-- Equality of two byte strings (or of two texts as lists of code points).
unfoldable pub bytes_eq : List ℕ → List ℕ → Bool
bytes_eq [] [] = true
bytes_eq [] (y ∷ ys) = false
bytes_eq (x ∷ xs) [] = false
bytes_eq (x ∷ xs) (y ∷ ys) = x == y && bytes_eq xs ys

pub bytes_eq→eq : (xs ys : List ℕ) → bytes_eq xs ys ≡ true → xs ≡ ys
unfolding bytes_eq
bytes_eq→eq [] [] h = refl
bytes_eq→eq [] (y ∷ ys) h = cc
bytes_eq→eq (x ∷ xs) [] h = cc
bytes_eq→eq (x ∷ xs) (y ∷ ys) h = ground (arith, bytes_eq→eq xs ys)

pub bytes_eq_refl : (xs : List ℕ) → bytes_eq xs xs ≡ true
unfolding bytes_eq
bytes_eq_refl [] = refl
bytes_eq_refl (x ∷ xs) = ground (arith, bytes_eq_refl xs)

pub bytes_eq_iff : (xs ys : List ℕ) → (bytes_eq xs ys ≡ true) ↔ (xs ≡ ys)
bytes_eq_iff xs ys = (bytes_eq→eq xs ys, λ e. rw e (bytes_eq_refl ys))

-- `int.from_bytes(data, byteorder="little")` and `n.to_bytes(size, byteorder="little")`.
unfoldable pub from_le : List ℕ → ℕ
from_le [] = 0
from_le (b ∷ bs) = b + 256 * from_le bs

unfoldable pub to_le : ℕ → ℕ → List ℕ
to_le zero n = []
to_le (suc size) n = (n % 256) ∷ to_le size (n / 256)

pub length-to_le : (size n : ℕ) → length (to_le size n) ≡ size
unfolding to_le
length-to_le zero n = refl
length-to_le (suc size) n = ap suc (length-to_le size (n / 256))

pub from_le-to_le : (size n : ℕ) → n < 256 ^ size → from_le (to_le size n) ≡ n
unfolding from_le to_le
from_le-to_le zero n h = omega arith
from_le-to_le (suc size) n h =
    omega (arith, from_le-to_le size (n / 256) (omega (arith, pow-suc 256 size)))

-- `int.from_bytes(data, byteorder="big")`, with an accumulator.
unfoldable pub from_be : ℕ → List ℕ → ℕ
from_be acc [] = acc
from_be acc (b ∷ bs) = from_be (acc * 256 + b) bs

-- `n.to_bytes(size, byteorder="big")`
unfoldable pub to_be : ℕ → ℕ → List ℕ
to_be zero n = []
to_be (suc size) n = (n / 256 ^ size % 256) ∷ to_be size n

pub length-to_be : (size n : ℕ) → length (to_be size n) ≡ size
unfolding to_be
length-to_be zero n = refl
length-to_be (suc size) n = ap suc (length-to_be size n)
