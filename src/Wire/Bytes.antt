-- ===== src/Wire/Bytes.antt =====
-- Integers as big-endian bytes: the standard library's `to_be_bytes` and `from_be_bytes`.
use native.Mathlib.Nat.{pow-suc}
use edgedb_rust.Base.{
  ℕ, zero, suc, ◌+◌, ◌*◌, ◌/◌, ◌%◌, ◌^◌, ◌<◌, ◌≡◌, refl, List, [], ◌∷◌, ◌++◌, length, length-append,
  All, All-append, arith,
}

abbrev pub IsByte : ℕ → Type 0
IsByte b = b < 256

-- `n` in `width` bytes, the highest first.
unfoldable pub to_be_bytes : (width : ℕ) → ℕ → List ℕ
to_be_bytes zero n = []
to_be_bytes (suc width) n = to_be_bytes width (n / 256) ++ (n % 256 ∷ [])

from_be : ℕ → List ℕ → ℕ
from_be acc [] = acc
from_be acc (b ∷ bs) = from_be (acc * 256 + b) bs

unfoldable pub from_be_bytes : List ℕ → ℕ
unfolding from_be
from_be_bytes bs = from_be 0 bs

from_be-snoc : (acc b : ℕ) (bs : List ℕ) → from_be acc (bs ++ (b ∷ [])) ≡ from_be acc bs * 256 + b
unfolding from_be
from_be-snoc acc b [] = refl
from_be-snoc acc b (x ∷ bs) = from_be-snoc (acc * 256 + x) b bs

pub length-to_be_bytes : (width n : ℕ) → length (to_be_bytes width n) ≡ width
unfolding to_be_bytes
length-to_be_bytes zero n = refl
length-to_be_bytes (suc width) n = omega (
  arith,
  length-append (to_be_bytes width (n / 256)) (n % 256 ∷ []),
  length-to_be_bytes width (n / 256),
)

pub to_be_bytes-IsByte : (width n : ℕ) → All IsByte (to_be_bytes width n)
unfolding to_be_bytes
to_be_bytes-IsByte zero n = tt
to_be_bytes-IsByte (suc width) n =
    All-append (to_be_bytes width (n / 256)) _ IsByte (to_be_bytes-IsByte width (n / 256))
      (omega arith)

-- What was written is read back, if it fits.
pub from-to_be_bytes : (width n : ℕ) → n < 256 ^ width → from_be_bytes (to_be_bytes width n) ≡ n
unfolding to_be_bytes from_be_bytes
from-to_be_bytes zero n h = omega arith
from-to_be_bytes (suc width) n h = omega (
  arith,
  from_be-snoc 0 (n % 256) (to_be_bytes width (n / 256)),
  from-to_be_bytes width (n / 256) (omega (arith, pow-suc 256 width)),
)
