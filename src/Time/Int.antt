-- ===== src/Time/Int.antt =====
-- Signed integers. An `i32` or an `i64` is an integer of its range; a cast wraps.
use edgedb_rust.Base.{
  ℕ, zero, suc, ◌+◌, ◌-◌, ◌*◌, ◌/◌, ◌%◌, ◌^◌, Bool, true, false, ltb, if◌then◌else◌,
}

-- `negsuc n` is -(n + 1).
pub data ℤ : Type 0 where
  pos negsuc : ℕ → ℤ

unfoldable pub times : ℤ → ℕ → ℤ
times (pos n) k = pos (n * k)
times (negsuc n) k = if ltb 0 k then negsuc (suc n * k - 1) else pos 0

unfoldable pub plus : ℤ → ℕ → ℤ
plus (pos n) k = pos (n + k)
plus (negsuc n) k = if ltb n k then pos (k - suc n) else negsuc (n - k)

-- The quotient and the remainder whose remainder is not negative.
unfoldable pub div_euclid : ℤ → ℕ → ℤ
div_euclid (pos n) k = pos (n / k)
div_euclid (negsuc n) k = negsuc (n / k)

unfoldable pub rem_euclid : ℤ → ℕ → ℕ
rem_euclid (pos n) k = n % k
rem_euclid (negsuc n) k = k - 1 - n % k

unfoldable pub is_lt : ℤ → ℤ → Bool
is_lt (pos m) (pos n) = ltb m n
is_lt (pos m) (negsuc n) = false
is_lt (negsuc m) (pos n) = true
is_lt (negsuc m) (negsuc n) = ltb n m

-- `as i32` of an `i64`
unfoldable pub as_i32 : ℤ → ℤ
as_i32 (pos n) =
    if ltb (n % 2 ^ 32) (2 ^ 31) then pos (n % 2 ^ 32) else negsuc (2 ^ 32 - 1 - n % 2 ^ 32)
as_i32 (negsuc n) =
    if ltb (n % 2 ^ 32) (2 ^ 31) then negsuc (n % 2 ^ 32) else pos (2 ^ 32 - 1 - n % 2 ^ 32)

infixl 65 ◌+ℤ◌ ◌-ℤ◌
unfoldable pub ◌+ℤ◌ : ℤ → ℤ → ℤ
pos m +ℤ pos n = pos (m + n)
pos m +ℤ negsuc n = if ltb n m then pos (m - suc n) else negsuc (n - m)
negsuc m +ℤ pos n = if ltb m n then pos (n - suc m) else negsuc (m - n)
negsuc m +ℤ negsuc n = negsuc (suc (m + n))

unfoldable pub negate : ℤ → ℤ
negate (pos zero) = pos 0
negate (pos (suc n)) = negsuc n
negate (negsuc n) = pos (suc n)

unfoldable pub ◌-ℤ◌ : ℤ → ℤ → ℤ
unfolding ◌+ℤ◌ negate
a -ℤ b = a +ℤ negate b

unfoldable pub abs : ℤ → ℕ
abs (pos n) = n
abs (negsuc n) = suc n

-- The quotient and the remainder of Rust's `/` and `%`, which round towards zero.
unfoldable pub quot : ℤ → ℕ → ℤ
unfolding negate
quot (pos n) k = pos (n / k)
quot (negsuc n) k = negate (pos (suc n / k))

unfoldable pub rem : ℤ → ℕ → ℤ
unfolding negate
rem (pos n) k = pos (n % k)
rem (negsuc n) k = negate (pos (suc n % k))

-- Whether an integer of `w` bits holds the number, and what it holds if it wraps.
unfoldable pub fits : (w : ℕ) → ℤ → Bool
fits w (pos n) = ltb n (2 ^ (w - 1))
fits w (negsuc n) = ltb n (2 ^ (w - 1))

unfoldable pub wrapping : (w : ℕ) → ℤ → ℤ
wrapping w (pos n) =
    if ltb (n % 2 ^ w) (2 ^ (w - 1)) then pos (n % 2 ^ w) else negsuc (2 ^ w - 1 - n % 2 ^ w)
wrapping w (negsuc n) =
    if ltb (n % 2 ^ w) (2 ^ (w - 1)) then negsuc (n % 2 ^ w) else pos (2 ^ w - 1 - n % 2 ^ w)
