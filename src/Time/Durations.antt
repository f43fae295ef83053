-- ===== src/Time/Durations.antt =====
-- edgedb-protocol/src/model/time.rs: `Duration`, which is its number of microseconds, and what the
-- other durations share. A number out of range is `none`.
pub mod Arithmetic
pub mod Text
pub mod Ambiguity
pub mod Show
pub mod Parse
pub mod Digits
pub mod Fraction
pub mod Clock
pub mod ParseRoundTrip
mod ParseTests
mod Tests
use edgedb_rust.Base.{
  ℕ, ◌+◌, ◌-◌, ◌*◌, ◌%◌, ◌^◌, Bool, true, false, ltb, Option, none, some, if◌then◌else◌,
}
use edgedb_rust.Time.Int.{ℤ, pos, negsuc, times, ◌+ℤ◌, ◌-ℤ◌, fits, wrapping}

infixl 5 ◌>>=◌
-- `?` on an `Option`.
abbrev pub ◌>>=◌ : {A B : Type 0} → Option A → (A → Option B) → Option B
none >>= f = none
some a >>= f = f a

-- `checked_mul`, `checked_add` and `checked_sub` of an integer of `w` bits.
unfoldable pub checked : (w : ℕ) → ℤ → Option ℤ
unfolding fits
checked w v = if fits w v then some v else none

-- `Duration::is_positive` and `Duration::is_negative`
unfoldable pub is_positive : ℤ → Bool
is_positive (pos n) = ltb 0 n
is_positive (negsuc n) = false

unfoldable pub is_negative : ℤ → Bool
is_negative (pos n) = false
is_negative (negsuc n) = true

-- `self.micros as u64`
unfoldable pub as_u64 : ℤ → ℕ
as_u64 (pos n) = n % 2 ^ 64
as_u64 (negsuc n) = 2 ^ 64 - 1 - n % 2 ^ 64

-- `Duration::abs_duration`, in microseconds.
unfoldable pub abs_duration : ℤ → ℕ
unfolding is_negative as_u64
abs_duration micros =
    if is_negative micros then (2 ^ 64 - 1 - as_u64 micros + 1) % 2 ^ 64 else as_u64 micros
