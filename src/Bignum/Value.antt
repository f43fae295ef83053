-- ===== src/Bignum/Value.antt =====
-- edgedb-protocol/src/model/bignum.rs: the numbers that the conversions into `BigInt` give.
use edgedb_rust.Base.{ℕ, suc, ◌+◌, ◌-◌, ◌%◌, ◌^◌, ◌<◌, ◌≡◌, Bool, true, false, arith}
use edgedb_rust.Time.Int.{ℤ, pos, negsuc}
use edgedb_rust.Bignum.BigInt.{
  BigInt, normalize, groups_64, groups_32, from_u64, from_u32, from_i64, from_i32, as_unsigned,
}
use edgedb_rust.Bignum.Normalize.{value, grouped, IsNormal, normalize-IsNormal}

value-groups_64 : (v : ℕ) → v < 2 ^ 64 → value 4 (groups_64 v) ≡ v
unfolding value groups_64
value-groups_64 v h = omega arith

value-groups_32 : (v : ℕ) → v < 2 ^ 32 → value 2 (groups_32 v) ≡ v
unfolding value groups_32
value-groups_32 v h = omega arith

abbrev pub IsConverted : Bool → ℕ → BigInt → Type 0
IsConverted negative n b = (b.negative ≡ negative) × IsNormal n b

groups_64-IsConverted :
    (negative : Bool) (v : ℕ)
    → v < 2 ^ 64
    → IsConverted negative v (normalize (grouped negative 4 (groups_64 v)))
unfolding groups_64
groups_64-IsConverted negative v h =
    rw (value-groups_64 v h) at (normalize-IsNormal negative 4 (groups_64 v) (omega arith))

groups_32-IsConverted :
    (negative : Bool) (v : ℕ)
    → v < 2 ^ 32
    → IsConverted negative v (normalize (grouped negative 2 (groups_32 v)))
unfolding groups_32
groups_32-IsConverted negative v h =
    rw (value-groups_32 v h) at (normalize-IsNormal negative 2 (groups_32 v) (omega arith))

-- `BigInt::from` of a `u64` and of a `u32` is not negative, stands for that number, and has no zero
-- group at either end.
pub from_unsigned_lem :
    (v : ℕ)
    → (v < 2 ^ 64 → IsConverted false v (from_u64 v))
      × (v < 2 ^ 32 → IsConverted false v (from_u32 v))
unfolding from_u64 from_u32
from_unsigned_lem v = (groups_64-IsConverted false v, groups_32-IsConverted false v)

abbrev pub is_negative : ℤ → Bool
is_negative (pos n) = false
is_negative (negsuc n) = true

abbrev pub absolute : ℤ → ℕ
absolute (pos n) = n
absolute (negsuc n) = suc n

-- An integer that a signed type of `width + 1` bits holds.
abbrev pub IsSigned : (width : ℕ) → ℤ → Type 0
IsSigned width (pos n) = n < 2 ^ width
IsSigned width (negsuc n) = n < 2 ^ width

-- `BigInt::from` of an `i64`, its minimum included, has the number's sign, stands for its absolute
-- value, and has no zero group at either end.
pub from_i64_lem : (v : ℤ) → IsSigned 63 v → IsConverted (is_negative v) (absolute v) (from_i64 v)
unfolding from_i64 as_unsigned
from_i64_lem (pos n) h =
    let e : n % 2 ^ 64 ≡ n = omega (arith, h) in
    rw e (groups_64-IsConverted false n (omega (arith, h)))
from_i64_lem (negsuc n) h =
    let e : (2 ^ 64 - 1 - (2 ^ 64 - 1 - n % 2 ^ 64) + 1) % 2 ^ 64 ≡ suc n = omega (arith, h) in
    rw e (groups_64-IsConverted true (suc n) (omega (arith, h)))

-- The same of an `i32`.
pub from_i32_lem : (v : ℤ) → IsSigned 31 v → IsConverted (is_negative v) (absolute v) (from_i32 v)
unfolding from_i32 as_unsigned
from_i32_lem (pos n) h =
    let e : n % 2 ^ 32 ≡ n = omega (arith, h) in
    rw e (groups_32-IsConverted false n (omega (arith, h)))
from_i32_lem (negsuc n) h =
    let e : (2 ^ 32 - 1 - (2 ^ 32 - 1 - n % 2 ^ 32) + 1) % 2 ^ 32 ≡ suc n = omega (arith, h) in
    rw e (groups_32-IsConverted true (suc n) (omega (arith, h)))
