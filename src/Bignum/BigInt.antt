-- ===== src/Bignum/BigInt.antt =====
-- edgedb-protocol/src/model/bignum.rs: `BigInt`, `normalize` and the conversions from the machine
-- integers. A casted integer wraps.
use edgedb_rust.Base.{
  ℕ, zero, suc, ◌+◌, ◌-◌, ◌/◌, ◌%◌, ◌^◌, List, [], ◌∷◌, Bool, true, false, if◌then◌else◌,
}
use edgedb_rust.Base.HashMap.{nat_eq, ◌==◌}
use edgedb_rust.Time.Int.{ℤ, pos, negsuc}

-- A number in groups of four decimal digits: the group with index `i` counts `10000 ^ (weight - i)`.
pub record BigInt : Type 0 where
  pub negative : Bool
  pub weight : ℤ
  pub digits : List ℕ

-- A zero is popped if nothing is left behind it.
unfoldable pub pop_zero : ℕ → (behind : List ℕ) → List ℕ
pop_zero x [] = if x == 0 then [] else (x ∷ [])
pop_zero x (y ∷ ys) = x ∷ y ∷ ys

-- `while let Some(0) = self.digits.last() { self.digits.pop(); }`
unfoldable pub pop_zeros : List ℕ → List ℕ
unfolding pop_zero
pop_zeros [] = []
pop_zeros (x ∷ xs) = pop_zero x (pop_zeros xs)

-- `weight -= 1`
unfoldable pub lower : ℤ → ℤ
lower (pos zero) = negsuc 0
lower (pos (suc n)) = pos n
lower (negsuc n) = negsuc (suc n)

-- `while let Some(0) = self.digits.first() { self.digits.remove(0); self.weight -= 1; }`
unfoldable pub remove_zeros : (weight : ℤ) → List ℕ → ℤ × List ℕ
remove_zeros weight [] = (weight, [])
remove_zeros weight (x ∷ xs) =
    let rest = remove_zeros (lower weight) xs in if x == 0 then rest else (weight, x ∷ xs)

unfoldable pub normalize : BigInt → BigInt
unfolding pop_zeros remove_zeros
normalize b =
    let trimmed = remove_zeros b.weight (pop_zeros b.digits) in
    record { negative = b.negative; weight = trimmed.0; digits = trimmed.1 }

unfoldable pub groups_64 : ℕ → List ℕ
groups_64 v =
    v / 10000000000000000 % 10000 % 2 ^ 16
    ∷ v / 1000000000000 % 10000 % 2 ^ 16
    ∷ v / 100000000 % 10000 % 2 ^ 16
    ∷ v / 10000 % 10000 % 2 ^ 16
    ∷ v % 10000 % 2 ^ 16
    ∷ []

unfoldable pub groups_32 : ℕ → List ℕ
groups_32 v = v / 100000000 % 2 ^ 16 ∷ v / 10000 % 10000 % 2 ^ 16 ∷ v % 10000 % 2 ^ 16 ∷ []

unfoldable pub from_u64 : ℕ → BigInt
from_u64 v = normalize (record { negative = false; weight = pos 4; digits = groups_64 v })

unfoldable pub from_u32 : ℕ → BigInt
from_u32 v = normalize (record { negative = false; weight = pos 2; digits = groups_32 v })

-- `v as u64` and `v as u32`
unfoldable pub as_unsigned : (width : ℕ) → ℤ → ℕ
as_unsigned width (pos n) = n % 2 ^ width
as_unsigned width (negsuc n) = 2 ^ width - 1 - n % 2 ^ width

unfoldable pub from_i64 : ℤ → BigInt
from_i64 (negsuc n) = normalize (record {
  negative = true;
  weight = pos 4;
  digits = groups_64 ((2 ^ 64 - 1 - as_unsigned 64 (negsuc n) + 1) % 2 ^ 64);
})
from_i64 (pos n) =
    normalize
      (record { negative = false; weight = pos 4; digits = groups_64 (as_unsigned 64 (pos n)) })

unfoldable pub from_i32 : ℤ → BigInt
from_i32 (negsuc n) = normalize (record {
  negative = true;
  weight = pos 2;
  digits = groups_32 ((2 ^ 32 - 1 - as_unsigned 32 (negsuc n) + 1) % 2 ^ 32);
})
from_i32 (pos n) =
    normalize
      (record { negative = false; weight = pos 2; digits = groups_32 (as_unsigned 32 (pos n)) })
