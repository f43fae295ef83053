-- ===== src/Bignum/Tests.antt =====
-- Runs of the conversions into `BigInt`, and the theorems at concrete inputs.
use edgedb_rust.Base.{◌≡◌, refl, [], ◌∷◌, true, false, arith}
use edgedb_rust.Time.Int.{pos, negsuc}
use edgedb_rust.Bignum.BigInt.{
  normalize, pop_zeros, pop_zero, remove_zeros, lower, groups_32, from_u32, from_i64,
}
use edgedb_rust.Bignum.Normalize.{value, grouped, IsNormal, normalize-IsNormal}
use edgedb_rust.Bignum.Value.{IsConverted, from_i64_lem}

-- `BigInt::from(30000u32)`
thirty_thousand : from_u32 30000 ≡ record { negative = false; weight = pos 1; digits = 3 ∷ [] }
unfolding from_u32 normalize pop_zeros pop_zero remove_zeros lower groups_32
thirty_thousand = refl

normalize-IsNormal_example :
    ((normalize (grouped true 2 (0 ∷ 7 ∷ 0 ∷ []))).negative ≡ true)
    × IsNormal (value 2 (0 ∷ 7 ∷ 0 ∷ [])) (normalize (grouped true 2 (0 ∷ 7 ∷ 0 ∷ [])))
normalize-IsNormal_example = normalize-IsNormal true 2 (0 ∷ 7 ∷ 0 ∷ []) (omega arith)

-- `i64::MIN`
from_i64_lem_example : IsConverted true 9223372036854775808 (from_i64 (negsuc 9223372036854775807))
from_i64_lem_example = from_i64_lem (negsuc 9223372036854775807) (omega arith)
