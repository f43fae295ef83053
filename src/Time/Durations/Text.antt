-- ===== src/Time/Durations/Text.antt =====
-- edgedb-protocol/src/model/time.rs: `RelativeDuration` and `DateDuration` as text, which is the
-- list of its bytes. A number has at most 20 digits.
use edgedb_rust.Base.{
  ℕ, zero, suc, ◌+◌, ◌/◌, ◌%◌, Bool, true, false, not, ◌&&◌, ltb, List, [], ◌∷◌, ◌++◌,
  if◌then◌else◌,
}
use edgedb_rust.Base.HashMap.{◌==◌, nat_eq}
use edgedb_rust.Time.Int.{ℤ, pos, negsuc, abs, quot, rem, is_lt, wrapping}
use edgedb_rust.Time.RelativeDuration.{RelativeDuration}
use edgedb_rust.Time.DateDuration.{DateDuration}

-- The decimal digits.
unfoldable pub digits : (fuel : ℕ) → ℕ → List ℕ
digits zero n = []
digits (suc fuel) n =
    let front = digits fuel (n / 10) in
    if ltb n 10 then (48 + n) ∷ [] else front ++ ((48 + n % 10) ∷ [])

-- `{}` of a signed integer.
unfoldable pub decimal : ℤ → List ℕ
unfolding digits
decimal (pos n) = digits 20 n
decimal (negsuc n) = 45 ∷ digits 20 (suc n)

-- `v.abs() >= k` for an integer of `w` bits.
unfoldable pub at_least : (w k : ℕ) → ℤ → Bool
unfolding abs wrapping is_lt
at_least w k v = not (is_lt (wrapping w (pos (abs v))) (pos k))

-- A number with the letter of its unit, if it is written.
unfoldable pub number : Bool → ℤ → (letter : ℕ) → List ℕ
unfolding decimal
number true v letter = decimal v ++ (letter ∷ [])
number false v letter = []

-- `{:06}`
unfoldable pub six_digits : ℕ → List ℕ
six_digits n =
    (48 + n / 100000 % 10)
    ∷ (48 + n / 10000 % 10)
    ∷ (48 + n / 1000 % 10)
    ∷ (48 + n / 100 % 10)
    ∷ (48 + n / 10 % 10)
    ∷ (48 + n % 10)
    ∷ []

-- The text without the zeros at its end.
unfoldable pub without_zeros : List ℕ → List ℕ
without_zeros [] = []
without_zeros (x ∷ xs) = shortened x (without_zeros xs)
  where
    shortened : ℕ → List ℕ → List ℕ
    shortened x [] = if x == 48 then [] else x ∷ []
    shortened x (y ∷ ys) = x ∷ y ∷ ys

-- The microseconds below a second: the point, and as many digits as there have to be.
unfoldable pub fraction : ℤ → List ℕ
unfolding at_least six_digits without_zeros
fraction micros = if at_least 64 1 micros then 46 ∷ without_zeros (six_digits (abs micros)) else []

-- What follows the `T`, if anything does.
unfoldable pub clock : ℤ → List ℕ
unfolding at_least number fraction quot rem
clock micros =
    let minutes = rem micros 3600000000 in
    let seconds = rem minutes 60000000 in
    if at_least 64 1 micros
    then 84
      ∷ (number (at_least 64 3600000000 micros) (quot micros 3600000000) 72
          ++ number (at_least 64 60000000 minutes) (quot minutes 60000000) 77
          ++ (if at_least 64 1000000 seconds then decimal (quot seconds 1000000) else [])
          ++ fraction (rem seconds 1000000)
          ++ (if at_least 64 1 seconds then 83 ∷ [] else []))
    else []

-- The months below a year, and the days.
unfoldable pub months_and_days : (months days : ℤ) → List ℕ
unfolding at_least number rem
months_and_days months days =
    number (at_least 32 1 (rem months 12)) (rem months 12) 77 ++ number (at_least 32 1 days) days 68

-- `RelativeDuration::fmt`
unfoldable pub show_relative : RelativeDuration → List ℕ
unfolding abs number at_least quot months_and_days clock
show_relative d =
    if abs d.months == 0 && abs d.days == 0 && abs d.micros == 0
    then 80 ∷ 84 ∷ 48 ∷ 83 ∷ []
    else 80
      ∷ (number (at_least 32 12 d.months) (quot d.months 12) 89
          ++ months_and_days d.months d.days
          ++ clock d.micros)

-- `DateDuration::fmt`
unfoldable pub show_date : DateDuration → List ℕ
unfolding abs number at_least quot months_and_days
show_date d =
    if abs d.months == 0 && abs d.days == 0
    then 80 ∷ 84 ∷ 48 ∷ 68 ∷ []
    else 80
      ∷ (number (at_least 32 13 d.months) (quot d.months 12) 89 ++ months_and_days d.months d.days)
