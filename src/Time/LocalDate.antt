-- ===== src/Time/LocalDate.antt =====
-- edgedb-protocol/src/model/time.rs: the calendar of `LocalDate`. An `OutOfRangeError` is `none`.
use edgedb_rust.Base.{
  ℕ, zero, suc, ◌+◌, ◌-◌, ◌*◌, ◌/◌, ◌%◌, ◌^◌, List, [], ◌∷◌, Option, none, ltb, leb, Bool, ◌||◌,
  ◌&&◌, not, if◌then◌else◌,
}
use edgedb_rust.Base.HashMap.{nat_eq, ◌==◌}
use edgedb_rust.Time.Int.{ℤ, pos, negsuc, is_lt}
use edgedb_rust.Time.LocalDatetime.{try_from_days}

-- The number of days up to each month, and from March on.
abbrev pub day_to_month_365 : List ℕ
day_to_month_365 = 0 ∷ 31 ∷ 59 ∷ 90 ∷ 120 ∷ 151 ∷ 181 ∷ 212 ∷ 243 ∷ 273 ∷ 304 ∷ 334 ∷ 365 ∷ []

abbrev pub day_to_month_366 : List ℕ
day_to_month_366 = 0 ∷ 31 ∷ 60 ∷ 91 ∷ 121 ∷ 152 ∷ 182 ∷ 213 ∷ 244 ∷ 274 ∷ 305 ∷ 335 ∷ 366 ∷ []

abbrev pub day_to_month_march : List ℕ
day_to_month_march = 0 ∷ 31 ∷ 61 ∷ 92 ∷ 122 ∷ 153 ∷ 184 ∷ 214 ∷ 245 ∷ 275 ∷ 306 ∷ 337 ∷ []

-- An element of an array; the index is in range where this is used.
unfoldable pub nth : List ℕ → ℕ → ℕ
nth [] i = 0
nth (x ∷ xs) zero = x
nth (x ∷ xs) (suc i) = nth xs i

-- `(year - BASE_YEAR - 1) as u32`, from year -4713 on. Up to year 294276 none of the operations on
-- `u32` below wraps.
unfoldable pub passed_years : ℤ → ℕ
passed_years (pos n) = n + 4799
passed_years (negsuc n) = 4798 - n

unfoldable pub is_multiple : ℤ → ℕ → Bool
is_multiple (pos n) k = n % k == 0
is_multiple (negsuc n) k = suc n % k == 0

unfoldable pub is_leap_year : ℤ → Bool
is_leap_year year = is_multiple year 400 || (is_multiple year 4 && not (is_multiple year 100))

unfoldable pub days_from_year : (passed_years : ℕ) → ℕ
days_from_year p = 365 * p + p / 4 - p / 100 + p / 400 + 366

-- Days from the base year on, as days from the epoch.
unfoldable pub from_base : ℕ → ℤ
from_base n = if ltb n 2483649 then negsuc (2483648 - n) else pos (n - 2483649)

unfoldable pub try_from_ymd : (year : ℤ) → (month day : ℕ) → Option ℤ
try_from_ymd year month day =
    let day_to_month = if is_leap_year year then day_to_month_366 else day_to_month_365 in
    let day_in_year = day - 1 + nth day_to_month (month - 1) in
    if ltb day 1 || ltb 31 day
    then none
    else if ltb month 1 || ltb 12 month
    then none
    else if is_lt year (negsuc 4712) || is_lt (pos 294276) year
    then none
    else if leb (nth day_to_month month) day_in_year
    then none
    else try_from_days (from_base (days_from_year (passed_years year) + day_in_year))

-- The last entry that is no greater than the days, with its place among those.
unfoldable pub last_entry : (days : ℕ) → (i : ℕ) → (last : ℕ × ℕ) → List ℕ → ℕ × ℕ
last_entry days i last [] = last
last_entry days i last (d ∷ ds) =
    let kept = leb d days in
    last_entry days (if kept then suc i else i) (if kept then (i, d) else last) ds

unfoldable pub to_u32 : ℤ → ℕ
to_u32 (pos n) = n % 2 ^ 32
to_u32 (negsuc n) = 2 ^ 32 - 1 - n % 2 ^ 32

unfoldable pub limit_to_3 : ℕ → ℕ
limit_to_3 n = if n == 4 then 3 else n

-- `(months / 12) as i32 + BASE_YEAR`
unfoldable pub year_of : ℕ → ℤ
year_of n = if ltb n 4800 then negsuc (4799 - n) else pos (n - 4800)

unfoldable pub to_ymd : (days : ℤ) → ℤ × ℕ × ℕ
to_ymd self =
    let days = (to_u32 self + 2483589) % 2 ^ 32 in
    let years400 = days / 146097 in
    let days400 = days % 146097 in
    let years100 = limit_to_3 (days400 / 36524) in
    let days100 = days400 - 36524 * years100 in
    let years4 = days100 / 1461 in
    let days4 = days100 % 1461 in
    let years1 = limit_to_3 (days4 / 365) in
    let days1 = days4 - 365 * years1 in
    let years = years1 + years4 * 4 + years100 * 100 + years400 * 400 in
    let entry = last_entry days1 0 (0, 0) day_to_month_march in
    let months = years * 12 + 2 + entry.0 in
    (year_of (months / 12), (months % 12 + 1) % 2 ^ 8, (days1 - entry.1 + 1) % 2 ^ 8)
