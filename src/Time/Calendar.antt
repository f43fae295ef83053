-- ===== src/Time/Calendar.antt =====
-- edgedb-protocol/src/model/time.rs: the steps of `LocalDate::to_ymd`.
use edgedb_rust.Base.{ℕ, ◌+◌, ◌*◌, ◌≤◌, ◌<◌, ◌≡◌, ◌⊎◌, List, [], ◌∷◌}
use edgedb_rust.Base.HashMap.{nat_eq}

-- A day in a year that starts in March, in a cycle of 400 years: centuries, groups of four years
-- and years in it, and the day of the year. The last day is one of a leap year alone.
pub record IsCycle (b c d r : ℕ) : Type 0 where
  pub centuries : b ≤ 3
  pub fours : c ≤ 24
  pub ones : d ≤ 3
  pub days : r ≤ 365
  pub leap : (r < 365) ⊎ ((d ≡ 3) × ((c < 24) ⊎ (b ≡ 3)))

-- The days before it since the first of March of the base year.
abbrev pub total : (a b c d r : ℕ) → ℕ
total a b c d r = 146097 * a + (36524 * b + (1461 * c + (365 * d + r)))

abbrev pub month_ends : List ℕ
month_ends = 31 ∷ 61 ∷ 92 ∷ 122 ∷ 153 ∷ 184 ∷ 214 ∷ 245 ∷ 275 ∷ 306 ∷ 337 ∷ 366 ∷ []
