-- ===== src/Time/Durations/Ambiguity.antt =====
-- Durations that `RelativeDuration::fmt` and `DateDuration::fmt` in time.rs give the same text.
use edgedb_rust.Base.{ℕ, suc, ◌%◌, ◌^◌, ◌<◌, ◌≡◌, ◌≢◌, refl, true, false, ltb, lt→ltb, arith}
use edgedb_rust.Base.HashMap.{◌==◌, nat_eq}
use edgedb_rust.Time.Int.{ℤ, pos, negsuc, abs, negate, quot, rem, is_lt, wrapping}
use edgedb_rust.Time.Durations.Text.{
  at_least, number, fraction, clock, months_and_days, show_relative, show_date,
}

clock_lem : (n : ℕ) → suc n < 1000000 → clock (negsuc n) ≡ clock (pos (suc n))
unfolding clock at_least rem negate quot fraction abs wrapping is_lt number
clock_lem n h =
    let a : suc n % 3600000000 ≡ suc n = omega arith in
    let b : suc n % 60000000 ≡ suc n = omega arith in
    let c : suc n % 1000000 ≡ suc n = omega arith in
    let d : suc n % 2 ^ 64 ≡ suc n = omega arith in
    let e : ltb (suc n) (2 ^ 63) ≡ true = lt→ltb _ _ (omega arith) in
    let f : ltb (suc n) 1000000 ≡ true = lt→ltb _ _ h in
    let g : ltb (suc n) 60000000 ≡ true = lt→ltb _ _ (omega arith) in
    let k : ltb (suc n) 3600000000 ≡ true = lt→ltb _ _ (omega arith) in
    rw (a, b, c, d, e, f, g, k) refl

-- A `RelativeDuration` without a whole second has the same text whether its microseconds are
-- negative or not.
pub show_relative-negsuc :
    (months days : ℤ) (n : ℕ)
    → suc n < 1000000
    → show_relative (record { micros = negsuc n; days = days; months = months })
      ≡ show_relative (record { micros = pos (suc n); days = days; months = months })
unfolding show_relative abs
show_relative-negsuc months days n h = rw (clock_lem n h) refl

-- A `DateDuration` of a year and some days, forward or back, has the text of the days alone.
pub show_date-year :
    (days : ℤ)
    → abs days ≢ 0
    → (show_date (record { days = days; months = pos 12 })
        ≡ show_date (record { days = days; months = pos 0 }))
      × (show_date (record { days = days; months = negsuc 11 })
          ≡ show_date (record { days = days; months = pos 0 }))
unfolding show_date months_and_days at_least rem negate wrapping is_lt abs
show_date-year days h = let e : (abs days == 0) ≡ false = ground arith in rw (e) (refl, refl)
