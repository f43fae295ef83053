-- ===== src/Time/Durations/Tests.antt =====
-- Runs of the durations and of the system time, and the theorems at concrete inputs.
use edgedb_rust.Base.{ℕ, ◌<◌, ◌≡◌, refl, true, [], ◌∷◌, ◌++◌, none, some, ok, panic, arith}
use edgedb_rust.Time.Int.{plus, ℤ, pos, negsuc, abs, ◌+ℤ◌, times, fits, wrapping}
use edgedb_rust.Time.RelativeDuration
use edgedb_rust.Time.RelativeDuration.{RelativeDuration}
use edgedb_rust.Time.DateDuration
use edgedb_rust.Time.DateDuration.{DateDuration}
use edgedb_rust.Time.Durations.{checked, abs_duration}
use edgedb_rust.Time.Durations.Arithmetic.{relative_checked_sub-checked_add, abs_duration_lem}
use edgedb_rust.Time.Durations.Text.{
  digits, decimal, number, at_least, fraction, six_digits, without_zeros, clock, months_and_days,
  show_relative, show_date,
}
use edgedb_rust.Time.Durations.Ambiguity.{show_relative-negsuc, show_date-year}
use edgedb_rust.Time.Datetime.{postgres_epoch_unix, to_system_time, from_system_time}
use edgedb_rust.Time.Datetime.SystemTime.{
  moment_of, Outcome, from_system_time-to_system_time, from_system_time_lem,
}

-- A year and a month, less a day, and five microseconds; and 20 days and a second less.
abbrev long : RelativeDuration
long = record { micros = pos 5; days = negsuc 0; months = pos 13 }

abbrev short : RelativeDuration
short = record { micros = negsuc 999999; days = negsuc 19; months = pos 0 }

abbrev both : RelativeDuration
both = record { micros = negsuc 999994; days = negsuc 20; months = pos 13 }

added : RelativeDuration.checked_add long short ≡ some both
unfolding RelativeDuration.checked_add checked ◌+ℤ◌ fits
added = refl

relative_checked_sub-checked_add_example :
    (RelativeDuration.add long short ≡ both) × (RelativeDuration.checked_sub both short ≡ some long)
relative_checked_sub-checked_add_example =
    relative_checked_sub-checked_add long short both (omega arith, omega arith, omega arith) added

-- Years that are out of range, and hours.
units :
    (RelativeDuration.try_from_years (pos 178956971) ≡ none)
    × (RelativeDuration.try_from_hours (negsuc 1)
        ≡ some (record { micros = negsuc 7199999999; days = pos 0; months = pos 0 }))
    × (DateDuration.try_from_years (pos 2) ≡ some (record { days = pos 0; months = pos 24 }))
unfolding RelativeDuration.try_from_years RelativeDuration.try_from_hours
    DateDuration.try_from_years checked times fits
units = (refl, refl, refl)

abs_duration_lem_example :
    abs_duration (negsuc 9223372036854775807) ≡ abs (negsuc 9223372036854775807)
abs_duration_lem_example = abs_duration_lem (negsuc 9223372036854775807) (omega arith)

-- P-2Y-8M-16DT-4H-4M-52.4S
shown :
    show_relative (record { micros = negsuc 14692399999; days = negsuc 15; months = negsuc 31 })
    ≡ 80 ∷ (45 ∷ 50 ∷ 89 ∷ [])
      ++ (45 ∷ 56 ∷ 77 ∷ [])
      ++ (45 ∷ 49 ∷ 54 ∷ 68 ∷ [])
      ++ (84 ∷ 45 ∷ 52 ∷ 72 ∷ [])
      ++ (45 ∷ 52 ∷ 77 ∷ [])
      ++ (45 ∷ 53 ∷ 50 ∷ 46 ∷ 52 ∷ 83 ∷ [])
unfolding show_relative digits number at_least fraction six_digits without_zeros clock
    months_and_days decimal abs wrapping
shown = refl

-- A year as a `DateDuration` is `P`.
year_shown : show_date (record { days = pos 0; months = pos 12 }) ≡ 80 ∷ []
unfolding show_date number at_least months_and_days abs wrapping
year_shown = refl

show_relative-negsuc_example :
    show_relative (record { micros = negsuc 499999; days = pos 0; months = pos 0 })
    ≡ show_relative (record { micros = pos 500000; days = pos 0; months = pos 0 })
show_relative-negsuc_example = show_relative-negsuc (pos 0) (pos 0) 499999 (omega arith)

show_date-year_example :
    (show_date (record { days = pos 5; months = pos 12 })
      ≡ show_date (record { days = pos 5; months = pos 0 }))
    × (show_date (record { days = pos 5; months = negsuc 11 })
        ≡ show_date (record { days = pos 5; months = pos 0 }))
unfolding abs
show_date-year_example = show_date-year (pos 5) (omega arith)

-- The last microsecond before the epoch, on a platform that represents every time.
moment : to_system_time (λ time. true) (negsuc 0) ≡ ok (pos 946684799999999000)
unfolding to_system_time abs
moment = refl

from_system_time-to_system_time_example : from_system_time (pos 946684799999999000) ≡ ok (negsuc 0)
from_system_time-to_system_time_example =
    from_system_time-to_system_time (λ time. true) (negsuc 0) (pos 946684799999999000) (omega arith)
      moment

-- The first microsecond behind the last `Datetime`, and a nanosecond.
from_system_time_lem_example :
    (micros : ℤ) × (nanos : ℕ) × (nanos < 1000)
    × (postgres_epoch_unix +ℤ pos 9223371331200000000001 ≡ moment_of micros nanos)
    × Outcome micros (from_system_time (postgres_epoch_unix +ℤ pos 9223371331200000000001))
from_system_time_lem_example =
    from_system_time_lem (postgres_epoch_unix +ℤ pos 9223371331200000000001)

late : from_system_time (postgres_epoch_unix +ℤ pos 9223371331200000000001) ≡ panic
unfolding from_system_time ◌+ℤ◌ times plus
late = refl
