-- ===== src/Time/Tests.antt =====
-- Runs of the date and time functions, and the theorems at concrete inputs.
use edgedb_rust.Base.{◌≡◌, refl, none, some, arith}
use edgedb_rust.Time.Int.{ℤ, pos, negsuc, times, plus, is_lt}
use edgedb_rust.Time.LocalTime.{Hmsu, IsHmsu, to_hmsu, from_hmsu, from_hmsu-to_hmsu}
use edgedb_rust.Time.LocalDate.{
  try_from_ymd, passed_years, is_multiple, is_leap_year, days_from_year, from_base, nth, to_ymd,
  to_u32, limit_to_3, last_entry, year_of,
}
use edgedb_rust.Time.LocalDatetime.{
  min_days, max_days, try_from_days, new_datetime, date, time, date-new_datetime,
  try_from_datetime_micros, min_micros, max_micros,
}

abbrev before_midnight : Hmsu
before_midnight = record { hour = 23; minute = 59; second = 59; microsecond = 999999 }

last_hour : to_hmsu 86399999999 ≡ before_midnight
unfolding to_hmsu
last_hour = refl

from_hmsu-to_hmsu_example :
    IsHmsu (to_hmsu 86399999999) × (from_hmsu (to_hmsu 86399999999) ≡ some 86399999999)
from_hmsu-to_hmsu_example = from_hmsu-to_hmsu 86399999999 (omega arith)

-- The day before the epoch, at 1 microsecond.
date-new_datetime_example :
    (micros : ℤ) × (new_datetime (negsuc 0) 1 ≡ some micros)
    × (date micros ≡ some (negsuc 0))
    × (time micros ≡ some 1)
date-new_datetime_example = date-new_datetime (negsuc 0) 1 (omega arith) (omega arith)

too_late : try_from_datetime_micros (pos 9223371331200000000) ≡ none
unfolding try_from_datetime_micros min_micros max_micros times plus is_lt
too_late = refl

-- The first and the last day, the epoch, and the days round the end of February.
calendar :
    (try_from_ymd (negsuc 4712) 11 24 ≡ some min_days)
    × (try_from_ymd (negsuc 4712) 11 23 ≡ none)
    × (try_from_ymd (pos 294276) 12 31 ≡ some max_days)
    × (try_from_ymd (pos 2000) 1 1 ≡ some (pos 0))
    × (try_from_ymd (pos 2000) 2 29 ≡ some (pos 59))
    × (try_from_ymd (pos 1900) 2 29 ≡ none)
unfolding try_from_ymd passed_years is_multiple is_leap_year days_from_year from_base nth
    try_from_days is_lt
calendar = (refl, refl, refl, refl, refl, refl)

calendar_back :
    (to_ymd min_days ≡ (negsuc 4712, 11, 24))
    × (to_ymd max_days ≡ (pos 294276, 12, 31))
    × (to_ymd (pos 0) ≡ (pos 2000, 1, 1))
    × (to_ymd (pos 59) ≡ (pos 2000, 2, 29))
    × (to_ymd (negsuc 10956) ≡ (pos 1970, 1, 1))
unfolding to_ymd to_u32 limit_to_3 last_entry year_of
calendar_back = (refl, refl, refl, refl, refl)
