-- ===== src/Time/LocalDatetime.antt =====
-- edgedb-protocol/src/model/time.rs: `LocalDate::try_from_days` and `LocalDatetime`. A `LocalDate`
-- is its number of days, a `LocalDatetime` its number of microseconds, a panic is `none`.
use edgedb_rust.Base.{
  ℕ, suc, ◌+◌, ◌-◌, ◌*◌, ◌%◌, ◌^◌, ◌≤◌, ◌<◌, ◌≡◌, refl, ap, ◌∙◌, Option, none, some, ltb, lt→ltb,
  ◌↔◌, false, ◌||◌, if◌then◌else◌, arith,
}
use edgedb_rust.Time.Int.{ℤ, pos, negsuc, times, plus, div_euclid, rem_euclid, is_lt, as_i32}
use edgedb_rust.Time.LocalTime.{micros_per_day, try_from_micros, from_micros}

-- `LocalDate::MIN` and `LocalDate::MAX`
abbrev pub min_days : ℤ
min_days = negsuc ((2000 + 4712) * 365 + 1665 - 1)

abbrev pub max_days : ℤ
max_days = pos ((294276 - 2000) * 365 + 71242)

unfoldable pub try_from_days : (days : ℤ) → Option ℤ
try_from_days days = if is_lt days min_days || is_lt max_days days then none else some days

unfoldable pub from_days : (days : ℤ) → Option ℤ
unfolding try_from_days
from_days days = try_from_days days

-- `LocalDatetime::MIN` and `LocalDatetime::MAX`
unfoldable pub min_micros : ℤ
min_micros = times min_days micros_per_day

unfoldable pub max_micros : ℤ
max_micros = plus (times max_days micros_per_day) (micros_per_day - 1)

unfoldable pub try_from_datetime_micros : (micros : ℤ) → Option ℤ
unfolding min_micros max_micros
try_from_datetime_micros micros =
    if is_lt micros min_micros || is_lt max_micros micros then none else some micros

-- `LocalDatetime::new`
unfoldable pub new_datetime : (date : ℤ) (time : ℕ) → Option ℤ
unfolding try_from_datetime_micros
new_datetime date time = try_from_datetime_micros (plus (times date micros_per_day) time)

-- `LocalDatetime::date` and `LocalDatetime::time`
unfoldable pub date : (micros : ℤ) → Option ℤ
unfolding from_days
date micros = from_days (as_i32 (div_euclid micros micros_per_day))

unfoldable pub time : (micros : ℤ) → Option ℕ
unfolding from_micros
time micros = from_micros (rem_euclid micros micros_per_day)

-- A date that `try_from_days` accepts.
abbrev pub IsDate : ℤ → Type 0
IsDate (pos n) = n ≤ 106751982
IsDate (negsuc n) = n < 2451545

le→ltb : (a b : ℕ) → b ≤ a → ltb a b ≡ false
le→ltb a b h = ground arith

as_i32_lem : (d : ℤ) → IsDate d → as_i32 d ≡ d
unfolding as_i32
as_i32_lem (pos n) h =
    let e : n % 2 ^ 32 ≡ n = omega arith in rw (e, lt→ltb n (2 ^ 31) (omega arith)) refl
as_i32_lem (negsuc n) h =
    let e : n % 2 ^ 32 ≡ n = omega arith in rw (e, lt→ltb n (2 ^ 31) (omega arith)) refl

from_days_lem : (d : ℤ) → IsDate d → from_days d ≡ some d
unfolding from_days try_from_days is_lt
from_days_lem (pos n) h = rw (le→ltb 106751982 n h) refl
from_days_lem (negsuc n) h = rw (le→ltb 2451544 n (omega arith)) refl

date_lem : (micros d : ℤ) → IsDate d → div_euclid micros micros_per_day ≡ d → date micros ≡ some d
unfolding date
date_lem micros d h e = rw (e, as_i32_lem d h) (from_days_lem d h)

time_lem :
    (micros : ℤ) (t : ℕ)
    → t < micros_per_day
    → rem_euclid micros micros_per_day ≡ t
    → time micros ≡ some t
unfolding time from_micros try_from_micros
time_lem micros t h e = rw (e, lt→ltb t micros_per_day h) refl

pub in_range_pos :
    (n : ℕ) → n ≤ 9223371331199999999 → try_from_datetime_micros (pos n) ≡ some (pos n)
unfolding try_from_datetime_micros min_micros max_micros times plus is_lt
in_range_pos n h = rw (le→ltb 9223371331199999999 n h) refl

pub in_range_negsuc :
    (n : ℕ) → n ≤ 211813487999999999 → try_from_datetime_micros (negsuc n) ≡ some (negsuc n)
unfolding try_from_datetime_micros min_micros max_micros times plus is_lt
in_range_negsuc n h = rw (le→ltb 211813487999999999 n h) refl

abbrev micros_of : ℤ → ℕ → ℤ
micros_of (pos n) t = pos (n * micros_per_day + t)
micros_of (negsuc n) t = negsuc (suc n * micros_per_day - 1 - t)

plus-times : (d : ℤ) (t : ℕ) → t < micros_per_day → plus (times d micros_per_day) t ≡ micros_of d t
unfolding plus times
plus-times (pos n) t h = refl
plus-times (negsuc n) t h = rw (le→ltb (suc n * micros_per_day - 1) t (omega arith)) refl

new_datetime_lem :
    (d : ℤ) (t : ℕ) → IsDate d → t < micros_per_day → new_datetime d t ≡ some (micros_of d t)
unfolding new_datetime
new_datetime_lem (pos n) t hd ht = rw (plus-times (pos n) t ht) (in_range_pos _ (omega (arith, hd)))
new_datetime_lem (negsuc n) t hd ht =
    rw (plus-times (negsuc n) t ht) (in_range_negsuc _ (omega (arith, hd)))

days_of : (d : ℤ) (t : ℕ) → t < micros_per_day → div_euclid (micros_of d t) micros_per_day ≡ d
unfolding div_euclid
days_of (pos n) t h = ap pos (omega arith)
days_of (negsuc n) t h = ap negsuc (omega arith)

time_of : (d : ℤ) (t : ℕ) → t < micros_per_day → rem_euclid (micros_of d t) micros_per_day ≡ t
unfolding rem_euclid
time_of (pos n) t h = omega arith
time_of (negsuc n) t h = omega arith

-- A `LocalDatetime` that is put together from a date in the range of `LocalDate` and a time of the
-- day makes no constructor panic, and has that date and that time.
pub date-new_datetime :
    (d : ℤ) (t : ℕ)
    → IsDate d
    → t < micros_per_day
    → (micros : ℤ) × (new_datetime d t ≡ some micros)
      × (date micros ≡ some d)
      × (time micros ≡ some t)
date-new_datetime d t hd ht = (
  micros_of d t,
  new_datetime_lem d t hd ht,
  date_lem (micros_of d t) d hd (days_of d t ht),
  time_lem (micros_of d t) t ht (time_of d t ht),
)

-- The microseconds that `LocalDatetime::try_from_micros` accepts.
abbrev pub IsDatetime : ℤ → Type 0
IsDatetime (pos n) = n ≤ 9223371331199999999
IsDatetime (negsuc n) = n ≤ 211813487999999999

div_euclid-IsDate : (micros : ℤ) → IsDatetime micros → IsDate (div_euclid micros micros_per_day)
unfolding div_euclid
div_euclid-IsDate (pos n) h = omega (arith, h)
div_euclid-IsDate (negsuc n) h = omega (arith, h)

time-lt : (micros : ℤ) → rem_euclid micros micros_per_day < micros_per_day
unfolding rem_euclid
time-lt (pos n) = omega arith
time-lt (negsuc n) = omega arith

together :
    (micros : ℤ)
    → micros_of (div_euclid micros micros_per_day) (rem_euclid micros micros_per_day) ≡ micros
unfolding div_euclid rem_euclid
together (pos n) = ap pos (omega arith)
together (negsuc n) = ap negsuc (omega arith)

-- In the range of `LocalDatetime`, also before the epoch, the date and the time make no
-- constructor panic, and put together they are the same `LocalDatetime` again.
new_datetime-date :
    (micros : ℤ)
    → IsDatetime micros
    → (d : ℤ) × (t : ℕ) × (date micros ≡ some d)
      × (time micros ≡ some t)
      × (new_datetime d t ≡ some micros)
new_datetime-date micros h =
    let d : ℤ = div_euclid micros micros_per_day in
    let t : ℕ = rem_euclid micros micros_per_day in
    (
      d,
      t,
      date_lem micros d (div_euclid-IsDate micros h) refl,
      time_lem micros t (time-lt micros) refl,
      new_datetime_lem d t (div_euclid-IsDate micros h) (time-lt micros)
          ∙ ap some (together micros),
    )

-- `LocalDatetime::try_from_micros` accepts the microseconds of its range, from the first one of
-- the first day to the last one of the last day, and no others.
pub try_from_datetime_micros_iff :
    (micros : ℤ) → (try_from_datetime_micros micros ≡ some micros) ↔ IsDatetime micros
unfolding try_from_datetime_micros min_micros max_micros times plus is_lt
try_from_datetime_micros_iff (pos n) = (λ h. ground arith, λ h. in_range_pos n h)
try_from_datetime_micros_iff (negsuc n) = (λ h. ground arith, λ h. in_range_negsuc n h)
