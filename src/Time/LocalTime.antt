-- ===== src/Time/LocalTime.antt =====
-- edgedb-protocol/src/model/time.rs: `LocalTime`. A `LocalTime` is its number of microseconds, a
-- panic is `none`.
use edgedb_rust.Base.{
  ℕ, ◌+◌, ◌*◌, ◌/◌, ◌%◌, ◌^◌, ◌<◌, ◌≡◌, refl, ap, ◌∙◌, Option, none, some, ltb, lt→ltb, ◌&&◌,
  if◌then◌else◌, arith,
}

abbrev pub secs_per_day : ℕ
secs_per_day = 86400

abbrev pub micros_per_day : ℕ
micros_per_day = 86400000000

unfoldable pub try_from_micros : (micros : ℕ) → Option ℕ
try_from_micros micros = if ltb micros micros_per_day then some micros else none

unfoldable pub from_micros : (micros : ℕ) → Option ℕ
unfolding try_from_micros
from_micros micros = try_from_micros micros

pub record Hmsu : Type 0 where
  pub hour : ℕ
  pub minute : ℕ
  pub second : ℕ
  pub microsecond : ℕ

-- Hours, minutes and seconds are cast to `u8`, the microseconds to `u32`.
unfoldable pub to_hmsu : (micros : ℕ) → Hmsu
to_hmsu micros = record {
  hour = micros / 1000000 / 60 / 60 % 24 % 2 ^ 8;
  minute = micros / 1000000 / 60 % 60 % 2 ^ 8;
  second = micros / 1000000 % 60 % 2 ^ 8;
  microsecond = micros % 1000000 % 2 ^ 32;
}

unfoldable pub from_hmsu : Hmsu → Option ℕ
unfolding from_micros
from_hmsu t =
    if (ltb t.microsecond 1000000 && ltb t.second 60) && (ltb t.minute 60 && ltb t.hour 24)
    then from_micros (t.microsecond + 1000000 * (t.second + 60 * (t.minute + 60 * t.hour)))
    else none

pub record IsHmsu (t : Hmsu) : Type 0 where
  pub hour_lt : t.hour < 24
  pub minute_lt : t.minute < 60
  pub second_lt : t.second < 60
  pub microsecond_lt : t.microsecond < 1000000

abbrev sum : Hmsu → ℕ
sum t = t.microsecond + 1000000 * (t.second + 60 * (t.minute + 60 * t.hour))

from_hmsu_lem : (t : Hmsu) → IsHmsu t → from_hmsu t ≡ some (sum t)
unfolding from_hmsu from_micros try_from_micros
from_hmsu_lem t v =
    rw
      (
        lt→ltb _ _ v.microsecond_lt,
        lt→ltb _ _ v.second_lt,
        lt→ltb _ _ v.minute_lt,
        lt→ltb _ _ v.hour_lt,
        lt→ltb (sum t) micros_per_day
            (omega (arith, v.microsecond_lt, v.second_lt, v.minute_lt, v.hour_lt)),
      )
      refl

to_hmsu-IsHmsu : (micros : ℕ) → IsHmsu (to_hmsu micros)
unfolding to_hmsu
to_hmsu-IsHmsu micros = record {
  hour_lt = omega arith;
  minute_lt = omega arith;
  second_lt = omega arith;
  microsecond_lt = omega arith;
}

sum-to_hmsu : (micros : ℕ) → micros < micros_per_day → sum (to_hmsu micros) ≡ micros
unfolding to_hmsu
sum-to_hmsu micros h = omega arith

-- The parts that `LocalTime::to_hmsu` gives of a time of the day are in range, and
-- `LocalTime::from_hmsu` puts them together to the time.
pub from_hmsu-to_hmsu :
    (micros : ℕ)
    → micros < micros_per_day
    → IsHmsu (to_hmsu micros) × (from_hmsu (to_hmsu micros) ≡ some micros)
from_hmsu-to_hmsu micros h = (
  to_hmsu-IsHmsu micros,
  from_hmsu_lem (to_hmsu micros) (to_hmsu-IsHmsu micros) ∙ ap some (sum-to_hmsu micros h),
)

-- `LocalTime::from_hmsu` takes parts that are in range without a panic, and `LocalTime::to_hmsu`
-- gives them back.
pub to_hmsu-from_hmsu :
    (t : Hmsu) → IsHmsu t → (micros : ℕ) × (from_hmsu t ≡ some micros) × (to_hmsu micros ≡ t)
unfolding to_hmsu
to_hmsu-from_hmsu t v = (
  sum t,
  from_hmsu_lem t v,
  λ i. record {
    hour = hours t v i;
    minute = minutes t v i;
    second = seconds t v i;
    microsecond = microseconds t v i;
  },
)
  where
    hours : (t : Hmsu) → IsHmsu t → sum t / 1000000 / 60 / 60 % 24 % 2 ^ 8 ≡ t.hour
    hours t v = omega (arith, v.microsecond_lt, v.second_lt, v.minute_lt, v.hour_lt)

    minutes : (t : Hmsu) → IsHmsu t → sum t / 1000000 / 60 % 60 % 2 ^ 8 ≡ t.minute
    minutes t v = omega (arith, v.microsecond_lt, v.second_lt, v.minute_lt, v.hour_lt)

    seconds : (t : Hmsu) → IsHmsu t → sum t / 1000000 % 60 % 2 ^ 8 ≡ t.second
    seconds t v = omega (arith, v.microsecond_lt, v.second_lt, v.minute_lt, v.hour_lt)

    microseconds : (t : Hmsu) → IsHmsu t → sum t % 1000000 % 2 ^ 32 ≡ t.microsecond
    microseconds t v = omega (arith, v.microsecond_lt, v.second_lt, v.minute_lt, v.hour_lt)
