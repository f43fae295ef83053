-- ===== src/Time/Datetime.antt =====
-- edgedb-protocol/src/model/time.rs: `Datetime`, which is its number of microseconds, and the system
-- time, which is a number of nanoseconds after the start of 1970. What the platform can represent
-- of the latter is a parameter.
pub mod SystemTime
use edgedb_rust.Base.{
  ℕ, zero, suc, ◌+◌, ◌-◌, ◌*◌, ◌^◌, ◌≤◌, ◌<◌, ◌≡◌, ◌≢◌, refl, sym, ap, ◌∙◌, Bool, true, false, ◌||◌,
  ltb, lt→ltb, Option, none, some, Result, ok, err, panic, or_panic, if◌then◌else◌, arith,
}
use edgedb_rust.Time.Int.{ℤ, pos, negsuc, times, div_euclid, is_lt, ◌+ℤ◌, ◌-ℤ◌, negate, abs, fits}
use edgedb_rust.Time.LocalDatetime.{min_micros, max_micros, IsDatetime, try_from_datetime_micros}

pub data OutOfRange : Type 0 where
  out_of_range : OutOfRange

-- `Datetime::postgres_epoch_unix`: 10957 days.
abbrev pub postgres_epoch_unix : ℤ
postgres_epoch_unix = pos (10957 * 86400000000 * 1000)

-- `Datetime::to_system_time`
unfoldable pub to_system_time : (representable : ℤ → Bool) → ℤ → Result OutOfRange ℤ
unfolding is_lt ◌+ℤ◌ ◌-ℤ◌ abs
to_system_time representable micros =
    let time =
      if is_lt (pos 0) micros
      then postgres_epoch_unix +ℤ pos (abs micros * 1000)
      else postgres_epoch_unix -ℤ pos (abs micros * 1000) in
    if representable time then ok time else err out_of_range

-- `Datetime::from_micros`; `Datetime` has the bounds of `LocalDatetime`.
unfoldable pub from_utc_micros : ℤ → Result OutOfRange ℤ
unfolding try_from_datetime_micros
from_utc_micros micros = or_panic (try_from_datetime_micros micros)

-- `Datetime::from_system_time`
unfoldable pub from_system_time : ℤ → Result OutOfRange ℤ
unfolding is_lt ◌-ℤ◌ negate div_euclid fits from_utc_micros
from_system_time time =
    let nanos =
      if is_lt time postgres_epoch_unix
      then negate (postgres_epoch_unix -ℤ time)
      else time -ℤ postgres_epoch_unix in
    let micros = div_euclid nanos 1000 in
    if fits 64 micros then from_utc_micros micros else err out_of_range
