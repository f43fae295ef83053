-- ===== src/Time/RelativeDuration.antt =====
-- edgedb-protocol/src/model/time.rs: `RelativeDuration`. `add` and `sub` are its operators.
use edgedb_rust.Base.{ℕ, Option, some}
use edgedb_rust.Time.Int.{ℤ, pos, times, ◌+ℤ◌, ◌-ℤ◌, wrapping}
use edgedb_rust.Time.Durations.{checked, ◌>>=◌}

pub record RelativeDuration : Type 0 where
  pub micros : ℤ
  pub days : ℤ
  pub months : ℤ

-- `RelativeDuration::try_from_years` and so on; an error is `none`.
unfoldable pub try_from_years : (years : ℤ) → Option RelativeDuration
unfolding checked
try_from_years years = do
  months ← checked 32 (times years 12)
  some (record { micros = pos 0; days = pos 0; months = months })

unfoldable pub try_from_months : (months : ℤ) → Option RelativeDuration
try_from_months months = some (record { micros = pos 0; days = pos 0; months = months })

unfoldable pub try_from_days : (days : ℤ) → Option RelativeDuration
try_from_days days = some (record { micros = pos 0; days = days; months = pos 0 })

-- A number of a unit of so many microseconds.
unfoldable pub try_from_units : (unit : ℕ) → ℤ → Option RelativeDuration
unfolding checked
try_from_units unit v = do
  micros ← checked 64 (times v unit)
  some (record { micros = micros; days = pos 0; months = pos 0 })

unfoldable pub try_from_hours : (hours : ℤ) → Option RelativeDuration
unfolding try_from_units
try_from_hours hours = try_from_units 3600000000 hours

unfoldable pub try_from_minutes : (minutes : ℤ) → Option RelativeDuration
unfolding try_from_units
try_from_minutes minutes = try_from_units 60000000 minutes

unfoldable pub try_from_secs : (secs : ℤ) → Option RelativeDuration
unfolding try_from_units
try_from_secs secs = try_from_units 1000000 secs

unfoldable pub try_from_millis : (millis : ℤ) → Option RelativeDuration
unfolding try_from_units
try_from_millis millis = try_from_units 1000 millis

unfoldable pub try_from_micros : (micros : ℤ) → Option RelativeDuration
try_from_micros micros = some (record { micros = micros; days = pos 0; months = pos 0 })

unfoldable pub checked_add : RelativeDuration → RelativeDuration → Option RelativeDuration
unfolding checked ◌+ℤ◌
checked_add self other = do
  months ← checked 32 (self.months +ℤ other.months)
  days ← checked 32 (self.days +ℤ other.days)
  micros ← checked 64 (self.micros +ℤ other.micros)
  some (record { micros = micros; days = days; months = months })

unfoldable pub checked_sub : RelativeDuration → RelativeDuration → Option RelativeDuration
unfolding checked ◌-ℤ◌
checked_sub self other = do
  months ← checked 32 (self.months -ℤ other.months)
  days ← checked 32 (self.days -ℤ other.days)
  micros ← checked 64 (self.micros -ℤ other.micros)
  some (record { micros = micros; days = days; months = months })

unfoldable pub add : RelativeDuration → RelativeDuration → RelativeDuration
unfolding wrapping ◌+ℤ◌
add self other = record {
  micros = wrapping 64 (self.micros +ℤ other.micros);
  days = wrapping 32 (self.days +ℤ other.days);
  months = wrapping 32 (self.months +ℤ other.months);
}

unfoldable pub sub : RelativeDuration → RelativeDuration → RelativeDuration
unfolding wrapping ◌-ℤ◌
sub self other = record {
  micros = wrapping 64 (self.micros -ℤ other.micros);
  days = wrapping 32 (self.days -ℤ other.days);
  months = wrapping 32 (self.months -ℤ other.months);
}
