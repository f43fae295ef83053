-- ===== src/Time/DateDuration.antt =====
-- edgedb-protocol/src/model/time.rs: `DateDuration`. `add` and `sub` are its operators.
use edgedb_rust.Base.{Option, some}
use edgedb_rust.Time.Int.{ℤ, pos, times, ◌+ℤ◌, ◌-ℤ◌, wrapping}
use edgedb_rust.Time.Durations.{checked, ◌>>=◌}

pub record DateDuration : Type 0 where
  pub days : ℤ
  pub months : ℤ

-- `DateDuration::try_from_years` and so on; an error is `none`.
unfoldable pub try_from_years : (years : ℤ) → Option DateDuration
unfolding checked
try_from_years years = do
  months ← checked 32 (times years 12)
  some (record { days = pos 0; months = months })

unfoldable pub try_from_months : (months : ℤ) → Option DateDuration
try_from_months months = some (record { days = pos 0; months = months })

unfoldable pub try_from_days : (days : ℤ) → Option DateDuration
try_from_days days = some (record { days = days; months = pos 0 })

unfoldable pub checked_add : DateDuration → DateDuration → Option DateDuration
unfolding checked ◌+ℤ◌
checked_add self other = do
  months ← checked 32 (self.months +ℤ other.months)
  days ← checked 32 (self.days +ℤ other.days)
  some (record { days = days; months = months })

unfoldable pub checked_sub : DateDuration → DateDuration → Option DateDuration
unfolding checked ◌-ℤ◌
checked_sub self other = do
  months ← checked 32 (self.months -ℤ other.months)
  days ← checked 32 (self.days -ℤ other.days)
  some (record { days = days; months = months })

unfoldable pub add : DateDuration → DateDuration → DateDuration
unfolding wrapping ◌+ℤ◌
add self other = record {
  days = wrapping 32 (self.days +ℤ other.days);
  months = wrapping 32 (self.months +ℤ other.months);
}

unfoldable pub sub : DateDuration → DateDuration → DateDuration
unfolding wrapping ◌-ℤ◌
sub self other = record {
  days = wrapping 32 (self.days -ℤ other.days);
  months = wrapping 32 (self.months -ℤ other.months);
}
