-- ===== src/Time/Datetime/SystemTime.antt =====
-- A `Datetime` as a system time and back, and the system times that are no `Datetime`.
use edgedb_rust.Base.{
  ℕ, ◌<◌, ◌⊎◌, ◌/◌, ◌%◌, ◌-◌, false, ltb, or_panic, zero, suc, ◌+◌, ◌*◌, ◌≡◌, refl, sym, ap, ◌∙◌,
  Bool, true, ◌||◌, Bool-cases, inl, inr, none, Result, ok, err, panic, ok-injective, if◌then◌else◌,
  arith,
}
use edgedb_rust.Time.Int.{ℤ, pos, negsuc, div_euclid, is_lt, ◌+ℤ◌, ◌-ℤ◌, negate, abs, fits}
use edgedb_rust.Time.Durations.Arithmetic.{IsInt, IsInt-fits}
use edgedb_rust.Time.LocalDatetime.{
  IsDatetime, try_from_datetime_micros, in_range_pos, in_range_negsuc, try_from_datetime_micros_iff,
  min_micros, max_micros,
}
use edgedb_rust.Time.Datetime.{
  OutOfRange, out_of_range, postgres_epoch_unix, to_system_time, from_utc_micros, from_system_time,
}

negate-sub : (a b : ℤ) → negate (b -ℤ a) ≡ a -ℤ b
unfolding ◌+ℤ◌ ◌-ℤ◌ negate
negate-sub (pos zero) (pos zero) = refl
negate-sub (pos zero) (pos (suc n)) = ground arith
negate-sub (pos (suc m)) (pos zero) = ground arith
negate-sub (pos (suc m)) (pos (suc n)) = ground arith
negate-sub (pos zero) (negsuc n) = ground arith
negate-sub (pos (suc m)) (negsuc n) = ground arith
negate-sub (negsuc m) (pos zero) = ground arith
negate-sub (negsuc m) (pos (suc n)) = ground arith
negate-sub (negsuc m) (negsuc n) = ground arith

sub-plus : (a b : ℤ) → (a +ℤ b) -ℤ a ≡ b
unfolding ◌+ℤ◌ ◌-ℤ◌ negate
sub-plus (pos zero) (pos n) = ground arith
sub-plus (pos (suc m)) (pos n) = ground arith
sub-plus (pos zero) (negsuc n) = ground arith
sub-plus (pos (suc m)) (negsuc n) = ground arith
sub-plus (negsuc m) (pos n) = ground arith
sub-plus (negsuc m) (negsuc n) = ground arith

abbrev pub scaled : ℤ → ℤ
scaled (pos n) = pos (n * 1000)
scaled (negsuc n) = negsuc (n * 1000 + 999)

nanos_lem :
    (time : ℤ)
    → (if is_lt time postgres_epoch_unix
        then negate (postgres_epoch_unix -ℤ time)
        else time -ℤ postgres_epoch_unix)
      ≡ time -ℤ postgres_epoch_unix
nanos_lem time = elim (Bool-cases (is_lt time postgres_epoch_unix)) [
  | inl before ↦ rw (before) (negate-sub time postgres_epoch_unix)
  | inr after ↦ rw (after) refl
]

shifted_lem :
    (micros : ℤ)
    → (if is_lt (pos 0) micros
        then postgres_epoch_unix +ℤ pos (abs micros * 1000)
        else postgres_epoch_unix -ℤ pos (abs micros * 1000))
      ≡ postgres_epoch_unix +ℤ scaled micros
unfolding is_lt abs ◌-ℤ◌ negate
shifted_lem (pos zero) = refl
shifted_lem (pos (suc n)) = ground arith
shifted_lem (negsuc n) = let e : suc n * 1000 ≡ suc (n * 1000 + 999) = omega arith in rw (e) refl

-- The quotient of so many whole thousands and a rest is the thousands.
div_euclid-scaled : (v : ℤ) (rest : ℕ) → rest < 1000 → div_euclid (scaled v +ℤ pos rest) 1000 ≡ v
unfolding div_euclid ◌+ℤ◌
div_euclid-scaled (pos n) rest h = ap pos (omega arith)
div_euclid-scaled (negsuc n) rest h =
    let e : ltb (n * 1000 + 999) rest ≡ false = ground arith in rw (e) (ap negsuc (omega arith))

fits-IsDatetime : (v : ℤ) → IsDatetime v → fits 64 v ≡ true
unfolding fits
fits-IsDatetime (pos n) h = ground arith
fits-IsDatetime (negsuc n) h = ground arith

from_utc_micros_lem : (v : ℤ) → IsDatetime v → from_utc_micros v ≡ ok v
unfolding from_utc_micros
from_utc_micros_lem (pos n) h = rw (in_range_pos n h) refl
from_utc_micros_lem (negsuc n) h = rw (in_range_negsuc n h) refl

-- The system time so many microseconds from the epoch of Postgres, and nanoseconds behind them.
abbrev pub moment_of : ℤ → (nanos : ℕ) → ℤ
moment_of micros nanos = postgres_epoch_unix +ℤ (scaled micros +ℤ pos nanos)

in_micros :
    (v : ℤ) (nanos : ℕ)
    → nanos < 1000
    → from_system_time (moment_of v nanos)
      ≡ (if fits 64 v then from_utc_micros v else err out_of_range)
unfolding from_system_time
in_micros v nanos h =
    rw
      (
        nanos_lem (moment_of v nanos),
        sub-plus postgres_epoch_unix (scaled v +ℤ pos nanos),
        div_euclid-scaled v nanos h,
      )
      refl

plus-zero : (v : ℤ) → v +ℤ pos 0 ≡ v
unfolding ◌+ℤ◌
plus-zero (pos n) = ap pos (omega arith)
plus-zero (negsuc n) = ground arith

represented :
    (b : Bool) (x time : ℤ)
    → ◌≡◌ {A = Result OutOfRange ℤ} (if b then ok x else err out_of_range) (ok time)
    → x ≡ time
represented true x time e = ok-injective e
represented false x time e = cc

none_of :
    (micros : ℤ)
    → (is_lt micros min_micros || is_lt max_micros micros) ≡ true
    → try_from_datetime_micros micros ≡ none
unfolding try_from_datetime_micros
none_of micros out = rw (out) refl

in_bounds :
    (micros : ℤ) → (is_lt micros min_micros || is_lt max_micros micros) ≡ false → IsDatetime micros
unfolding try_from_datetime_micros
in_bounds micros inside =
    (try_from_datetime_micros_iff micros).0 (rw (inside, try_from_datetime_micros) refl)

out_of_bounds :
    (micros : ℤ) → (is_lt micros min_micros || is_lt max_micros micros) ≡ true → ¬ IsDatetime micros
out_of_bounds micros out d =
    let e = none_of micros out in let k = (try_from_datetime_micros_iff micros).1 d in cc

-- Where the platform can represent the system time of a `Datetime`, the `Datetime` comes back from
-- it.
pub from_system_time-to_system_time :
    (representable : ℤ → Bool) (micros time : ℤ)
    → IsDatetime micros
    → to_system_time representable micros ≡ ok time
    → from_system_time time ≡ ok micros
unfolding to_system_time
from_system_time-to_system_time representable micros time h e =
    let same = represented _ _ time e in
    ap from_system_time (sym same ∙ shifted_lem micros)
    ∙ ap (λ x. from_system_time (postgres_epoch_unix +ℤ x)) (sym (plus-zero (scaled micros)))
    ∙ in_micros micros 0 (omega arith)
    ∙ rw (fits-IsDatetime micros h) (from_utc_micros_lem micros h)

-- Every system time is such a moment.
rounded : (v : ℤ) → (m : ℤ) × (r : ℕ) × (r < 1000) × (v ≡ scaled m +ℤ pos r)
unfolding ◌+ℤ◌
rounded (pos n) = (pos (n / 1000), n % 1000, omega arith, ap pos (omega arith))
rounded (negsuc n) =
    let e : ltb (n / 1000 * 1000 + 999) (999 - n % 1000) ≡ false = ground arith in
    (negsuc (n / 1000), 999 - n % 1000, omega arith, rw (e) (ap negsuc (omega arith)))

plus-sub : (a b : ℤ) → a +ℤ (b -ℤ a) ≡ b
unfolding ◌+ℤ◌ ◌-ℤ◌ negate
plus-sub (pos zero) (pos n) = ground arith
plus-sub (pos (suc m)) (pos n) = ground arith
plus-sub (pos zero) (negsuc n) = ground arith
plus-sub (pos (suc m)) (negsuc n) = ground arith
plus-sub (negsuc m) (pos n) = ground arith
plus-sub (negsuc m) (negsuc n) = ground arith

-- What becomes of a system time by its microseconds, rounded down: a `Datetime` that is in range, a
-- panic where they fit an `i64`, and an error where they do not.
abbrev pub Outcome : ℤ → Result OutOfRange ℤ → Type 0
Outcome micros r =
    (IsDatetime micros × (r ≡ ok micros))
    ⊎ (¬ IsDatetime micros × IsInt 64 micros × (r ≡ panic))
    ⊎ (¬ IsInt 64 micros × (r ≡ err out_of_range))

too_large : (v : ℤ) → fits 64 v ≡ false → ¬ IsInt 64 v
unfolding fits
too_large (pos n) e h = ground arith
too_large (negsuc n) e h = ground arith

at_moment :
    (micros : ℤ) (nanos : ℕ)
    → nanos < 1000
    → Outcome micros (from_system_time (moment_of micros nanos))
unfolding from_utc_micros
at_moment micros nanos h = elim (Bool-cases (fits 64 micros)) [
  | inl fit ↦ elim (Bool-cases (is_lt micros min_micros || is_lt max_micros micros)) [
    | inl out ↦
        let outside = out_of_bounds micros out in
        inr (
          inl (
            outside,
            IsInt-fits 64 micros fit,
            in_micros micros nanos h ∙ rw (fit) (ap or_panic (none_of micros out)),
          ))
    | inr inside ↦
        let d = in_bounds micros inside in
        inl (d, in_micros micros nanos h ∙ rw (fit) (from_utc_micros_lem micros d))
  ]
  | inr large ↦ inr (inr (too_large micros large, in_micros micros nanos h ∙ rw (large) refl))
]

of_moment :
    (time micros : ℤ) (nanos : ℕ)
    → time ≡ moment_of micros nanos
    → nanos < 1000
    → Outcome micros (from_system_time time)
of_moment time micros nanos e h = rw (e) (at_moment micros nanos h)

-- Every system time is a number of microseconds from the epoch of Postgres, and less than a thousand
-- nanoseconds more. `Datetime::from_system_time` gives these microseconds where they are a
-- `Datetime`; it panics where they are none but fit an `i64`, though it has an error to return; and
-- it returns the error where they do not fit.
pub from_system_time_lem :
    (time : ℤ)
    → (micros : ℤ) × (nanos : ℕ) × (nanos < 1000)
      × (time ≡ moment_of micros nanos)
      × Outcome micros (from_system_time time)
from_system_time_lem time =
    let (micros, nanos, h, e) = rounded (time -ℤ postgres_epoch_unix) in
    let same : time ≡ moment_of micros nanos =
      sym (plus-sub postgres_epoch_unix time) ∙ ap (◌+ℤ◌ postgres_epoch_unix) e in
    (micros, nanos, h, same, of_moment time micros nanos same h)
