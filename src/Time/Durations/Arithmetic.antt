-- ===== src/Time/Durations/Arithmetic.antt =====
-- The sums and differences of durations that are in range, and the absolute value of a `Duration`.
use edgedb_rust.Base.{
  ℕ, zero, suc, sym, ap, ◌∙◌, ◌-◌, ◌%◌, ◌^◌, ◌<◌, ◌≡◌, ◌≢◌, refl, true, Bool-cases, inl, inr,
  lt→ltb, ltb→lt, Option, none, some, some-injective, arith,
}
use edgedb_rust.Time.Int.{ℤ, pos, negsuc, ◌+ℤ◌, ◌-ℤ◌, negate, abs, fits, wrapping}
use edgedb_rust.Time.Durations.{checked, ◌>>=◌, abs_duration, is_negative, as_u64}
use edgedb_rust.Time.DateDuration
use edgedb_rust.Time.DateDuration.{DateDuration}
use edgedb_rust.Time.RelativeDuration
use edgedb_rust.Time.RelativeDuration.{RelativeDuration}

-- A number that an integer of `w` bits holds.
abbrev pub IsInt : ℕ → ℤ → Type 0
IsInt w (pos n) = n < 2 ^ (w - 1)
IsInt w (negsuc n) = n < 2 ^ (w - 1)

sub-add : (a b : ℤ) → (a +ℤ b) -ℤ b ≡ a
unfolding ◌+ℤ◌ ◌-ℤ◌ negate
sub-add (pos m) (pos zero) = ground arith
sub-add (pos m) (pos (suc n)) = ground arith
sub-add (pos m) (negsuc n) = ground arith
sub-add (negsuc m) (pos zero) = ground arith
sub-add (negsuc m) (pos (suc n)) = ground arith
sub-add (negsuc m) (negsuc n) = ground arith

fits_iff : (w : ℕ) (v : ℤ) → IsInt w v → fits w v ≡ true
unfolding fits
fits_iff w (pos n) h = lt→ltb _ _ h
fits_iff w (negsuc n) h = lt→ltb _ _ h

pub IsInt-fits : (w : ℕ) (v : ℤ) → fits w v ≡ true → IsInt w v
unfolding fits
IsInt-fits w (pos n) h = ltb→lt _ _ h
IsInt-fits w (negsuc n) h = ltb→lt _ _ h

wrapping_32 : (v : ℤ) → fits 32 v ≡ true → wrapping 32 v ≡ v
unfolding wrapping fits
wrapping_32 (pos n) h =
    let k : n < 2 ^ 31 = ltb→lt _ _ h in let e : n % 2 ^ 32 ≡ n = omega arith in rw (e, h) refl
wrapping_32 (negsuc n) h =
    let k : n < 2 ^ 31 = ltb→lt _ _ h in let e : n % 2 ^ 32 ≡ n = omega arith in rw (e, h) refl

wrapping_64 : (v : ℤ) → fits 64 v ≡ true → wrapping 64 v ≡ v
unfolding wrapping fits
wrapping_64 (pos n) h =
    let k : n < 2 ^ 63 = ltb→lt _ _ h in let e : n % 2 ^ 64 ≡ n = omega arith in rw (e, h) refl
wrapping_64 (negsuc n) h =
    let k : n < 2 ^ 63 = ltb→lt _ _ h in let e : n % 2 ^ 64 ≡ n = omega arith in rw (e, h) refl

none-ne-some : {A : Type 0} {a : A} → ◌≢◌ {A = Option A} none (some a)
none-ne-some h = cc

module _ {B : Type 0} (w : ℕ) (v : ℤ) (f : ℤ → Option B) where
  checked-eq_some : (b : B) → (checked w v >>= f) ≡ some b → (fits w v ≡ true) × (f v ≡ some b)
  unfolding checked
  checked-eq_some b e = elim (Bool-cases (fits w v)) [
    | inl here ↦ (here, rw here at e)
    | inr out ↦ absurd (none-ne-some (rw out at e))
  ]

-- The numbers of a `RelativeDuration`.
abbrev pub IsRelativeDuration : RelativeDuration → Type 0
IsRelativeDuration d = IsInt 32 d.months × IsInt 32 d.days × IsInt 64 d.micros

abbrev relative_sum : RelativeDuration → RelativeDuration → RelativeDuration
relative_sum a b = record {
  micros = a.micros +ℤ b.micros;
  days = a.days +ℤ b.days;
  months = a.months +ℤ b.months;
}

relative_add :
    (a b : RelativeDuration)
    → IsRelativeDuration (relative_sum a b)
    → RelativeDuration.add a b ≡ relative_sum a b
unfolding RelativeDuration.add
relative_add a b (h, k, l) =
    rw
      (
        wrapping_32 _ (fits_iff 32 _ h),
        wrapping_32 _ (fits_iff 32 _ k),
        wrapping_64 _ (fits_iff 64 _ l),
      )
      refl

relative_sub :
    (a b : RelativeDuration)
    → IsRelativeDuration a
    → RelativeDuration.checked_sub (relative_sum a b) b ≡ some a
unfolding RelativeDuration.checked_sub checked
relative_sub a b (h, k, l) =
    rw
      (
        sub-add a.months b.months,
        fits_iff 32 _ h,
        sub-add a.days b.days,
        fits_iff 32 _ k,
        sub-add a.micros b.micros,
        fits_iff 64 _ l,
      )
      refl

relative_checked_add :
    (a b c : RelativeDuration)
    → RelativeDuration.checked_add a b ≡ some c
    → IsRelativeDuration (relative_sum a b) × (relative_sum a b ≡ c)
unfolding RelativeDuration.checked_add
relative_checked_add a b c e =
    let (p, e1) = checked-eq_some 32 (a.months +ℤ b.months) with_months c e in
    let (q, e2) = checked-eq_some 32 (a.days +ℤ b.days) (with_days (a.months +ℤ b.months)) c e1 in
    let (r, e3) =
      checked-eq_some 64 (a.micros +ℤ b.micros) (made (a.months +ℤ b.months) (a.days +ℤ b.days)) c
        e2 in
    ((IsInt-fits 32 _ p, IsInt-fits 32 _ q, IsInt-fits 64 _ r), some-injective e3)
  where
    made : (months days micros : ℤ) → Option RelativeDuration
    made months days micros = some (record { micros = micros; days = days; months = months })

    with_days : (months days : ℤ) → Option RelativeDuration
    with_days months days = checked 64 (a.micros +ℤ b.micros) >>= made months days

    with_months : (months : ℤ) → Option RelativeDuration
    with_months months = checked 32 (a.days +ℤ b.days) >>= with_days months

-- Where `RelativeDuration::checked_add` gives a duration, `+` gives the same, and
-- `RelativeDuration::checked_sub` takes the second operand off it again.
pub relative_checked_sub-checked_add :
    (a b c : RelativeDuration)
    → IsRelativeDuration a
    → RelativeDuration.checked_add a b ≡ some c
    → (RelativeDuration.add a b ≡ c) × (RelativeDuration.checked_sub c b ≡ some a)
relative_checked_sub-checked_add a b c h e =
    let (k, same) = relative_checked_add a b c e in
    (
      relative_add a b k ∙ same,
      ap (λ c. RelativeDuration.checked_sub c b) (sym same) ∙ relative_sub a b h,
    )

-- The numbers of a `DateDuration`.
abbrev pub IsDateDuration : DateDuration → Type 0
IsDateDuration d = IsInt 32 d.months × IsInt 32 d.days

abbrev date_sum : DateDuration → DateDuration → DateDuration
date_sum a b = record { days = a.days +ℤ b.days; months = a.months +ℤ b.months }

date_add :
    (a b : DateDuration) → IsDateDuration (date_sum a b) → DateDuration.add a b ≡ date_sum a b
unfolding DateDuration.add
date_add a b (h, k) = rw (wrapping_32 _ (fits_iff 32 _ h), wrapping_32 _ (fits_iff 32 _ k)) refl

date_sub :
    (a b : DateDuration) → IsDateDuration a → DateDuration.checked_sub (date_sum a b) b ≡ some a
unfolding DateDuration.checked_sub checked
date_sub a b (h, k) =
    rw (sub-add a.months b.months, fits_iff 32 _ h, sub-add a.days b.days, fits_iff 32 _ k) refl

date_checked_add :
    (a b c : DateDuration)
    → DateDuration.checked_add a b ≡ some c
    → IsDateDuration (date_sum a b) × (date_sum a b ≡ c)
unfolding DateDuration.checked_add
date_checked_add a b c e =
    let (p, e1) = checked-eq_some 32 (a.months +ℤ b.months) with_months c e in
    let (q, e2) = checked-eq_some 32 (a.days +ℤ b.days) (made (a.months +ℤ b.months)) c e1 in
    ((IsInt-fits 32 _ p, IsInt-fits 32 _ q), some-injective e2)
  where
    made : (months days : ℤ) → Option DateDuration
    made months days = some (record { days = days; months = months })

    with_months : (months : ℤ) → Option DateDuration
    with_months months = checked 32 (a.days +ℤ b.days) >>= made months

-- The same of `DateDuration`.
pub date_checked_sub-checked_add :
    (a b c : DateDuration)
    → IsDateDuration a
    → DateDuration.checked_add a b ≡ some c
    → (DateDuration.add a b ≡ c) × (DateDuration.checked_sub c b ≡ some a)
date_checked_sub-checked_add a b c h e =
    let (k, same) = date_checked_add a b c e in
    (date_add a b k ∙ same, ap (λ c. DateDuration.checked_sub c b) (sym same) ∙ date_sub a b h)

-- `Duration::abs_duration` is the absolute value of every `Duration`, the least one included, and
-- does not wrap.
pub abs_duration_lem : (micros : ℤ) → IsInt 64 micros → abs_duration micros ≡ abs micros
unfolding abs_duration is_negative as_u64 abs
abs_duration_lem (pos n) h = omega arith
abs_duration_lem (negsuc n) h = omega arith
