-- ===== src/Time/Durations/Clock.antt =====
-- The parts of the text that `Duration::fmt` in time.rs writes, and what
-- `Duration::try_from_pg_simple_format` makes of each of them.
use edgedb_rust.Base.{
  ℕ, zero, suc, ◌+◌, ◌*◌, ◌<◌, ◌≤◌, ◌≡◌, refl, ap, ◌∙◌, true, false, List, [], ◌∷◌, ◌++◌,
  append-nil, Option, none, some, ok, All, All-append, arith,
}
use edgedb_rust.Base.HashMap.{◌==◌, nat_eq}
use edgedb_rust.Time.Int.{ℤ, pos, abs, ◌+ℤ◌}
use edgedb_rust.Time.Durations.Text.{digits, decimal}
use edgedb_rust.Time.Durations.Show.{two_digits, show_fraction}
use edgedb_rust.Time.Durations.Parse.{
  is_whitespace, trim_start, keep_char, trim_end, split_once, parse_i32, parse_sixty, add_seconds,
  add_second_parts, add_minute_parts, of_hour_parts, of_signed_hours, minutes_of, add_minutes,
  strip_minus, add_to_hours,
}
use edgedb_rust.Time.Durations.Fraction.{show_fraction-IsFraction}
use edgedb_rust.Time.Durations.Digits.{
  IsDigit, IsFilled, digits-IsDigit, two_digits-IsDigit, two_digits-IsFilled,
  parse_sixty-two_digits,
}

-- A character of the text of a duration.
abbrev pub IsShown : ℕ → Type 0
IsShown c = (45 ≤ c) × (c < 59)

IsDigit-IsShown : (xs : List ℕ) → All IsDigit xs → All IsShown xs
IsDigit-IsShown [] h = tt
IsDigit-IsShown (x ∷ xs) ((a, b), hs) = ((omega arith, omega arith), IsDigit-IsShown xs hs)

is_whitespace_lem : (c : ℕ) → IsShown c → is_whitespace c ≡ false
unfolding is_whitespace
is_whitespace_lem c (a, b) = ground arith

pub trim_end_lem : (xs : List ℕ) → All IsShown xs → trim_end xs ≡ xs
unfolding trim_end
trim_end_lem [] h = refl
trim_end_lem (x ∷ xs) (h, hs) = rw (trim_end_lem xs hs) (kept xs)
  where
    kept : (xs : List ℕ) → keep_char x xs ≡ x ∷ xs
    kept [] = rw (is_whitespace_lem x h) refl
    kept (y ∷ ys) = refl

module _ (c : ℕ) (other : (x : ℕ) → IsDigit x → (x == c) ≡ false) where
  pub split_once-found :
      (xs ys : List ℕ) → All IsDigit xs → split_once c (xs ++ (c ∷ ys)) ≡ (xs, some ys)
  unfolding split_once
  split_once-found [] ys h = let e : (c == c) ≡ true = ground arith in rw (e) refl
  split_once-found (x ∷ xs) ys (h, hs) = rw (other x h, split_once-found xs ys hs) refl

  split_once-missing : (xs : List ℕ) → All IsDigit xs → split_once c xs ≡ (xs, none)
  unfolding split_once
  split_once-missing [] h = refl
  split_once-missing (x ∷ xs) (h, hs) = rw (other x h, split_once-missing xs hs) refl

no_point : (x : ℕ) → IsDigit x → (x == 46) ≡ false
no_point x (a, b) = ground arith

pub no_colon : (x : ℕ) → IsDigit x → (x == 58) ≡ false
no_colon x (a, b) = ground arith

-- What is behind the seconds.
abbrev pub point_and : ℕ → List ℕ
point_and zero = []
point_and (suc u) = 46 ∷ show_fraction (pos (suc u))

add_seconds_lem :
    (v s u : ℕ)
    → s < 60
    → u < 1000000
    → add_seconds (pos v) (two_digits (pos s) ++ point_and u) ≡ ok (pos (v + s * 1000000 + u))
unfolding add_seconds add_second_parts abs ◌+ℤ◌
add_seconds_lem v s zero h l =
    ap (add_second_parts (pos v)) (
      ap (split_once 46) (append-nil (two_digits (pos s)))
      ∙ split_once-missing 46 no_point (two_digits (pos s)) (two_digits-IsDigit s))
    ∙ rw (parse_sixty-two_digits s h, add_second_parts) (ap (λ x. ok (pos x)) (omega arith))
add_seconds_lem v s (suc u) h l =
    ap (add_second_parts (pos v)) (
      split_once-found 46 no_point (two_digits (pos s)) (show_fraction (pos (suc u)))
        (two_digits-IsDigit s))
    ∙ rw (parse_sixty-two_digits s h, add_second_parts)
        ((show_fraction-IsFraction (suc u) (omega arith) l).1 (v + s * 1000000))

minutes_of_lem : (xs : List ℕ) → IsFilled xs → minutes_of xs ≡ parse_sixty xs
unfolding minutes_of
minutes_of_lem [] h = absurd h
minutes_of_lem (x ∷ xs) h = refl

pub add_minutes_lem :
    (v m s u : ℕ)
    → m < 60
    → s < 60
    → u < 1000000
    → add_minutes (pos v) (two_digits (pos m) ++ (58 ∷ (two_digits (pos s) ++ point_and u)))
      ≡ ok (pos (v + m * 60000000 + s * 1000000 + u))
unfolding add_minutes add_minute_parts ◌+ℤ◌
add_minutes_lem v m s u h k l =
    ap (add_minute_parts (pos v)) (
      split_once-found 58 no_colon (two_digits (pos m)) (two_digits (pos s) ++ point_and u)
        (two_digits-IsDigit m))
    ∙ rw
        (
          minutes_of_lem (two_digits (pos m)) (two_digits-IsFilled m),
          parse_sixty-two_digits m h,
          add_minute_parts,
        )
        (add_seconds_lem (v + m * 60000000) s u k l)

-- What is behind the colon of the hours.
abbrev pub rest_text : (m s u : ℕ) → List ℕ
rest_text m s u = two_digits (pos m) ++ (58 ∷ (two_digits (pos s) ++ point_and u))

-- The text of a number of hours, minutes, seconds and microseconds.
abbrev pub clock_text : (h m s u : ℕ) → List ℕ
clock_text h m s u = decimal (pos h) ++ (58 ∷ rest_text m s u)

point_and-IsShown : (u : ℕ) → u < 1000000 → All IsShown (point_and u)
unfolding abs
point_and-IsShown zero h = tt
point_and-IsShown (suc u) h =
    let digits = show_fraction-IsFraction (suc u) (omega arith) h in
    ((omega arith, omega arith), IsDigit-IsShown (show_fraction (pos (suc u))) digits.0)

pub clock_text-IsShown : (h m s u : ℕ) → u < 1000000 → All IsShown (clock_text h m s u)
unfolding decimal
clock_text-IsShown h m s u l =
    All-append (digits 20 h) _ IsShown (IsDigit-IsShown _ (digits-IsDigit 20 h)) (
      (omega arith, omega arith),
      All-append (two_digits (pos m)) _ IsShown (IsDigit-IsShown _ (two_digits-IsDigit m)) (
        (omega arith, omega arith),
        All-append (two_digits (pos s)) _ IsShown (IsDigit-IsShown _ (two_digits-IsDigit s))
            (point_and-IsShown u l),
      ),
    )

pub of_hour_parts_lem :
    (hs rest : List ℕ) (hours : Option ℤ)
    → All IsDigit hs
    → IsFilled hs
    → parse_i32 hs ≡ hours
    → (of_hour_parts (hs, some rest) ≡ add_to_hours hours (some rest) false)
      × (of_hour_parts (45 ∷ hs, some rest) ≡ add_to_hours hours (some rest) true)
unfolding of_hour_parts of_signed_hours trim_start strip_minus
of_hour_parts_lem [] rest hours d f e = absurd f
of_hour_parts_lem (x ∷ xs) rest hours ((a, b), ds) f e =
    let w = is_whitespace_lem x (omega arith, omega arith) in
    let n : (x == 45) ≡ false = ground arith in (rw (w, n, e) refl, rw (e) refl)
