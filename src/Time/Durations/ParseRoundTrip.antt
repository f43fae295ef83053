-- ===== src/Time/Durations/ParseRoundTrip.antt =====
-- What `Duration::try_from_pg_simple_format` makes of the text that `Duration::fmt` writes.
use edgedb_rust.Base.{
  ℕ, zero, suc, ◌+◌, ◌*◌, ◌/◌, ◌%◌, ◌^◌, ◌<◌, ◌≤◌, ◌≡◌, refl, ap, ◌∙◌, Bool, true, false, lt→ltb,
  ◌∷◌, Option, none, some, ok, err, map_ok, All, if◌then◌else◌, arith,
}
use edgedb_rust.Base.HashMap.{◌==◌, nat_eq}
use edgedb_rust.Time.Int.{ℤ, pos, negsuc, abs, negate, quot, rem, times, wrapping}
use edgedb_rust.Time.Durations.{is_negative}
use edgedb_rust.Time.Durations.Text.{digits, decimal}
use edgedb_rust.Time.Durations.Show.{show_parts, show_duration}
use edgedb_rust.Time.Durations.Parse.{
  not_final, split_once, parse_i32, of_hour_parts, add_to_hours, try_from_pg_simple_format,
}
use edgedb_rust.Time.Durations.Digits.{
  digits-IsDigit, digits-IsFilled, digits_value-digits, parse_i32_lem, parse_i32-eq_none,
}
use edgedb_rust.Time.Durations.Arithmetic.{IsInt}
use edgedb_rust.Time.Durations.Clock.{
  IsShown, trim_end_lem, no_colon, add_minutes_lem, rest_text, clock_text, clock_text-IsShown,
  of_hour_parts_lem, split_once-found,
}

show_parts_lem :
    (sec u : ℕ)
    → show_parts (pos sec) (pos u) ≡ clock_text (sec / 3600) (sec / 60 % 60) (sec % 60) u
unfolding show_parts quot rem abs
show_parts_lem sec zero = refl
show_parts_lem sec (suc u) = let e : (suc u == 0) ≡ false = ground arith in rw (e) refl

-- The hours of a text, and the rest.
split_lem :
    (h m s u : ℕ) → split_once 58 (clock_text h m s u) ≡ (decimal (pos h), some (rest_text m s u))
unfolding decimal
split_lem h m s u = split_once-found 58 no_colon (digits 20 h) _ (digits-IsDigit 20 h)

add_to_hours_lem :
    (h m s u : ℕ) (negative : Bool)
    → h < 2 ^ 31
    → m < 60
    → s < 60
    → u < 1000000
    → add_to_hours (some (pos h)) (some (rest_text m s u)) negative
      ≡ map_ok
          (λ value. if negative then negate value else value)
          (ok (pos (h * 3600000000 + m * 60000000 + s * 1000000 + u)))
unfolding add_to_hours abs times wrapping
add_to_hours_lem h m s u negative a b c d =
    let e : h % 2 ^ 32 ≡ h = omega arith in
    rw (e, lt→ltb _ _ a)
      (ap (map_ok (λ value. if negative then negate value else value))
        (add_minutes_lem (h * 3600000000) m s u b c d))

split_minus :
    (h m s u : ℕ)
    → split_once 58 (45 ∷ clock_text h m s u) ≡ (45 ∷ decimal (pos h), some (rest_text m s u))
unfolding split_once
split_minus h m s u = rw (split_lem h m s u) refl

-- What the parser does with the text, by what it reads of the hours.
by_hours :
    (h m s u : ℕ) (hours : Option ℤ)
    → u < 1000000
    → parse_i32 (decimal (pos h)) ≡ hours
    → (try_from_pg_simple_format (clock_text h m s u)
        ≡ add_to_hours hours (some (rest_text m s u)) false)
      × (try_from_pg_simple_format (45 ∷ clock_text h m s u)
          ≡ add_to_hours hours (some (rest_text m s u)) true)
unfolding try_from_pg_simple_format decimal
by_hours h m s u hours l e = (
  ap (λ xs. of_hour_parts (split_once 58 xs)) (trim_end_lem _ shown)
      ∙ (ap of_hour_parts (split_lem h m s u) ∙ read.0),
  ap (λ xs. of_hour_parts (split_once 58 xs))
        (trim_end_lem (45 ∷ clock_text h m s u) ((omega arith, omega arith), shown))
      ∙ (ap of_hour_parts (split_minus h m s u) ∙ read.1),
)
  where
    shown : All IsShown (clock_text h m s u)
    shown = clock_text-IsShown h m s u l

    read :
        (of_hour_parts (decimal (pos h), some (rest_text m s u))
          ≡ add_to_hours hours (some (rest_text m s u)) false)
        × (of_hour_parts (45 ∷ decimal (pos h), some (rest_text m s u))
            ≡ add_to_hours hours (some (rest_text m s u)) true)
    read =
        of_hour_parts_lem (digits 20 h) (rest_text m s u) hours (digits-IsDigit 20 h)
          (digits-IsFilled 19 h) e

parse_text :
    (h m s u : ℕ)
    → h < 2 ^ 31
    → m < 60
    → s < 60
    → u < 1000000
    → (try_from_pg_simple_format (clock_text h m s u)
        ≡ ok (pos (h * 3600000000 + m * 60000000 + s * 1000000 + u)))
      × (try_from_pg_simple_format (45 ∷ clock_text h m s u)
          ≡ ok (negate (pos (h * 3600000000 + m * 60000000 + s * 1000000 + u))))
unfolding decimal
parse_text h m s u a b c d = (
  read.0 ∙ add_to_hours_lem h m s u false a b c d,
  read.1 ∙ add_to_hours_lem h m s u true a b c d,
)
  where
    read :
        (try_from_pg_simple_format (clock_text h m s u)
          ≡ add_to_hours (some (pos h)) (some (rest_text m s u)) false)
        × (try_from_pg_simple_format (45 ∷ clock_text h m s u)
            ≡ add_to_hours (some (pos h)) (some (rest_text m s u)) true)
    read = by_hours h m s u _ d (
        parse_i32_lem (digits 20 h) h (digits-IsDigit 20 h) (digits-IsFilled 19 h)
          (digits_value-digits 20 h (omega arith)) a)

parse_parts :
    (n : ℕ)
    → n / 3600000000 < 2 ^ 31
    → (try_from_pg_simple_format (show_parts (pos (n / 1000000)) (pos (n % 1000000))) ≡ ok (pos n))
      × (try_from_pg_simple_format (45 ∷ show_parts (pos (n / 1000000)) (pos (n % 1000000)))
          ≡ ok (negate (pos n)))
parse_parts n a =
    let s = n / 1000000 in
    let e = show_parts_lem s (n % 1000000) in
    let h : s / 3600 < 2 ^ 31 = omega arith in
    let whole : s / 3600 * 3600000000 + s / 60 % 60 * 60000000 + s % 60 * 1000000 + n % 1000000
        ≡ n =
      omega arith in
    let read =
      parse_text (s / 3600) (s / 60 % 60) (s % 60) (n % 1000000) h (omega arith) (omega arith)
        (omega arith) in
    (
      ap try_from_pg_simple_format e ∙ (read.0 ∙ ap (λ k. ok (pos k)) whole),
      ap (λ xs. try_from_pg_simple_format (45 ∷ xs)) e
          ∙ (read.1 ∙ ap (λ k. ok (negate (pos k))) whole),
    )

-- If the microseconds fit into 64 bits and make less than 2147483648 hours, the parser reads the
-- text of the duration back: the result is the same number of microseconds, whatever the sign.
pub try_from_pg_simple_format-show_duration :
    (micros : ℤ)
    → IsInt 64 micros
    → abs micros / 3600000000 < 2 ^ 31
    → try_from_pg_simple_format (show_duration micros) ≡ ok micros
unfolding show_duration is_negative negate wrapping quot rem abs
try_from_pg_simple_format-show_duration (pos n) f a = (parse_parts n a).0
try_from_pg_simple_format-show_duration (negsuc n) f a =
    let e : suc n % 2 ^ 64 ≡ suc n = omega arith in
    let l : suc n < 2 ^ 63 = omega arith in rw (e, lt→ltb _ _ l) (parse_parts (suc n) a).1

-- More hours than an `i32` holds.
too_many :
    (n : ℕ)
    → n < 2 ^ 64
    → 2 ^ 31 ≤ n / 3600000000
    → (try_from_pg_simple_format (show_parts (pos (n / 1000000)) (pos (n % 1000000)))
        ≡ err not_final)
      × (try_from_pg_simple_format (45 ∷ show_parts (pos (n / 1000000)) (pos (n % 1000000)))
          ≡ err not_final)
unfolding decimal add_to_hours
too_many n l a =
    let s = n / 1000000 in
    let e = show_parts_lem s (n % 1000000) in
    let h : 2 ^ 31 ≤ s / 3600 = omega arith in
    let missing =
      parse_i32-eq_none (digits 20 (s / 3600)) (s / 3600) (digits-IsDigit 20 (s / 3600))
        (digits_value-digits 20 (s / 3600) (omega arith)) h in
    let read =
      by_hours (s / 3600) (s / 60 % 60) (s % 60) (n % 1000000) none (omega arith) missing in
    (
      ap try_from_pg_simple_format e ∙ read.0,
      ap (λ xs. try_from_pg_simple_format (45 ∷ xs)) e ∙ read.1,
    )

-- If the microseconds fit into 64 bits, are not the smallest such number and make 2147483648 hours
-- or more, the parser refuses the text of the duration, with an error that is not final.
pub try_from_pg_simple_format-show_duration-eq_err :
    (micros : ℤ)
    → abs micros < 2 ^ 63
    → 2 ^ 31 ≤ abs micros / 3600000000
    → try_from_pg_simple_format (show_duration micros) ≡ err not_final
unfolding show_duration is_negative negate wrapping quot rem abs
try_from_pg_simple_format-show_duration-eq_err (pos n) l a = (too_many n (omega arith) a).0
try_from_pg_simple_format-show_duration-eq_err (negsuc n) l a =
    let e : suc n % 2 ^ 64 ≡ suc n = omega arith in
    rw (e, lt→ltb _ _ l) (too_many (suc n) (omega arith) a).1
