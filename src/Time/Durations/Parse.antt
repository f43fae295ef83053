-- ===== src/Time/Durations/Parse.antt =====
-- edgedb-protocol/src/model/time.rs: `Duration::try_from_pg_simple_format`. A text is the list of
-- its characters, and of an error it is said only whether it is final.
use edgedb_rust.Base.{
  ℕ, suc, ◌+◌, ◌-◌, ◌*◌, ◌^◌, Bool, true, false, ◌&&◌, ◌||◌, ltb, leb, List, [], ◌∷◌, Option, none,
  some, Result, ok, err, panic, ok_or, map_ok, if◌then◌else◌,
}
use edgedb_rust.Base.HashMap.{◌==◌, nat_eq}
use edgedb_rust.Time.Int.{ℤ, pos, abs, negate, times, wrapping, ◌+ℤ◌}

pub data ParseDurationError : Type 0 where
  final not_final : ParseDurationError

-- `char::is_whitespace`
unfoldable pub is_whitespace : ℕ → Bool
is_whitespace c =
    (leb 9 c && leb c 13)
    || (c == 32)
    || (c == 0x85)
    || (c == 0xA0)
    || (c == 0x1680)
    || (leb 0x2000 c && leb c 0x200A)
    || (c == 0x2028)
    || (c == 0x2029)
    || (c == 0x202F)
    || (c == 0x205F)
    || (c == 0x3000)

unfoldable pub trim_start : List ℕ → List ℕ
unfolding is_whitespace
trim_start [] = []
trim_start (x ∷ xs) = let rest = trim_start xs in if is_whitespace x then rest else x ∷ xs

unfoldable pub keep_char : ℕ → List ℕ → List ℕ
unfolding is_whitespace
keep_char x [] = if is_whitespace x then [] else x ∷ []
keep_char x (y ∷ ys) = x ∷ y ∷ ys

unfoldable pub trim_end : List ℕ → List ℕ
unfolding keep_char
trim_end [] = []
trim_end (x ∷ xs) = keep_char x (trim_end xs)

-- The text before the first `c`, and what is behind it.
unfoldable pub split_once : (c : ℕ) → List ℕ → List ℕ × Option (List ℕ)
split_once c [] = ([], none)
split_once c (x ∷ xs) =
    let (front, rest) = split_once c xs in if x == c then ([], some xs) else (x ∷ front, rest)

-- `char::to_digit(10)`
unfoldable pub to_digit : ℕ → Option ℕ
to_digit c = if leb 48 c && ltb c 58 then some (c - 48) else none

-- Digits behind a number that is read already.
unfoldable pub read_digits : ℕ → List ℕ → Option ℕ
unfolding to_digit
read_digits n [] = some n
read_digits n (x ∷ xs) = elim (to_digit x) [ none ↦ none | some d ↦ read_digits (10 * n + d) xs ]

-- One digit at least.
unfoldable pub read_number : List ℕ → Option ℕ
unfolding read_digits
read_number [] = none
read_number (x ∷ xs) = read_digits 0 (x ∷ xs)

unfoldable pub below : (bound : ℕ) → Option ℕ → Option ℕ
below bound none = none
below bound (some n) = if ltb n bound then some n else none

unfoldable pub as_pos : Option ℕ → Option ℤ
as_pos none = none
as_pos (some n) = some (pos n)

unfoldable pub as_negative : Option ℕ → Option ℤ
unfolding negate
as_negative none = none
as_negative (some n) = some (negate (pos n))

-- `str::parse::<i32>`
unfoldable pub parse_i32 : List ℕ → Option ℤ
unfolding read_number below as_pos as_negative
parse_i32 [] = none
parse_i32 (x ∷ xs) =
    if x == 45
    then as_negative (below (2 ^ 31 + 1) (read_number xs))
    else as_pos (below (2 ^ 31) (if x == 43 then read_number xs else read_number (x ∷ xs)))

-- `str::parse::<u8>`, for which a minus is no digit.
unfoldable pub parse_u8 : List ℕ → Option ℕ
unfolding read_number below
parse_u8 [] = none
parse_u8 (x ∷ xs) = below 256 (if x == 43 then read_number xs else read_number (x ∷ xs))

-- `parse::<u8>` and the test for at most 59.
unfoldable pub parse_sixty : List ℕ → Result ParseDurationError ℕ
unfolding parse_u8 below
parse_sixty text = ok_or final (below 60 (parse_u8 text))

-- The digits behind the point: six of them count, and the next rounds.
unfoldable pub add_fraction : (i : ℕ) (value : ℤ) → List ℕ → Result ParseDurationError ℤ
unfolding to_digit ◌+ℤ◌
add_fraction i value [] = ok value
add_fraction i value (c ∷ cs) = elim (to_digit c) [
  | none ↦ err final
  | some d ↦
      if ltb i 6
      then add_fraction (suc i) (value +ℤ pos (d * 10 ^ (5 - i))) cs
      else ok (if leb 5 d then value +ℤ pos 1 else value)
]

-- The seconds, and what is behind their point.
unfoldable pub add_second_parts :
    (value : ℤ) → List ℕ × Option (List ℕ) → Result ParseDurationError ℤ
unfolding parse_sixty add_fraction ◌+ℤ◌
add_second_parts value (second_str, sub) = elim (parse_sixty second_str) [
  | err e ↦ err e
  | panic ↦ panic
  | ok second ↦ elim sub [
    | none ↦ ok (value +ℤ pos (second * 1000000))
    | some sub_sec ↦ add_fraction 0 (value +ℤ pos (second * 1000000)) sub_sec
  ]
]

unfoldable pub add_seconds : (value : ℤ) → List ℕ → Result ParseDurationError ℤ
unfolding split_once add_second_parts
add_seconds value remaining = add_second_parts value (split_once 46 remaining)

-- The minutes, which may be empty.
unfoldable pub minutes_of : List ℕ → Result ParseDurationError ℕ
unfolding parse_sixty
minutes_of [] = ok 0
minutes_of (x ∷ xs) = parse_sixty (x ∷ xs)

-- The minutes, and the seconds, which may be left out.
unfoldable pub add_minute_parts :
    (value : ℤ) → List ℕ × Option (List ℕ) → Result ParseDurationError ℤ
unfolding minutes_of add_seconds ◌+ℤ◌
add_minute_parts value (minute_str, remaining) = elim (minutes_of minute_str) [
  | err e ↦ err e
  | panic ↦ panic
  | ok minute ↦ elim remaining [
    | none ↦ ok (value +ℤ pos (minute * 60000000))
    | some seconds ↦ add_seconds (value +ℤ pos (minute * 60000000)) seconds
  ]
]

unfoldable pub add_minutes : (value : ℤ) → List ℕ → Result ParseDurationError ℤ
unfolding split_once add_minute_parts
add_minutes value rest = add_minute_parts value (split_once 58 rest)

-- Whether a minus is in front, and what is behind it.
unfoldable pub strip_minus : List ℕ → Bool × List ℕ
strip_minus [] = (false, [])
strip_minus (x ∷ xs) = if x == 45 then (true, xs) else (false, x ∷ xs)

-- What is made of the hours, the text behind their colon, and the sign.
unfoldable pub add_to_hours :
    Option ℤ → Option (List ℕ) → (negative : Bool) → Result ParseDurationError ℤ
unfolding add_minutes times wrapping abs negate
add_to_hours none rest negative = err not_final
add_to_hours (some hour) none negative = err not_final
add_to_hours (some hour) (some rest) negative =
    map_ok (λ value. if negative then negate value else value)
      (add_minutes (times (wrapping 32 (pos (abs hour))) 3600000000) rest)

-- The hours with their sign, and what is behind their colon.
unfoldable pub of_signed_hours : Bool × List ℕ → Option (List ℕ) → Result ParseDurationError ℤ
unfolding parse_i32 add_to_hours
of_signed_hours (negative, hour_str) rest = add_to_hours (parse_i32 hour_str) rest negative

unfoldable pub of_hour_parts : List ℕ × Option (List ℕ) → Result ParseDurationError ℤ
unfolding trim_start strip_minus of_signed_hours
of_hour_parts ([], rest) = err not_final
of_hour_parts (x ∷ xs, rest) = of_signed_hours (strip_minus (trim_start (x ∷ xs))) rest

-- `Duration::try_from_pg_simple_format`
unfoldable pub try_from_pg_simple_format : List ℕ → Result ParseDurationError ℤ
unfolding trim_end split_once of_hour_parts
try_from_pg_simple_format input = of_hour_parts (split_once 58 (trim_end input))
