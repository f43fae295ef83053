-- ===== src/Time/Durations/Show.antt =====
-- edgedb-protocol/src/model/time.rs: `Duration` as text.
use edgedb_rust.Base.{ℕ, zero, suc, ◌-◌, List, [], ◌∷◌, ◌++◌, length, if◌then◌else◌}
use edgedb_rust.Base.HashMap.{◌==◌, nat_eq}
use edgedb_rust.Time.Int.{ℤ, pos, negsuc, abs, negate, quot, rem, wrapping}
use edgedb_rust.Time.Durations.{is_negative}
use edgedb_rust.Time.Durations.Text.{digits, decimal}

abbrev pub zeros : ℕ → List ℕ
zeros zero = []
zeros (suc n) = 48 ∷ zeros n

-- A text with zeros to its left up to a width.
unfoldable pub pad_left : (width : ℕ) → List ℕ → List ℕ
pad_left width xs = zeros (width - length xs) ++ xs

-- `{:02}`
unfoldable pub two_digits : ℤ → List ℕ
unfolding pad_left digits decimal
two_digits (pos n) = pad_left 2 (digits 20 n)
two_digits (negsuc n) = decimal (negsuc n)

-- The loop over the zeros at the end: what is left of the number, and how many zeros there were.
-- Six rounds are enough below a million.
unfoldable pub drop_zeros : (fuel : ℕ) → ℤ → (zeros : ℕ) → ℤ × ℕ
unfolding abs quot rem
drop_zeros zero fract zeros = (fract, zeros)
drop_zeros (suc fuel) fract zeros =
    if abs (rem fract 10) == 0 then drop_zeros fuel (quot fract 10) (suc zeros) else (fract, zeros)

unfoldable pub show_fraction : ℤ → List ℕ
unfolding drop_zeros pad_left decimal
show_fraction micros =
    let (fract, zeros) = drop_zeros 6 micros 0 in pad_left (6 - zeros) (decimal fract)

-- What is written of a number of seconds and of microseconds.
unfoldable pub show_parts : (sec micros : ℤ) → List ℕ
unfolding decimal two_digits show_fraction quot rem abs
show_parts sec micros =
    decimal (quot sec 3600)
    ++ (58 ∷ two_digits (rem (quot sec 60) 60)
        ++ (58 ∷ two_digits (rem sec 60)
            ++ (if abs micros == 0 then [] else 46 ∷ show_fraction micros)))

-- `Duration::fmt`
unfoldable pub show_duration : ℤ → List ℕ
unfolding show_parts is_negative negate wrapping quot rem
show_duration micros =
    if is_negative micros
    then 45
      ∷ show_parts (quot (wrapping 64 (negate micros)) 1000000)
          (rem (wrapping 64 (negate micros)) 1000000)
    else show_parts (quot micros 1000000) (rem micros 1000000)
