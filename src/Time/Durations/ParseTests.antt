-- ===== src/Time/Durations/ParseTests.antt =====
-- Runs of the text of a duration and of its parser, and the theorems at concrete inputs.
use edgedb_rust.Base.{◌≡◌, refl, [], ◌∷◌, ok, err, arith}
use edgedb_rust.Time.Int.{ℤ, pos, negsuc, abs}
use edgedb_rust.Time.Durations.Show.{show_duration}
use edgedb_rust.Time.Durations.Parse.{final, not_final, try_from_pg_simple_format}
use edgedb_rust.Time.Durations.ParseRoundTrip.{
  try_from_pg_simple_format-show_duration, try_from_pg_simple_format-show_duration-eq_err,
}

-- An hour, two minutes, three seconds and 40 milliseconds, forward and back.
abbrev long : ℤ
long = pos 3723040000

abbrev back : ℤ
back = negsuc 3723039999

long_text : show_duration long ≡ 49 ∷ 58 ∷ 48 ∷ 50 ∷ 58 ∷ 48 ∷ 51 ∷ 46 ∷ 48 ∷ 52 ∷ []
unfolding show_duration
long_text = refl

back_text : show_duration back ≡ 45 ∷ 49 ∷ 58 ∷ 48 ∷ 50 ∷ 58 ∷ 48 ∷ 51 ∷ 46 ∷ 48 ∷ 52 ∷ []
unfolding show_duration
back_text = refl

-- The seventh digit rounds: 0:0:0.0000005
rounded :
    try_from_pg_simple_format (48 ∷ 58 ∷ 48 ∷ 58 ∷ 48 ∷ 46 ∷ 48 ∷ 48 ∷ 48 ∷ 48 ∷ 48 ∷ 48 ∷ 53 ∷ [])
    ≡ ok (pos 1)
unfolding try_from_pg_simple_format
rounded = refl

-- The seconds may be left out: 1:5
without_seconds : try_from_pg_simple_format (49 ∷ 58 ∷ 53 ∷ []) ≡ ok (pos 3900000000)
unfolding try_from_pg_simple_format
without_seconds = refl

-- 1:60
late_minute : try_from_pg_simple_format (49 ∷ 58 ∷ 54 ∷ 48 ∷ []) ≡ err final
unfolding try_from_pg_simple_format
late_minute = refl

no_minutes : try_from_pg_simple_format (49 ∷ []) ≡ err not_final
unfolding try_from_pg_simple_format
no_minutes = refl

try_from_pg_simple_format-show_duration_example :
    try_from_pg_simple_format (show_duration (negsuc 3723039999)) ≡ ok (negsuc 3723039999)
unfolding abs
try_from_pg_simple_format-show_duration_example =
    try_from_pg_simple_format-show_duration (negsuc 3723039999) (omega arith) (omega arith)

try_from_pg_simple_format-show_duration-eq_err_example :
    try_from_pg_simple_format (show_duration (pos 7730941132800000000)) ≡ err not_final
unfolding abs
try_from_pg_simple_format-show_duration-eq_err_example =
    try_from_pg_simple_format-show_duration-eq_err (pos 7730941132800000000) (omega arith)
      (omega arith)
