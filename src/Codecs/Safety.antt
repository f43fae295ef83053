-- ===== src/Codecs/Safety.antt =====
-- The decoders of codec.rs and of raw_scalar.rs on any bytes.
use edgedb_rust.Base.{
  ℕ, ◌+◌, ◌*◌, refl, ◌≢◌, Bool, true, false, List, Option, none, some, Result, ok, err, panic,
  map_ok, ok_or, if◌then◌else◌, arith,
}
use edgedb_rust.Base.HashMap.{◌==◌, nat_eq, list_eq}
use edgedb_rust.Wire.{DecodeError, Crates, from_utf8, invalid_utf8}
use edgedb_rust.Wire.Decoder.{Decoder, take_or_panic}
use edgedb_rust.Wire.Decoder.Safe.{
  Safe, Leaves, Safe-pure, Safe-lift, Safe->>=, Safe->>, Safe-ensure, Safe-u8, Safe-u16, Safe-u32,
  Safe-u64, Safe-pushed_exact,
}
use edgedb_rust.Time.Int.{ℤ, pos, negsuc}
use edgedb_rust.Time.LocalDatetime.{try_from_datetime_micros}
use edgedb_rust.Codecs.{Value, Codec}
use edgedb_rust.Codecs.Raw.{
  result, ensure_exact_size, sign, bool_of, is_zero, day_micros, get_i16, get_i32, get_i64,
  get_digits, raw_str, raw_bool, raw_i16, raw_i32, raw_i64, raw_config_memory, raw_f32, raw_f64,
  raw_decimal, raw_big_int, raw_duration, raw_relative_duration, raw_date_duration, raw_datetime,
  raw_local_time,
}
use edgedb_rust.Codecs.Scalars.{decode_as}

-- A codec that decodes every input to a value or an error.
abbrev pub IsTotal : Codec → Type 0
IsTotal c = (buf : List ℕ) → c.decode buf ≢ panic

module _ {A : Type 0} where
  result-ne-panic : (r : Result DecodeError (A × List ℕ)) → Leaves 0 r → result r ≢ panic
  unfolding result
  result-ne-panic (ok a) h e = cc
  result-ne-panic (err x) h e = cc
  result-ne-panic panic h e = h

module _ {A B : Type 0} where
  pub map_ok-ne-panic : (f : A → B) (r : Result DecodeError A) → r ≢ panic → map_ok f r ≢ panic
  map_ok-ne-panic f (ok a) h e = cc
  map_ok-ne-panic f (err x) h e = cc
  map_ok-ne-panic f panic h e = h refl

pub decode_as-ne-panic :
    {A : Type 0} (f : A → Value) (d : Decoder A)
    → Safe 0 0 d
    → (buf : List ℕ) → decode_as f d buf ≢ panic
unfolding decode_as
decode_as-ne-panic f d s buf =
    map_ok-ne-panic f _ (result-ne-panic (d buf) (s.leaves buf (omega arith)))

pub ok_or-ne-panic : {A : Type 0} (e : DecodeError) (o : Option A) → ok_or e o ≢ panic
ok_or-ne-panic e none h = cc
ok_or-ne-panic e (some a) h = cc

Safe-exact : (k n : ℕ) → Safe k n (ensure_exact_size n)
unfolding ensure_exact_size
Safe-exact k n = record { leaves = λ bs h. ground arith }

sign-ne-panic : (n : ℕ) → sign n ≢ panic
unfolding sign
sign-ne-panic n e = ground arith

bool_of-ne-panic : (n : ℕ) → bool_of n ≢ panic
unfolding bool_of
bool_of-ne-panic n e = ground arith

day_micros-ne-panic : (v : ℤ) → day_micros v ≢ panic
unfolding day_micros
day_micros-ne-panic (pos n) e = ground arith
day_micros-ne-panic (negsuc n) e = cc

if-ne-panic :
    {A : Type 0} (b : Bool) (a : A) (x : DecodeError) → (if b then ok a else err x) ≢ panic
if-ne-panic true a x e = cc
if-ne-panic false a x e = cc

pub str-ne-panic : (buf : List ℕ) → raw_str buf ≢ panic
unfolding raw_str
str-ne-panic buf = ok_or-ne-panic invalid_utf8 (from_utf8 buf)

module _ ⦃C : Crates⦄ where
  pub Safe-i16 : (m : ℕ) → Safe (2 + m) m get_i16
  unfolding get_i16
  Safe-i16 m = Safe->>= _ (Safe-u16 m) λ n. Safe-pure m _

  pub Safe-i32 : (m : ℕ) → Safe (4 + m) m get_i32
  unfolding get_i32
  Safe-i32 m = Safe->>= _ (Safe-u32 m) λ n. Safe-pure m _

  pub Safe-i64 : (m : ℕ) → Safe (8 + m) m get_i64
  unfolding get_i64
  Safe-i64 m = Safe->>= _ (Safe-u64 m) λ n. Safe-pure m _

  pub Safe-raw_i16 : Safe 0 0 raw_i16
  unfolding raw_i16
  Safe-raw_i16 = Safe->> (Safe-exact 0 2) (Safe-i16 0)

  pub Safe-raw_i32 : Safe 0 0 raw_i32
  unfolding raw_i32
  Safe-raw_i32 = Safe->> (Safe-exact 0 4) (Safe-i32 0)

  pub Safe-raw_i64 : Safe 0 0 raw_i64
  unfolding raw_i64
  Safe-raw_i64 = Safe->> (Safe-exact 0 8) (Safe-i64 0)

  pub Safe-raw_config_memory : Safe 0 0 raw_config_memory
  unfolding raw_config_memory
  Safe-raw_config_memory = Safe->> (Safe-exact 0 8) (Safe-i64 0)

  pub Safe-raw_f32 : Safe 0 0 raw_f32
  unfolding raw_f32
  Safe-raw_f32 = Safe->> (Safe-exact 0 4) (Safe-u32 0)

  pub Safe-raw_f64 : Safe 0 0 raw_f64
  unfolding raw_f64
  Safe-raw_f64 = Safe->> (Safe-exact 0 8) (Safe-u64 0)

  pub Safe-raw_bool : Safe 0 0 raw_bool
  unfolding raw_bool
  Safe-raw_bool =
      Safe->> (Safe-exact 0 1) (Safe->>= _ (Safe-u8 0) λ n. Safe-lift 0 (bool_of-ne-panic n))

  pub Safe-digits : (n : ℕ) → Safe (2 * n) 0 (get_digits n)
  unfolding get_digits
  Safe-digits n = Safe-pushed_exact 2 n (take_or_panic C.get_u16) Safe-u16

  pub Safe-raw_decimal : Safe 0 0 raw_decimal
  unfolding raw_decimal
  Safe-raw_decimal = Safe->> (Safe-ensure 0 8) (
      Safe->>= _ (Safe-u16 6) λ ndigits. Safe->>= _ (Safe-i16 4) λ weight.
        Safe->>= _ (Safe-u16 2) λ s. Safe->>= _ (Safe-lift 2 (sign-ne-panic s)) λ negative.
          Safe->>= _ (Safe-u16 0) λ scale.
            Safe->> (Safe-exact 0 (2 * ndigits))
              (Safe->>= _ (Safe-digits ndigits) λ digits. Safe-pure 0 _))

  pub Safe-raw_big_int : Safe 0 0 raw_big_int
  unfolding raw_big_int
  Safe-raw_big_int = Safe->> (Safe-ensure 0 8) (
      Safe->>= _ (Safe-u16 6) λ ndigits. Safe->>= _ (Safe-i16 4) λ weight.
        Safe->>= _ (Safe-u16 2) λ s. Safe->>= _ (Safe-lift 2 (sign-ne-panic s)) λ negative.
          Safe->>= _ (Safe-u16 0) λ scale. Safe->> (Safe-lift 0 (if-ne-panic (scale == 0) _ _)) (
            Safe->> (Safe-exact 0 (2 * ndigits))
              (Safe->>= _ (Safe-digits ndigits) λ digits. Safe-pure 0 _)))

  pub Safe-raw_duration : Safe 0 0 raw_duration
  unfolding raw_duration
  Safe-raw_duration = Safe->> (Safe-exact 0 16) (
      Safe->>= _ (Safe-i64 8) λ micros.
        Safe->>= _ (Safe-u32 4)
          λ days. Safe->>= _ (Safe-u32 0) λ months. Safe-lift 0 (if-ne-panic _ _ _))

  pub Safe-raw_relative_duration : Safe 0 0 raw_relative_duration
  unfolding raw_relative_duration
  Safe-raw_relative_duration = Safe->> (Safe-exact 0 16) (
      Safe->>= _ (Safe-i64 8)
        λ micros. Safe->>= _ (Safe-i32 4) λ days. Safe->>= _ (Safe-i32 0) λ months. Safe-pure 0 _)

  pub Safe-raw_date_duration : Safe 0 0 raw_date_duration
  unfolding raw_date_duration
  Safe-raw_date_duration = Safe->> (Safe-exact 0 16) (
      Safe->>= _ (Safe-i64 8) λ micros. Safe->>= _ (Safe-i32 4) λ days.
        Safe->>= _ (Safe-i32 0)
          λ months. Safe->> (Safe-lift 0 (if-ne-panic (is_zero micros) _ _)) (Safe-pure 0 _))

  pub Safe-raw_datetime : Safe 0 0 raw_datetime
  unfolding raw_datetime
  Safe-raw_datetime =
      Safe->>= _ Safe-raw_i64
        λ micros. Safe-lift 0 (ok_or-ne-panic _ (try_from_datetime_micros micros))

  pub Safe-raw_local_time : Safe 0 0 raw_local_time
  unfolding raw_local_time
  Safe-raw_local_time = Safe->>= _ Safe-raw_i64 λ micros. Safe-lift 0 (day_micros-ne-panic micros)
