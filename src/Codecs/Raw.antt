-- ===== src/Codecs/Raw.antt =====
-- edgedb-protocol/src/serialization/decode/raw_scalar.rs: the `RawCodec` of each scalar. The
-- `get_i16`, `get_i32` and `get_i64` of a buffer read the bits that `get_u16`, `get_u32` and
-- `get_u64` read, and `get_f32` and `get_f64` do too.
use edgedb_rust.Base.{
  ℕ, ◌-◌, ◌*◌, ◌^◌, Bool, true, false, ltb, ◌&&◌, List, [], Result, ok, err, panic, ok_or, or_panic,
  length, if◌then◌else◌,
}
use edgedb_rust.Base.HashMap.{◌==◌, nat_eq}
use edgedb_rust.Wire.{
  DecodeError, underflow, extra_data, invalid_utf8, invalid_json_format, invalid_bool, bad_sign,
  non_zero_reserved_bytes, invalid_date, Crates, from_utf8,
}
use edgedb_rust.Wire.Decoder.{
  Decoder, pure, take_or_panic, lift, ensure_remaining, repeat, push_decoded, ◌>>=◌, ◌>>◌,
}
use edgedb_rust.Time.Int.{ℤ, pos, negsuc}
use edgedb_rust.Time.LocalTime.{micros_per_day}
use edgedb_rust.Time.LocalDatetime.{try_from_datetime_micros}
use edgedb_rust.Bignum.BigInt.{BigInt}
use edgedb_rust.Codecs.{Decimal, RelativeDuration, DateDuration}

-- What a decoder makes of a whole buffer; what it leaves in it is forgotten.
unfoldable pub result : {A : Type 0} → Result DecodeError (A × List ℕ) → Result DecodeError A
result (ok (a, rest)) = ok a
result (err e) = err e
result panic = panic

-- The integer with these bits, the highest of which is its sign.
unfoldable pub from_bits : (width : ℕ) → ℕ → ℤ
from_bits width n = if ltb n (2 ^ (width - 1)) then pos n else negsuc (2 ^ width - 1 - n)

unfoldable pub ensure_exact_size : ℕ → Decoder (Unit {0})
ensure_exact_size expected_size buf =
    if length buf == expected_size
    then ok (tt, buf)
    else if ltb (length buf) expected_size
    then err underflow
    else err extra_data

-- `<&str>::decode`, and `String::decode`
unfoldable pub raw_str : List ℕ → Result DecodeError (List ℕ)
raw_str buf = ok_or invalid_utf8 (from_utf8 buf)

-- `<&[u8]>::decode`, and `Vec::<u8>::decode`
unfoldable pub raw_bytes : List ℕ → Result DecodeError (List ℕ)
raw_bytes buf = ok buf

-- The sign of a number in groups of digits.
unfoldable pub sign : ℕ → Result DecodeError Bool
sign n = if n == 0x0000 then ok false else if n == 0x4000 then ok true else err bad_sign

-- The `match` on the byte of a `bool`.
unfoldable pub bool_of : ℕ → Result DecodeError Bool
bool_of n = if n == 0x00 then ok false else if n == 0x01 then ok true else err invalid_bool

unfoldable pub is_zero : ℤ → Bool
is_zero (pos n) = n == 0
is_zero (negsuc n) = false

-- `ensure!(micros >= 0 && micros < 86_400 * 1_000_000, errors::InvalidDate)`, and the cast.
unfoldable pub day_micros : ℤ → Result DecodeError ℕ
day_micros (pos n) = if ltb n micros_per_day then ok n else err invalid_date
day_micros (negsuc n) = err invalid_date

module _ ⦃C : Crates⦄ where
  unfoldable pub get_i16 : Decoder ℤ
  get_i16 = take_or_panic C.get_u16 >>= λ n. pure (from_bits 16 n)

  unfoldable pub get_i32 : Decoder ℤ
  get_i32 = take_or_panic C.get_u32 >>= λ n. pure (from_bits 32 n)

  unfoldable pub get_i64 : Decoder ℤ
  get_i64 = take_or_panic C.get_u64 >>= λ n. pure (from_bits 64 n)

  -- `Json::decode`, whose text is all that is left.
  unfoldable pub raw_json : List ℕ → Result DecodeError (List ℕ)
  unfolding raw_str
  raw_json buf = elim ((ensure_remaining 1 >> take_or_panic C.get_u8) buf) [
    | ok (format, rest) ↦ if format == 1 then raw_str rest else err invalid_json_format
    | err e ↦ err e
    | panic ↦ panic
  ]

  -- `Uuid::decode`, with its `unwrap`.
  unfoldable pub raw_uuid : List ℕ → Result DecodeError (List ℕ)
  unfolding ensure_exact_size
  raw_uuid buf = elim (ensure_exact_size 16 buf) [
    | ok (_, same) ↦ or_panic (C.from_slice same)
    | err e ↦ err e
    | panic ↦ panic
  ]

  -- `buf[0]` is the byte that a `get_u8` reads.
  unfoldable pub raw_bool : Decoder Bool
  unfolding bool_of ensure_exact_size
  raw_bool = do ensure_exact_size 1; byte ← take_or_panic C.get_u8; lift (bool_of byte)

  unfoldable pub raw_i16 : Decoder ℤ
  unfolding ensure_exact_size get_i16
  raw_i16 = do ensure_exact_size 2; get_i16

  unfoldable pub raw_i32 : Decoder ℤ
  unfolding ensure_exact_size get_i32
  raw_i32 = do ensure_exact_size 4; get_i32

  unfoldable pub raw_i64 : Decoder ℤ
  unfolding ensure_exact_size get_i64
  raw_i64 = do ensure_exact_size 8; get_i64

  unfoldable pub raw_config_memory : Decoder ℤ
  unfolding ensure_exact_size get_i64
  raw_config_memory = do ensure_exact_size 8; get_i64

  unfoldable pub raw_f32 : Decoder ℕ
  unfolding ensure_exact_size
  raw_f32 = do ensure_exact_size 4; take_or_panic C.get_u32

  unfoldable pub raw_f64 : Decoder ℕ
  unfolding ensure_exact_size
  raw_f64 = do ensure_exact_size 8; take_or_panic C.get_u64

  -- `for _ in 0..ndigits { digits.push(buf.get_u16()) }`
  unfoldable pub get_digits : ℕ → Decoder (List ℕ)
  get_digits ndigits = repeat ndigits (push_decoded (take_or_panic C.get_u16)) []

  unfoldable pub raw_decimal : Decoder Decimal
  unfolding ensure_exact_size get_i16 sign get_digits
  raw_decimal = do
    ensure_remaining 8
    ndigits ← take_or_panic C.get_u16
    weight ← get_i16
    s ← take_or_panic C.get_u16
    negative ← lift (sign s)
    decimal_digits ← take_or_panic C.get_u16
    ensure_exact_size (2 * ndigits)
    digits ← get_digits ndigits
    pure (record {
      negative = negative;
      weight = weight;
      decimal_digits = decimal_digits;
      digits = digits;
    })

  unfoldable pub raw_big_int : Decoder BigInt
  unfolding ensure_exact_size get_i16 sign get_digits
  raw_big_int = do
    ensure_remaining 8
    ndigits ← take_or_panic C.get_u16
    weight ← get_i16
    s ← take_or_panic C.get_u16
    negative ← lift (sign s)
    decimal_digits ← take_or_panic C.get_u16
    lift (if decimal_digits == 0 then ok tt else err non_zero_reserved_bytes)
    ensure_exact_size (2 * ndigits)
    digits ← get_digits ndigits
    pure (record { negative = negative; weight = weight; digits = digits })

  unfoldable pub raw_duration : Decoder ℤ
  unfolding ensure_exact_size get_i64
  raw_duration = do
    ensure_exact_size 16
    micros ← get_i64
    days ← take_or_panic C.get_u32
    months ← take_or_panic C.get_u32
    lift (if months == 0 && days == 0 then ok micros else err non_zero_reserved_bytes)

  unfoldable pub raw_relative_duration : Decoder RelativeDuration
  unfolding ensure_exact_size get_i64 get_i32
  raw_relative_duration = do
    ensure_exact_size 16
    micros ← get_i64
    days ← get_i32
    months ← get_i32
    pure (record { micros = micros; days = days; months = months })

  unfoldable pub raw_date_duration : Decoder DateDuration
  unfolding ensure_exact_size get_i64 get_i32 is_zero
  raw_date_duration = do
    ensure_exact_size 16
    micros ← get_i64
    days ← get_i32
    months ← get_i32
    lift (if is_zero micros then ok tt else err non_zero_reserved_bytes)
    pure (record { days = days; months = months })

  -- `Datetime::decode`; `Datetime::try_from_micros` has the bounds of `LocalDatetime`.
  unfoldable pub raw_datetime : Decoder ℤ
  unfolding raw_i64 try_from_datetime_micros
  raw_datetime = do micros ← raw_i64; lift (ok_or invalid_date (try_from_datetime_micros micros))

  unfoldable pub raw_local_datetime : Decoder ℤ
  unfolding raw_i64
  raw_local_datetime = raw_i64

  unfoldable pub raw_local_date : Decoder ℤ
  unfolding raw_i32
  raw_local_date = raw_i32

  unfoldable pub raw_local_time : Decoder ℕ
  unfolding raw_i64 day_micros
  raw_local_time = do micros ← raw_i64; lift (day_micros micros)
