-- ===== src/Codecs/Scalars.antt =====
-- edgedb-protocol/src/codec.rs: the codecs of the scalar types, and which type has which.
use edgedb_rust.Base.{
  ℕ, ◌/◌, ◌%◌, ◌^◌, Bool, List, [], ◌∷◌, Result, ok, err, map_ok, length, if◌then◌else◌,
}
use edgedb_rust.Base.HashMap.{◌==◌, list_eq}
use edgedb_rust.Wire.{DecodeError, invalid_value, big_int_too_long, Crates}
use edgedb_rust.Wire.Encoder.{Encoder, put, put_checked, done, refuse, for_each, ◌>>◌}
use edgedb_rust.Wire.Decoder.{Decoder}
use edgedb_rust.Time.Int.{ℤ, pos}
use edgedb_rust.Bignum.BigInt.{BigInt, as_unsigned}
use edgedb_rust.Codecs.{
  Value, nothing, uuid, str, bytes, json, int16, int32, int64, config_memory, float32, float64,
  big_int, decimal, bool, datetime, local_datetime, local_date, local_time, duration,
  relative_duration, date_duration, Decimal, RelativeDuration, DateDuration, Codec,
}
use edgedb_rust.Codecs.Raw.{
  result, raw_str, raw_bytes, raw_json, raw_uuid, raw_bool, raw_i16, raw_i32, raw_i64,
  raw_config_memory, raw_f32, raw_f64, raw_decimal, raw_big_int, raw_duration,
  raw_relative_duration, raw_date_duration, raw_datetime, raw_local_datetime, raw_local_date,
  raw_local_time,
}

pub data CodecError : Type 0 where
  unexpected_type_pos : (position : ℕ) → CodecError
  undefined_base_scalar : (uuid : List ℕ) → CodecError

-- `RawCodec::decode(buf).map(f)`
unfoldable pub decode_as :
    {A : Type 0} → (A → Value) → Decoder A → List ℕ → Result DecodeError Value
unfolding result
decode_as f d buf = map_ok f (result (d buf))

-- `Uuid::from_u128(n)` of a number of two bytes.
abbrev pub uuid_of : ℕ → List ℕ
uuid_of n = 0 ∷ 0 ∷ 0 ∷ 0 ∷ 0 ∷ 0 ∷ 0 ∷ 0 ∷ 0 ∷ 0 ∷ 0 ∷ 0 ∷ 0 ∷ 0 ∷ n / 256 ∷ n % 256 ∷ []

-- The codec of a description without a root.
unfoldable pub nothing_codec : Codec
nothing_codec = record { decode = λ buf. ok nothing; encode = encode_nothing }
  where
    encode_nothing : Value → Encoder
    encode_nothing nothing = done
    encode_nothing _ = refuse invalid_value

unfoldable pub find_scalar : List ℕ → List (ℕ × Codec) → Result CodecError Codec
find_scalar id [] = err (undefined_base_scalar id)
find_scalar id (entry ∷ rest) = if uuid_of entry.0 == id then ok entry.1 else find_scalar id rest

module _ ⦃C : Crates⦄ where
  -- `put_i16`, `put_i32` and `put_i64` write the bits of a number.
  unfoldable pub put_i16 : ℤ → Encoder
  unfolding as_unsigned
  put_i16 v = put (C.put_u16 (as_unsigned 16 v))

  unfoldable pub put_i32 : ℤ → Encoder
  unfolding as_unsigned
  put_i32 v = put (C.put_u32 (as_unsigned 32 v))

  unfoldable pub put_i64 : ℤ → Encoder
  unfolding as_unsigned
  put_i64 v = put (C.put_u64 (as_unsigned 64 v))

  unfoldable pub encode_duration : ℤ → Encoder
  unfolding put_i64
  encode_duration micros = put_i64 micros >> (put (C.put_u32 0) >> put (C.put_u32 0))

  unfoldable pub encode_relative_duration : RelativeDuration → Encoder
  unfolding put_i64 put_i32
  encode_relative_duration v = put_i64 v.micros >> (put_i32 v.days >> put_i32 v.months)

  unfoldable pub encode_date_duration : DateDuration → Encoder
  unfolding put_i64 put_i32
  encode_date_duration v = put_i64 (pos 0) >> (put_i32 v.days >> put_i32 v.months)

  -- The count of the digits, the weight, the sign, the scale, and the digits.
  unfoldable pub encode_digits : Bool → ℤ → ℕ → List ℕ → Encoder
  unfolding put_i16
  encode_digits negative weight scale digits =
      put_checked (2 ^ 16) big_int_too_long C.put_u16 (length digits)
      >> (put_i16 weight
          >> (put (C.put_u16 (if negative then 0x4000 else 0x0000))
              >> (put (C.put_u16 scale) >> for_each (λ dig. put (C.put_u16 dig)) digits)))

  unfoldable pub encode_decimal : Decimal → Encoder
  unfolding encode_digits
  encode_decimal v = encode_digits v.negative v.weight v.decimal_digits v.digits

  unfoldable pub encode_big_int : BigInt → Encoder
  unfolding encode_digits
  encode_big_int v = encode_digits v.negative v.weight 0 v.digits

  unfoldable pub encode_datetime : ℤ → Encoder
  unfolding put_i64
  encode_datetime micros = put_i64 micros

  unfoldable pub encode_local_datetime : ℤ → Encoder
  unfolding put_i64
  encode_local_datetime micros = put_i64 micros

  unfoldable pub encode_local_date : ℤ → Encoder
  unfolding put_i32
  encode_local_date days = put_i32 days

  -- `val.micros as i64`, written as the bits that they are.
  unfoldable pub encode_local_time : ℕ → Encoder
  encode_local_time micros = put (C.put_u64 (micros % 2 ^ 64))

  unfoldable pub encode_int32_value : Value → Encoder
  unfolding put_i32
  encode_int32_value (int32 v) = put_i32 v
  encode_int32_value _ = refuse invalid_value

  unfoldable pub int32_codec : Codec
  unfolding encode_int32_value decode_as raw_i32
  int32_codec = record { decode = decode_as int32 raw_i32; encode = encode_int32_value }

  unfoldable pub encode_int16_value : Value → Encoder
  unfolding put_i16
  encode_int16_value (int16 v) = put_i16 v
  encode_int16_value _ = refuse invalid_value

  unfoldable pub int16_codec : Codec
  unfolding encode_int16_value decode_as raw_i16
  int16_codec = record { decode = decode_as int16 raw_i16; encode = encode_int16_value }

  unfoldable pub encode_int64_value : Value → Encoder
  unfolding put_i64
  encode_int64_value (int64 v) = put_i64 v
  encode_int64_value _ = refuse invalid_value

  unfoldable pub int64_codec : Codec
  unfolding encode_int64_value decode_as raw_i64
  int64_codec = record { decode = decode_as int64 raw_i64; encode = encode_int64_value }

  unfoldable pub encode_float32_value : Value → Encoder
  encode_float32_value (float32 v) = put (C.put_u32 v)
  encode_float32_value _ = refuse invalid_value

  unfoldable pub float32_codec : Codec
  unfolding encode_float32_value decode_as raw_f32
  float32_codec = record { decode = decode_as float32 raw_f32; encode = encode_float32_value }

  unfoldable pub encode_float64_value : Value → Encoder
  encode_float64_value (float64 v) = put (C.put_u64 v)
  encode_float64_value _ = refuse invalid_value

  unfoldable pub float64_codec : Codec
  unfolding encode_float64_value decode_as raw_f64
  float64_codec = record { decode = decode_as float64 raw_f64; encode = encode_float64_value }

  unfoldable pub encode_str_value : Value → Encoder
  encode_str_value (str v) = put (C.extend v)
  encode_str_value _ = refuse invalid_value

  unfoldable pub str_codec : Codec
  unfolding encode_str_value decode_as raw_str
  str_codec = record { decode = λ buf. map_ok str (raw_str buf); encode = encode_str_value }

  unfoldable pub encode_bytes_value : Value → Encoder
  encode_bytes_value (bytes v) = put (C.extend v)
  encode_bytes_value _ = refuse invalid_value

  unfoldable pub bytes_codec : Codec
  unfolding encode_bytes_value decode_as raw_bytes
  bytes_codec = record { decode = λ buf. map_ok bytes (raw_bytes buf); encode = encode_bytes_value }

  unfoldable pub encode_duration_value : Value → Encoder
  unfolding encode_duration
  encode_duration_value (duration v) = encode_duration v
  encode_duration_value _ = refuse invalid_value

  unfoldable pub duration_codec : Codec
  unfolding encode_duration_value decode_as raw_duration
  duration_codec = record {
    decode = decode_as duration raw_duration;
    encode = encode_duration_value;
  }

  unfoldable pub encode_relative_duration_value : Value → Encoder
  unfolding encode_relative_duration
  encode_relative_duration_value (relative_duration v) = encode_relative_duration v
  encode_relative_duration_value _ = refuse invalid_value

  unfoldable pub relative_duration_codec : Codec
  unfolding encode_relative_duration_value decode_as raw_relative_duration
  relative_duration_codec = record {
    decode = decode_as relative_duration raw_relative_duration;
    encode = encode_relative_duration_value;
  }

  unfoldable pub encode_date_duration_value : Value → Encoder
  unfolding encode_date_duration
  encode_date_duration_value (date_duration v) = encode_date_duration v
  encode_date_duration_value _ = refuse invalid_value

  unfoldable pub date_duration_codec : Codec
  unfolding encode_date_duration_value decode_as raw_date_duration
  date_duration_codec = record {
    decode = decode_as date_duration raw_date_duration;
    encode = encode_date_duration_value;
  }

  unfoldable pub encode_uuid_value : Value → Encoder
  encode_uuid_value (uuid v) = put (C.extend v)
  encode_uuid_value _ = refuse invalid_value

  unfoldable pub uuid_codec : Codec
  unfolding encode_uuid_value decode_as raw_uuid
  uuid_codec = record { decode = λ buf. map_ok uuid (raw_uuid buf); encode = encode_uuid_value }

  unfoldable pub encode_config_memory_value : Value → Encoder
  unfolding put_i64
  encode_config_memory_value (config_memory v) = put_i64 v
  encode_config_memory_value _ = refuse invalid_value

  unfoldable pub config_memory_codec : Codec
  unfolding encode_config_memory_value decode_as raw_config_memory
  config_memory_codec = record {
    decode = decode_as config_memory raw_config_memory;
    encode = encode_config_memory_value;
  }

  unfoldable pub encode_decimal_value : Value → Encoder
  unfolding encode_decimal
  encode_decimal_value (decimal v) = encode_decimal v
  encode_decimal_value _ = refuse invalid_value

  unfoldable pub decimal_codec : Codec
  unfolding encode_decimal_value decode_as raw_decimal
  decimal_codec = record { decode = decode_as decimal raw_decimal; encode = encode_decimal_value }

  unfoldable pub encode_big_int_value : Value → Encoder
  unfolding encode_big_int
  encode_big_int_value (big_int v) = encode_big_int v
  encode_big_int_value _ = refuse invalid_value

  unfoldable pub big_int_codec : Codec
  unfolding encode_big_int_value decode_as raw_big_int
  big_int_codec = record { decode = decode_as big_int raw_big_int; encode = encode_big_int_value }

  unfoldable pub encode_bool_value : Value → Encoder
  encode_bool_value (bool v) = put (C.put_u8 (if v then 1 else 0))
  encode_bool_value _ = refuse invalid_value

  unfoldable pub bool_codec : Codec
  unfolding encode_bool_value decode_as raw_bool
  bool_codec = record { decode = decode_as bool raw_bool; encode = encode_bool_value }

  unfoldable pub encode_datetime_value : Value → Encoder
  unfolding encode_datetime
  encode_datetime_value (datetime v) = encode_datetime v
  encode_datetime_value _ = refuse invalid_value

  unfoldable pub datetime_codec : Codec
  unfolding encode_datetime_value decode_as raw_datetime
  datetime_codec = record {
    decode = decode_as datetime raw_datetime;
    encode = encode_datetime_value;
  }

  unfoldable pub encode_local_datetime_value : Value → Encoder
  unfolding encode_local_datetime
  encode_local_datetime_value (local_datetime v) = encode_local_datetime v
  encode_local_datetime_value _ = refuse invalid_value

  unfoldable pub local_datetime_codec : Codec
  unfolding encode_local_datetime_value decode_as raw_local_datetime
  local_datetime_codec = record {
    decode = decode_as local_datetime raw_local_datetime;
    encode = encode_local_datetime_value;
  }

  unfoldable pub encode_local_date_value : Value → Encoder
  unfolding encode_local_date
  encode_local_date_value (local_date v) = encode_local_date v
  encode_local_date_value _ = refuse invalid_value

  unfoldable pub local_date_codec : Codec
  unfolding encode_local_date_value decode_as raw_local_date
  local_date_codec = record {
    decode = decode_as local_date raw_local_date;
    encode = encode_local_date_value;
  }

  unfoldable pub encode_local_time_value : Value → Encoder
  unfolding encode_local_time
  encode_local_time_value (local_time v) = encode_local_time v
  encode_local_time_value _ = refuse invalid_value

  unfoldable pub local_time_codec : Codec
  unfolding encode_local_time_value decode_as raw_local_time
  local_time_codec = record {
    decode = decode_as local_time raw_local_time;
    encode = encode_local_time_value;
  }

  unfoldable pub encode_json_value : Value → Encoder
  encode_json_value (json v) = put (C.put_u8 1) >> put (C.extend v)
  encode_json_value _ = refuse invalid_value

  unfoldable pub json_codec : Codec
  unfolding encode_json_value decode_as raw_json
  json_codec = record { decode = λ buf. map_ok json (raw_json buf); encode = encode_json_value }

  -- The base scalars by their identifiers, in order.
  unfoldable pub scalars : List (ℕ × Codec)
  unfolding uuid_codec str_codec bytes_codec int16_codec int32_codec int64_codec float32_codec
      float64_codec decimal_codec bool_codec datetime_codec local_datetime_codec local_date_codec
      local_time_codec duration_codec json_codec big_int_codec relative_duration_codec
      date_duration_codec config_memory_codec
  scalars =
      (0x100, uuid_codec)
      ∷ (0x101, str_codec)
      ∷ (0x102, bytes_codec)
      ∷ (0x103, int16_codec)
      ∷ (0x104, int32_codec)
      ∷ (0x105, int64_codec)
      ∷ (0x106, float32_codec)
      ∷ (0x107, float64_codec)
      ∷ (0x108, decimal_codec)
      ∷ (0x109, bool_codec)
      ∷ (0x10a, datetime_codec)
      ∷ (0x10b, local_datetime_codec)
      ∷ (0x10c, local_date_codec)
      ∷ (0x10d, local_time_codec)
      ∷ (0x10e, duration_codec)
      ∷ (0x10f, json_codec)
      ∷ (0x110, big_int_codec)
      ∷ (0x111, relative_duration_codec)
      ∷ (0x112, date_duration_codec)
      ∷ (0x130, config_memory_codec)
      ∷ []

  -- `scalar_codec`
  unfoldable pub scalar_codec : List ℕ → Result CodecError Codec
  unfolding scalars find_scalar
  scalar_codec id = find_scalar id scalars
