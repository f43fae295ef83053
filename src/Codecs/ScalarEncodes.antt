-- ===== src/Codecs/ScalarEncodes.antt =====
-- The encoders of the scalar codecs in codec.rs on the values of the type that each is registered
-- for.
use edgedb_rust.Base.{arith, ◌+◌, ◌*◌, ℕ, ◌^◌, ◌≡◌, Bool, List, Result, ok, ok-injective, length}
use edgedb_rust.Base.HashMap.{list_eq, list_beq}
use edgedb_rust.Wire.{Crates, big_int_too_long}
use edgedb_rust.Time.Int.{ℤ}
use edgedb_rust.Codecs.{Value, Codec}
use edgedb_rust.Codecs.Scalars.{
  uuid_codec, str_codec, bytes_codec, int16_codec, int32_codec, int64_codec, float32_codec,
  float64_codec, decimal_codec, bool_codec, datetime_codec, local_datetime_codec, local_date_codec,
  local_time_codec, duration_codec, json_codec, big_int_codec, relative_duration_codec,
  date_duration_codec, config_memory_codec, CodecError, find_scalar, scalars, scalar_codec, put_i16,
  put_i32, put_i64, encode_digits, encode_duration, encode_relative_duration, encode_date_duration,
}
use edgedb_rust.Codecs.Size.{size}
use edgedb_rust.Codecs.Encodes.{
  Encodes, Encodes-mono, Encodes-u8, Encodes-u16, Encodes-u32, Encodes-u64, Encodes-extend,
  Encodes->>, Encodes-checked, Encodes-for_each,
}
use edgedb_rust.Codecs.Typing.{
  IsScalar, std_uuid, std_str, std_bytes, std_int16, std_int32, std_int64, std_float32, std_float64,
  std_decimal, std_bool, std_datetime, cal_local_datetime, cal_local_date, cal_local_time,
  std_duration, std_json, std_big_int, cal_relative_duration, cal_date_duration, cfg_memory,
}

module _ ⦃C : Crates⦄ where
  Encodes-digits :
      (negative : Bool) (weight : ℤ) (scale : ℕ) (digits : List ℕ)
      → Encodes
          (8 + length digits * 2)
          (8 + length digits * 2)
          (encode_digits negative weight scale digits)
  unfolding encode_digits put_i16
  Encodes-digits negative weight scale digits = Encodes-mono (omega arith) (omega arith) (
      Encodes->> _
        (Encodes-checked (8 + length digits * 2) 2 (2 ^ 16) big_int_too_long C.put_u16
          (length digits) C.put_u16-PutsBe (λ long. omega arith))
        (Encodes->> _ (Encodes-u16 _ _) (
          Encodes->> _ (Encodes-u16 _ _) (
            Encodes->> _ (Encodes-u16 _ scale)
              (Encodes-for_each _ 2 _ digits λ dig. Encodes-u16 _ dig)))))

  of_found :
      (d c : Codec) (v : Value)
      → ◌≡◌ {A = Result CodecError Codec} (ok d) (ok c)
      → Encodes (size v) (size v) (d.encode v)
      → Encodes (size v) (size v) (c.encode v)
  of_found d c v e h = rw (ok-injective e) at h

  -- The encoder of a scalar type writes the values of the type, unless a number has too many
  -- digits.
  pub scalar-Encodes :
      (id : List ℕ) (v : Value) (c : Codec)
      → IsScalar id v
      → scalar_codec id ≡ ok c
      → Encodes (size v) (size v) (c.encode v)
  unfolding scalar_codec find_scalar scalars list_beq uuid_codec str_codec bytes_codec int16_codec
      int32_codec int64_codec float32_codec float64_codec decimal_codec bool_codec datetime_codec
      local_datetime_codec local_date_codec local_time_codec duration_codec json_codec big_int_codec
      relative_duration_codec date_duration_codec config_memory_codec put_i16 put_i32 put_i64
      encode_duration encode_relative_duration encode_date_duration
  scalar-Encodes _ _ c (std_uuid u) e = of_found uuid_codec c _ e (Encodes-extend _ _)
  scalar-Encodes _ _ c (std_str s) e = of_found str_codec c _ e (Encodes-extend _ _)
  scalar-Encodes _ _ c (std_bytes b) e = of_found bytes_codec c _ e (Encodes-extend _ _)
  scalar-Encodes _ _ c (std_int16 v) e = of_found int16_codec c _ e (Encodes-u16 _ _)
  scalar-Encodes _ _ c (std_int32 v) e = of_found int32_codec c _ e (Encodes-u32 _ _)
  scalar-Encodes _ _ c (std_int64 v) e = of_found int64_codec c _ e (Encodes-u64 _ _)
  scalar-Encodes _ _ c (std_float32 v) e = of_found float32_codec c _ e (Encodes-u32 _ _)
  scalar-Encodes _ _ c (std_float64 v) e = of_found float64_codec c _ e (Encodes-u64 _ _)
  scalar-Encodes _ _ c (std_decimal v) e = of_found decimal_codec c _ e (Encodes-digits _ _ _ _)
  scalar-Encodes _ _ c (std_bool b) e = of_found bool_codec c _ e (Encodes-u8 _ _)
  scalar-Encodes _ _ c (std_datetime v) e = of_found datetime_codec c _ e (Encodes-u64 _ _)
  scalar-Encodes _ _ c (cal_local_datetime v) e =
      of_found local_datetime_codec c _ e (Encodes-u64 _ _)
  scalar-Encodes _ _ c (cal_local_date v) e = of_found local_date_codec c _ e (Encodes-u32 _ _)
  scalar-Encodes _ _ c (cal_local_time v) e = of_found local_time_codec c _ e (Encodes-u64 _ _)
  scalar-Encodes _ _ c (std_duration v) e =
      of_found duration_codec c _ e
        (Encodes->> _ (Encodes-u64 _ _) (Encodes->> _ (Encodes-u32 _ _) (Encodes-u32 _ _)))
  scalar-Encodes _ _ c (std_json s) e =
      of_found json_codec c _ e (Encodes->> _ (Encodes-u8 _ _) (Encodes-extend _ _))
  scalar-Encodes _ _ c (std_big_int v) e = of_found big_int_codec c _ e (Encodes-digits _ _ _ _)
  scalar-Encodes _ _ c (cal_relative_duration v) e =
      of_found relative_duration_codec c _ e
        (Encodes->> _ (Encodes-u64 _ _) (Encodes->> _ (Encodes-u32 _ _) (Encodes-u32 _ _)))
  scalar-Encodes _ _ c (cal_date_duration v) e =
      of_found date_duration_codec c _ e
        (Encodes->> _ (Encodes-u64 _ _) (Encodes->> _ (Encodes-u32 _ _) (Encodes-u32 _ _)))
  scalar-Encodes _ _ c (cfg_memory v) e = of_found config_memory_codec c _ e (Encodes-u64 _ _)
