-- ===== src/Codecs/ScalarTyping.antt =====
-- What the decoders of the scalar codecs in codec.rs give: values of the scalar type that the codec
-- is registered for.
use edgedb_rust.Base.{
  ℕ, ◌≡◌, ◌≢◌, Bool-cases, inl, inr, List, [], ◌∷◌, Result, ok, err, map_ok, ok-injective, All,
}
use edgedb_rust.Base.HashMap.{◌==◌, nat_eq, list_eq}
use edgedb_rust.Wire.{DecodeError, Crates}
use edgedb_rust.Wire.Decoder.{Decoder}
use edgedb_rust.Codecs.{
  Value, Codec, uuid, str, bytes, int16, int32, int64, float32, float64, decimal, bool, datetime,
  local_datetime, local_date, local_time, duration, json, big_int, relative_duration, date_duration,
  config_memory,
}
use edgedb_rust.Codecs.Raw.{
  result, raw_uuid, raw_str, raw_bytes, raw_i16, raw_i32, raw_i64, raw_f32, raw_f64, raw_decimal,
  raw_bool, raw_datetime, raw_local_datetime, raw_local_date, raw_local_time, raw_duration,
  raw_json, raw_big_int, raw_relative_duration, raw_date_duration, raw_config_memory,
}
use edgedb_rust.Codecs.Scalars.{
  uuid_codec, str_codec, bytes_codec, int16_codec, int32_codec, int64_codec, float32_codec,
  float64_codec, decimal_codec, bool_codec, datetime_codec, local_datetime_codec, local_date_codec,
  local_time_codec, duration_codec, json_codec, big_int_codec, relative_duration_codec,
  date_duration_codec, config_memory_codec, CodecError, uuid_of, find_scalar, scalars, scalar_codec,
  decode_as,
}
use edgedb_rust.Codecs.Gives.{Gives, Gives-all, Gives-map_ok}
use edgedb_rust.Codecs.Typing.{
  IsScalar, std_uuid, std_str, std_bytes, std_int16, std_int32, std_int64, std_float32, std_float64,
  std_decimal, std_bool, std_datetime, cal_local_datetime, cal_local_date, cal_local_time,
  std_duration, std_json, std_big_int, cal_relative_duration, cal_date_duration, cfg_memory,
}

err-ne-ok : {x : CodecError} {c : Codec} → ◌≢◌ {A = Result CodecError Codec} (err x) (ok c)
err-ne-ok h = cc

abbrev GivesScalar : ⦃C : Crates⦄ → ℕ × Codec → Type 0
GivesScalar entry = (buf : List ℕ) → Gives (IsScalar (uuid_of entry.0)) (entry.1.decode buf)

-- A value that is made out of what is read.
made :
    {A : Type 0} (n : ℕ) (f : A → Value) (d : List ℕ → Result DecodeError A)
    → ((a : A) → IsScalar (uuid_of n) (f a))
    → (buf : List ℕ) → Gives (IsScalar (uuid_of n)) (map_ok f (d buf))
made n f d h buf =
    Gives-map_ok (λ _. Unit {0}) (IsScalar (uuid_of n)) f (d buf) (Gives-all _ (d buf) (λ _. tt))
      λ a _. h a

made_as :
    {A : Type 0} (n : ℕ) (f : A → Value) (d : Decoder A)
    → ((a : A) → IsScalar (uuid_of n) (f a))
    → (buf : List ℕ) → Gives (IsScalar (uuid_of n)) (decode_as f d buf)
unfolding decode_as
made_as n f d h = made n f (λ buf. result (d buf)) h

module _ ⦃C : Crates⦄ where
  Gives-scalars : All GivesScalar scalars
  unfolding scalars uuid_codec str_codec bytes_codec int16_codec int32_codec int64_codec
      float32_codec float64_codec decimal_codec bool_codec datetime_codec local_datetime_codec
      local_date_codec local_time_codec duration_codec json_codec big_int_codec
      relative_duration_codec date_duration_codec config_memory_codec
  Gives-scalars = (
    made 0x100 uuid raw_uuid std_uuid,
    (
      made 0x101 str raw_str std_str,
      (
        made 0x102 bytes raw_bytes std_bytes,
        (
          made_as 0x103 int16 raw_i16 std_int16,
          (
            made_as 0x104 int32 raw_i32 std_int32,
            (
              made_as 0x105 int64 raw_i64 std_int64,
              (
                made_as 0x106 float32 raw_f32 std_float32,
                (
                  made_as 0x107 float64 raw_f64 std_float64,
                  (
                    made_as 0x108 decimal raw_decimal std_decimal,
                    (
                      made_as 0x109 bool raw_bool std_bool,
                      (
                        made_as 0x10a datetime raw_datetime std_datetime,
                        (
                          made_as 0x10b local_datetime raw_local_datetime cal_local_datetime,
                          (
                            made_as 0x10c local_date raw_local_date cal_local_date,
                            (
                              made_as 0x10d local_time raw_local_time cal_local_time,
                              (
                                made_as 0x10e duration raw_duration std_duration,
                                (
                                  made 0x10f json raw_json std_json,
                                  (
                                    made_as 0x110 big_int raw_big_int std_big_int,
                                    (
                                      made_as 0x111 relative_duration raw_relative_duration
                                          cal_relative_duration,
                                      (
                                        made_as 0x112 date_duration raw_date_duration
                                            cal_date_duration,
                                        (
                                          made_as 0x130 config_memory raw_config_memory cfg_memory,
                                          tt,
                                        ),
                                      ),
                                    ),
                                  ),
                                ),
                              ),
                            ),
                          ),
                        ),
                      ),
                    ),
                  ),
                ),
              ),
            ),
          ),
        ),
      ),
    ),
  )

  found :
      (id : List ℕ) (table : List (ℕ × Codec)) (c : Codec)
      → All GivesScalar table
      → find_scalar id table ≡ ok c
      → (buf : List ℕ) → Gives (IsScalar id) (c.decode buf)
  unfolding find_scalar
  found id [] c h e = absurd (err-ne-ok e)
  found id (entry ∷ rest) c (h, hs) e = elim (Bool-cases (uuid_of entry.0 == id)) [
    | inl this ↦
        rw
          (
            (list_eq.beq_iff (uuid_of entry.0) id).0 this,
            ok-injective (rw (this, find_scalar) at e),
          )
          at h
    | inr other ↦ found id rest c hs (rw (other, find_scalar) at e)
  ]

  -- The decoder of a scalar type gives values of the type.
  pub scalar_codec-Gives :
      (id : List ℕ) (c : Codec)
      → scalar_codec id ≡ ok c
      → (buf : List ℕ) → Gives (IsScalar id) (c.decode buf)
  unfolding scalar_codec
  scalar_codec-Gives id c e = found id scalars c Gives-scalars e
