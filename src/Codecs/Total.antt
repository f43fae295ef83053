-- ===== src/Codecs/Total.antt =====
-- The decoders of the scalar codecs in codec.rs on any bytes.
use edgedb_rust.Base.{
  ℕ, ◌≡◌, ◌≢◌, Bool, true, false, Bool-cases, inl, inr, ltb, List, [], ◌∷◌, Result, ok, err, panic,
  map_ok, ok-ne-panic, err-ne-panic, ok-injective, length, All, if◌then◌else◌, ==_iff, arith,
}
use edgedb_rust.Base.HashMap.{◌==◌, nat_eq, list_eq}
use edgedb_rust.Wire.{DecodeError, invalid_json_format, underflow, extra_data, Crates}
use edgedb_rust.Wire.Decoder.{Decoder, take_or_panic, ensure_remaining}
use edgedb_rust.Wire.Decoder
use edgedb_rust.Wire.Decoder.Safe.{Leaves, Safe->>, Safe-ensure, Safe-u8}
use edgedb_rust.Codecs.{Value, Codec}
use edgedb_rust.Codecs.Raw.{
  ensure_exact_size, raw_str, raw_bytes, raw_json, raw_uuid, raw_local_datetime, raw_local_date,
}
use edgedb_rust.Codecs.Scalars.{
  uuid_codec, str_codec, bytes_codec, int16_codec, int32_codec, int64_codec, float32_codec,
  float64_codec, decimal_codec, bool_codec, datetime_codec, local_datetime_codec, local_date_codec,
  local_time_codec, duration_codec, json_codec, big_int_codec, relative_duration_codec,
  date_duration_codec, config_memory_codec, CodecError, uuid_of, find_scalar, scalars, scalar_codec,
}
use edgedb_rust.Codecs.Safety
use edgedb_rust.Codecs.Safety.{IsTotal, map_ok-ne-panic, decode_as-ne-panic, str-ne-panic, Safe-i32}

err-ne-ok : {x : CodecError} {c : Codec} → ◌≢◌ {A = Result CodecError Codec} (err x) (ok c)
err-ne-ok h = cc

module _ ⦃C : Crates⦄ where
  json-ne-panic : (buf : List ℕ) → raw_json buf ≢ panic
  unfolding raw_json
  json-ne-panic buf =
      go (Decoder.◌>>◌ (ensure_remaining 1) (take_or_panic C.get_u8) buf)
        ((Safe->> (Safe-ensure 0 1) (Safe-u8 0)).leaves buf (omega arith))
    where
      formatted :
          (b : Bool) (rest : List ℕ) → (if b then raw_str rest else err invalid_json_format) ≢ panic
      formatted true rest = str-ne-panic rest
      formatted false rest = λ e. cc

      go :
          (x : Result DecodeError (ℕ × List ℕ))
          → Leaves 0 x
          → ◌≢◌ {A = Result DecodeError (List ℕ)}
              (elim x [
                | ok (format, rest) ↦ if format == 1 then raw_str rest else err invalid_json_format
                | err e ↦ err e
                | panic ↦ panic
              ])
              panic
      go (ok (format, rest)) l = formatted (format == 1) rest
      go (err e) l = λ h. cc
      go panic l = λ h. l

  uuid-ne-panic : (buf : List ℕ) → raw_uuid buf ≢ panic
  unfolding raw_uuid ensure_exact_size
  uuid-ne-panic buf = elim (Bool-cases (length buf == 16)) [
    | inl exact ↦
        rw (exact, raw_uuid, ensure_exact_size, C.from_slice-eq_some buf ((==_iff _ _).0 exact))
          (ok-ne-panic buf)
    | inr other ↦ elim (Bool-cases (ltb (length buf) 16)) [
      | inl short ↦ rw (other, short, raw_uuid, ensure_exact_size) (err-ne-panic underflow)
      | inr long ↦ rw (other, long, raw_uuid, ensure_exact_size) (err-ne-panic extra_data)
    ]
  ]

  decoded :
      {A : Type 0} (f : A → Value) (d : List ℕ → Result DecodeError A)
      → ((buf : List ℕ) → d buf ≢ panic)
      → (buf : List ℕ) → map_ok f (d buf) ≢ panic
  decoded f d s buf = map_ok-ne-panic f (d buf) (s buf)

  scalars-IsTotal : All (λ (entry : ℕ × Codec). IsTotal entry.1) scalars
  unfolding scalars raw_bytes raw_local_datetime raw_local_date uuid_codec str_codec bytes_codec
      int16_codec int32_codec int64_codec float32_codec float64_codec decimal_codec bool_codec
      datetime_codec local_datetime_codec local_date_codec local_time_codec duration_codec
      json_codec big_int_codec relative_duration_codec date_duration_codec config_memory_codec
  scalars-IsTotal = (
    decoded _ raw_uuid uuid-ne-panic,
    (
      decoded _ raw_str str-ne-panic,
      (
        decoded _ raw_bytes (λ buf. ok-ne-panic buf),
        (
          decode_as-ne-panic _ _ Safety.Safe-raw_i16,
          (
            decode_as-ne-panic _ _ Safety.Safe-raw_i32,
            (
              decode_as-ne-panic _ _ Safety.Safe-raw_i64,
              (
                decode_as-ne-panic _ _ Safety.Safe-raw_f32,
                (
                  decode_as-ne-panic _ _ Safety.Safe-raw_f64,
                  (
                    decode_as-ne-panic _ _ Safety.Safe-raw_decimal,
                    (
                      decode_as-ne-panic _ _ Safety.Safe-raw_bool,
                      (
                        decode_as-ne-panic _ _ Safety.Safe-raw_datetime,
                        (
                          decode_as-ne-panic _ _ Safety.Safe-raw_i64,
                          (
                            decode_as-ne-panic _ _ Safety.Safe-raw_i32,
                            (
                              decode_as-ne-panic _ _ Safety.Safe-raw_local_time,
                              (
                                decode_as-ne-panic _ _ Safety.Safe-raw_duration,
                                (
                                  decoded _ raw_json json-ne-panic,
                                  (
                                    decode_as-ne-panic _ _ Safety.Safe-raw_big_int,
                                    (
                                      decode_as-ne-panic _ _ Safety.Safe-raw_relative_duration,
                                      (
                                        decode_as-ne-panic _ _ Safety.Safe-raw_date_duration,
                                        (decode_as-ne-panic _ _ Safety.Safe-raw_config_memory, tt),
                                      ),
                                    ),
                                  ),
                                ),
                              ),
                            ),
                          ),
                        ),
                      ),
                    ),
                  ),
                ),
              ),
            ),
          ),
        ),
      ),
    ),
  )

  found-IsTotal :
      (id : List ℕ) (table : List (ℕ × Codec)) (c : Codec)
      → All (λ (entry : ℕ × Codec). IsTotal entry.1) table
      → find_scalar id table ≡ ok c
      → IsTotal c
  unfolding find_scalar
  found-IsTotal id [] c h e = absurd (err-ne-ok e)
  found-IsTotal id (entry ∷ rest) c (h, hs) e = elim (Bool-cases (uuid_of entry.0 == id)) [
    | inl this ↦ rw (ok-injective (rw (this, find_scalar) at e)) at h
    | inr other ↦ found-IsTotal id rest c hs (rw (other, find_scalar) at e)
  ]

  pub scalar-IsTotal : (id : List ℕ) (c : Codec) → scalar_codec id ≡ ok c → IsTotal c
  unfolding scalar_codec
  scalar-IsTotal id c e = found-IsTotal id scalars c scalars-IsTotal e
