-- ===== src/Codecs/ScalarRoundTrip.antt =====
-- The codecs of the scalar types in codec.rs on the bytes that they have written: integers, floats,
-- text, identifiers.
use edgedb_rust.Base.{
  ℕ, ◌^◌, ◌<◌, ◌≡◌, refl, ap, Bool, true, false, if◌then◌else◌, List, ok, map_ok, length, All,
  arith,
}
use edgedb_rust.Base.HashMap.{◌==◌, nat_eq, list_eq}
use edgedb_rust.Wire.{to_be_bytes, length-to_be_bytes, from_utf8, IsUtf8, Crates}
use edgedb_rust.Wire.Encoder.{Encoder}
use edgedb_rust.Wire.Encoder.Writes.{
  Writes, Writes-u8, Writes-u16, Writes-u32, Writes-u64, Writes-extend, bytes_of_all,
}
use edgedb_rust.Wire.Decoder.{Decoder, take_or_panic, ◌>>◌}
use edgedb_rust.Wire.Decoder.Reads.{
  Reads, ReadsAll, ReadsAll-Reads, Reads-pure_eq, Reads-lift, Reads-map, Reads-pushed, Reads-u8,
  Reads-u16, Reads-u32, Reads-u64,
}
use edgedb_rust.Wire.Encoding.RoundTrip.{IsU16}
use edgedb_rust.Time.Int.{ℤ, pos, negsuc}
use edgedb_rust.Bignum.BigInt.{as_unsigned}
use edgedb_rust.Codecs.{
  Value, Codec, uuid, str, bytes, int16, int32, int64, float32, float64, bool, local_datetime,
  local_date, config_memory,
}
use edgedb_rust.Codecs.Raw.{
  result, from_bits, ensure_exact_size, get_i16, get_i32, get_i64, get_digits, sign, bool_of,
  raw_str, raw_bytes, raw_uuid, raw_bool, raw_i16, raw_i32, raw_i64, raw_config_memory, raw_f32,
  raw_f64, raw_local_datetime, raw_local_date,
}
use edgedb_rust.Codecs.Scalars.{
  decode_as, put_i16, put_i32, put_i64, encode_local_datetime, encode_local_date, uuid_codec,
  str_codec, bytes_codec, int16_codec, int32_codec, int64_codec, float32_codec, float64_codec,
  bool_codec, local_datetime_codec, local_date_codec, config_memory_codec,
}
use edgedb_rust.Codecs.Appends.{IsInt, IsValue, Appends, Appends-Writes, Appends-refuse}

-- Whatever value the codec succeeds in writing, it reads back from the bytes that it wrote.
abbrev pub RoundTrips : Codec → Type 0
RoundTrips c =
    (v : Value) → IsValue v → Appends (c.encode v) (λ bs. length bs < 2 ^ 31 → c.decode bs ≡ ok v)

bits_read_16 : (v : ℤ) → IsInt 15 v → from_bits 16 (as_unsigned 16 v) ≡ v
unfolding from_bits as_unsigned
bits_read_16 (pos n) b = ground arith
bits_read_16 (negsuc n) b = ground arith

bits_read_32 : (v : ℤ) → IsInt 31 v → from_bits 32 (as_unsigned 32 v) ≡ v
unfolding from_bits as_unsigned
bits_read_32 (pos n) b = ground arith
bits_read_32 (negsuc n) b = ground arith

bits_read_64 : (v : ℤ) → IsInt 63 v → from_bits 64 (as_unsigned 64 v) ≡ v
unfolding from_bits as_unsigned
bits_read_64 (pos n) b = ground arith
bits_read_64 (negsuc n) b = ground arith

as_unsigned-lt_16 : (v : ℤ) → as_unsigned 16 v < 2 ^ 16
unfolding as_unsigned
as_unsigned-lt_16 (pos n) = omega arith
as_unsigned-lt_16 (negsuc n) = omega arith

as_unsigned-lt_32 : (v : ℤ) → as_unsigned 32 v < 2 ^ 32
unfolding as_unsigned
as_unsigned-lt_32 (pos n) = omega arith
as_unsigned-lt_32 (negsuc n) = omega arith

pub as_unsigned-lt_64 : (v : ℤ) → as_unsigned 64 v < 2 ^ 64
unfolding as_unsigned
as_unsigned-lt_64 (pos n) = omega arith
as_unsigned-lt_64 (negsuc n) = omega arith

pub ReadsAll-exact :
    {A : Type 0} (n : ℕ) {d : Decoder A} {bs : List ℕ} {a : A}
    → length bs ≡ n
    → Reads d bs a
    → ReadsAll (ensure_exact_size n >> d) bs a
unfolding ensure_exact_size ◌>>◌
ReadsAll-exact n {d} {bs} e r = record {
  read_all = rw (exact, ◌>>◌, ensure_exact_size) (ReadsAll-Reads r).read_all;
}
  where
    exact : (length bs == n) ≡ true
    exact = ground arith

pub sign_read : (b : Bool) → sign (if b then 0x4000 else 0x0000) ≡ ok b
unfolding sign
sign_read true = refl
sign_read false = refl

pub sign-lt : (b : Bool) → (if b then 0x4000 else 0x0000) < 2 ^ 16
sign-lt true = omega arith
sign-lt false = omega arith

pub text_read : (s : List ℕ) → IsUtf8 s → raw_str s ≡ ok s
unfolding raw_str
text_read s u = unfold from_utf8 in rw u refl

exact : (u : List ℕ) → length u ≡ 16 → (length u == 16) ≡ true
exact u h = ground arith

module _ {A : Type 0} where
  -- A codec whose encoder writes bytes that its decoder reads as the value.
  pub scalar_read :
      (f : A → Value) {d : Decoder A} {e : Encoder} {bs : List ℕ} {a : A}
      → Writes e bs
      → ReadsAll d bs a
      → Appends e (λ bs. length bs < 2 ^ 31 → decode_as f d bs ≡ ok (f a))
  unfolding decode_as result
  scalar_read f w r = Appends-Writes _ w (λ _. rw (r.read_all, decode_as, result) refl)

module _ ⦃C : Crates⦄ where
  pub Reads-i16 : (v : ℤ) → IsInt 15 v → Reads get_i16 (to_be_bytes 2 (as_unsigned 16 v)) v
  unfolding get_i16
  Reads-i16 v h = Reads-map _ (Reads-u16 _ (as_unsigned-lt_16 v)) (Reads-pure_eq (bits_read_16 v h))

  pub Reads-i32 : (v : ℤ) → IsInt 31 v → Reads get_i32 (to_be_bytes 4 (as_unsigned 32 v)) v
  unfolding get_i32
  Reads-i32 v h = Reads-map _ (Reads-u32 _ (as_unsigned-lt_32 v)) (Reads-pure_eq (bits_read_32 v h))

  pub Reads-i64 : (v : ℤ) → IsInt 63 v → Reads get_i64 (to_be_bytes 8 (as_unsigned 64 v)) v
  unfolding get_i64
  Reads-i64 v h = Reads-map _ (Reads-u64 _ (as_unsigned-lt_64 v)) (Reads-pure_eq (bits_read_64 v h))

  pub Reads-digits :
      (ds : List ℕ)
      → All IsU16 ds
      → Reads (get_digits (length ds)) (bytes_of_all (to_be_bytes 2) ds) ds
  unfolding get_digits
  Reads-digits ds h = Reads-pushed (take_or_panic C.get_u16) (to_be_bytes 2) IsU16 Reads-u16 ds h

  pub ReadsAll-i64 : (v : ℤ) → IsInt 63 v → ReadsAll raw_i64 (to_be_bytes 8 (as_unsigned 64 v)) v
  unfolding raw_i64
  ReadsAll-i64 v h = ReadsAll-exact 8 (length-to_be_bytes 8 _) (Reads-i64 v h)

  pub Writes-i16 : (v : ℤ) → Writes (put_i16 v) (to_be_bytes 2 (as_unsigned 16 v))
  unfolding put_i16
  Writes-i16 v = Writes-u16 _

  pub Writes-i32 : (v : ℤ) → Writes (put_i32 v) (to_be_bytes 4 (as_unsigned 32 v))
  unfolding put_i32
  Writes-i32 v = Writes-u32 _

  pub Writes-i64 : (v : ℤ) → Writes (put_i64 v) (to_be_bytes 8 (as_unsigned 64 v))
  unfolding put_i64
  Writes-i64 v = Writes-u64 _

  pub int16_RoundTrips : RoundTrips int16_codec
  unfolding int16_codec raw_i16
  int16_RoundTrips (int16 v) h =
      scalar_read int16 (Writes-i16 v) (ReadsAll-exact 2 (length-to_be_bytes 2 _) (Reads-i16 v h))
  int16_RoundTrips _ h = Appends-refuse _ _

  pub int32_RoundTrips : RoundTrips int32_codec
  unfolding int32_codec raw_i32
  int32_RoundTrips (int32 v) h =
      scalar_read int32 (Writes-i32 v) (ReadsAll-exact 4 (length-to_be_bytes 4 _) (Reads-i32 v h))
  int32_RoundTrips _ h = Appends-refuse _ _

  pub int64_RoundTrips : RoundTrips int64_codec
  unfolding int64_codec
  int64_RoundTrips (int64 v) h = scalar_read int64 (Writes-i64 v) (ReadsAll-i64 v h)
  int64_RoundTrips _ h = Appends-refuse _ _

  pub config_memory_RoundTrips : RoundTrips config_memory_codec
  unfolding config_memory_codec raw_config_memory
  config_memory_RoundTrips (config_memory v) h =
      scalar_read config_memory (Writes-i64 v)
        (ReadsAll-exact 8 (length-to_be_bytes 8 _) (Reads-i64 v h))
  config_memory_RoundTrips _ h = Appends-refuse _ _

  pub float32_RoundTrips : RoundTrips float32_codec
  unfolding float32_codec raw_f32
  float32_RoundTrips (float32 n) h =
      scalar_read float32 (Writes-u32 n) (ReadsAll-exact 4 (length-to_be_bytes 4 n) (Reads-u32 n h))
  float32_RoundTrips _ h = Appends-refuse _ _

  pub float64_RoundTrips : RoundTrips float64_codec
  unfolding float64_codec raw_f64
  float64_RoundTrips (float64 n) h =
      scalar_read float64 (Writes-u64 n) (ReadsAll-exact 8 (length-to_be_bytes 8 n) (Reads-u64 n h))
  float64_RoundTrips _ h = Appends-refuse _ _

  pub bool_RoundTrips : RoundTrips bool_codec
  unfolding bool_codec raw_bool bool_of
  bool_RoundTrips (bool true) h = scalar_read bool (Writes-u8 1) (
      ReadsAll-exact 1 (length-to_be_bytes 1 1)
        (Reads-map _ (Reads-u8 1 (omega arith)) (Reads-lift refl)))
  bool_RoundTrips (bool false) h = scalar_read bool (Writes-u8 0) (
      ReadsAll-exact 1 (length-to_be_bytes 1 0)
        (Reads-map _ (Reads-u8 0 (omega arith)) (Reads-lift refl)))
  bool_RoundTrips _ h = Appends-refuse _ _

  pub local_datetime_RoundTrips : RoundTrips local_datetime_codec
  unfolding local_datetime_codec raw_local_datetime encode_local_datetime
  local_datetime_RoundTrips (local_datetime v) h =
      scalar_read local_datetime (Writes-i64 v) (ReadsAll-i64 v h)
  local_datetime_RoundTrips _ h = Appends-refuse _ _

  pub local_date_RoundTrips : RoundTrips local_date_codec
  unfolding local_date_codec raw_local_date encode_local_date raw_i32
  local_date_RoundTrips (local_date v) h =
      scalar_read local_date (Writes-i32 v)
        (ReadsAll-exact 4 (length-to_be_bytes 4 _) (Reads-i32 v h))
  local_date_RoundTrips _ h = Appends-refuse _ _

  pub str_RoundTrips : RoundTrips str_codec
  unfolding str_codec raw_str
  str_RoundTrips (str s) h =
      Appends-Writes _ (Writes-extend s) (λ _. ap (map_ok str) (text_read s h))
  str_RoundTrips _ h = Appends-refuse _ _

  pub bytes_RoundTrips : RoundTrips bytes_codec
  unfolding bytes_codec raw_bytes
  bytes_RoundTrips (bytes b) h = Appends-Writes _ (Writes-extend b) (λ _. refl)
  bytes_RoundTrips _ h = Appends-refuse _ _

  pub uuid_RoundTrips : RoundTrips uuid_codec
  unfolding uuid_codec raw_uuid ensure_exact_size
  uuid_RoundTrips (uuid u) h =
      Appends-Writes _ (Writes-extend u)
        λ _. rw (exact u h, raw_uuid, ensure_exact_size, C.from_slice-eq_some u h) refl
  uuid_RoundTrips _ h = Appends-refuse _ _
