-- ===== src/Codecs/NumberRoundTrip.antt =====
-- The codecs of durations, dates with a range, long numbers and JSON in codec.rs on the bytes that
-- they have written.
use edgedb_rust.Base.{
  ℕ, ◌*◌, ◌^◌, ◌%◌, ◌<◌, ◌≡◌, refl, ap, Bool, if◌then◌else◌, List, [], ◌∷◌, ◌++◌, Result, ok, ok_or,
  map_ok, length, length-append, All, arith,
}
use edgedb_rust.Base.HashMap.{nat_eq, list_eq}
use edgedb_rust.Wire.{invalid_date}
use edgedb_rust.Wire.{DecodeError, to_be_bytes, length-to_be_bytes, IsUtf8, Crates}
use edgedb_rust.Wire.Encoder.{put}
use edgedb_rust.Wire.Encoder.Writes.{
  Writes->>, Writes-u8, Writes-u16, Writes-u32, Writes-u64, Writes-extend, Writes-for_each,
  bytes_of_all,
}
use edgedb_rust.Wire.Decoder.{Decoder, lift, take_or_panic, ensure_remaining, ◌>>=◌, ◌>>◌}
use edgedb_rust.Wire.Decoder.Reads.{
  Reads, ReadsAll, ReadsAll-ensure, ReadsAll->>=, Reads-pure, Reads-pure_eq, Reads-lift, Reads->>=,
  Reads-map, Reads-u8, Reads-u16, Reads-u32, Reads-u64,
}
use edgedb_rust.Wire.Encoding.RoundTrip.{lengths}
use edgedb_rust.Time.Int.{ℤ, pos}
use edgedb_rust.Bignum.BigInt.{as_unsigned}
use edgedb_rust.Codecs.{
  Value, decimal, datetime, local_time, duration, json, big_int, relative_duration, date_duration,
}
use edgedb_rust.Codecs.Raw.{
  result, from_bits, get_i64, is_zero, day_micros, raw_json, raw_i64, raw_decimal, raw_big_int,
  raw_duration, raw_relative_duration, raw_date_duration, raw_datetime, raw_local_time,
}
use edgedb_rust.Codecs.Scalars.{
  decode_as, encode_duration, encode_relative_duration, encode_date_duration, encode_digits,
  encode_decimal, encode_big_int, encode_datetime, encode_local_time, decimal_codec, datetime_codec,
  local_time_codec, duration_codec, json_codec, big_int_codec, relative_duration_codec,
  date_duration_codec,
}
use edgedb_rust.Codecs.Appends.{Appends, Appends-Writes, Appends-refuse, Appends->>}
use edgedb_rust.Codecs.ScalarRoundTrip.{
  RoundTrips, ReadsAll-exact, sign_read, sign-lt, text_read, scalar_read, Reads-i16, Reads-i32,
  Reads-i64, Reads-digits, ReadsAll-i64, Writes-i16, Writes-i32, Writes-i64,
}
use edgedb_rust.Wire.Decoder.Reads.{Reads-ensure}
use edgedb_rust.Codecs.Appends.{Appends-put_checked}
use edgedb_rust.Time.LocalTime.{micros_per_day}
use edgedb_rust.Time.LocalDatetime.{try_from_datetime_micros}

micros_read : (n : ℕ) → n < micros_per_day → from_bits 64 (n % 2 ^ 64) ≡ pos n
unfolding from_bits
micros_read n h = ground arith

day_read : (n : ℕ) → n < micros_per_day → day_micros (pos n) ≡ ok n
unfolding day_micros
day_read n h = ground arith

length-digits : (ds : List ℕ) → length (bytes_of_all (to_be_bytes 2) ds) ≡ 2 * length ds
length-digits [] = omega arith
length-digits (d ∷ ds) = omega (
  arith,
  length-append (to_be_bytes 2 d) (bytes_of_all (to_be_bytes 2) ds),
  length-to_be_bytes 2 d,
  length-digits ds,
)

All-trivial : (ds : List ℕ) → All (λ _. Unit {0}) ds
All-trivial [] = tt
All-trivial (d ∷ ds) = (tt, All-trivial ds)

Reads-then :
    {A B : Type 0} {r : Result DecodeError A} {f : Decoder B} {cs : List ℕ} {a : A} {b : B}
    → r ≡ ok a
    → Reads f cs b
    → Reads (lift r >> f) cs b
unfolding ◌>>◌ lift
Reads-then e rf = record { read = λ rest. rw (e, ◌>>◌, lift) (rf.read rest) }

ReadsAll-then :
    {A B : Type 0} {r : Result DecodeError A} {f : Decoder B} {cs : List ℕ} {a : A} {b : B}
    → r ≡ ok a
    → ReadsAll f cs b
    → ReadsAll (lift r >> f) cs b
unfolding ◌>>◌ lift
ReadsAll-then e rf = record { read_all = rw (e, ◌>>◌, lift) rf.read_all }

ReadsAll-pass :
    {A B : Type 0} (f : A → Decoder B) {r : Result DecodeError A} {cs : List ℕ} {a : A} {b : B}
    → r ≡ ok a
    → ReadsAll (f a) cs b
    → ReadsAll (lift r >>= f) cs b
unfolding ◌>>=◌ lift
ReadsAll-pass f e rf = record { read_all = rw (e, ◌>>=◌, lift) rf.read_all }

ReadsAll-lift :
    {A B : Type 0} {d : Decoder A} (f : A → Result DecodeError B) {bs : List ℕ} {a : A} {b : B}
    → ReadsAll d bs a
    → f a ≡ ok b
    → ReadsAll (d >>= λ x. lift (f x)) bs b
unfolding ◌>>=◌ lift
ReadsAll-lift f r e = record { read_all = rw (r.read_all, ◌>>=◌, e, lift) refl }

-- What stands behind the count of the digits.
abbrev wire_digits : Bool → ℤ → ℕ → List ℕ → List ℕ
wire_digits negative weight scale ds =
    to_be_bytes 2 (as_unsigned 16 weight)
    ++ (to_be_bytes 2 (if negative then 0x4000 else 0x0000)
        ++ (to_be_bytes 2 scale ++ bytes_of_all (to_be_bytes 2) ds))

module _ ⦃C : Crates⦄ where
  pub duration_RoundTrips : RoundTrips duration_codec
  unfolding duration_codec raw_duration encode_duration
  duration_RoundTrips (duration v) h =
      scalar_read duration (Writes->> (Writes-i64 v) (Writes->> (Writes-u32 0) (Writes-u32 0))) (
        ReadsAll-exact 16 (omega lengths) (
          Reads->>= _ (Reads-i64 v h) (
            Reads->>= _ (Reads-u32 0 (omega arith))
              (Reads-map _ (Reads-u32 0 (omega arith)) (Reads-lift refl)))))
  duration_RoundTrips _ h = Appends-refuse _ _

  pub relative_duration_RoundTrips : RoundTrips relative_duration_codec
  unfolding relative_duration_codec raw_relative_duration encode_relative_duration
  relative_duration_RoundTrips (relative_duration d) (hu, hd, hm) =
      scalar_read relative_duration
        (Writes->> (Writes-i64 d.micros) (Writes->> (Writes-i32 d.days) (Writes-i32 d.months)))
        (ReadsAll-exact 16 (omega lengths) (
          Reads->>= _ (Reads-i64 d.micros hu) (
            Reads->>= _ (Reads-i32 d.days hd)
              (Reads-map _ (Reads-i32 d.months hm) (Reads-pure d)))))
  relative_duration_RoundTrips _ h = Appends-refuse _ _

  pub date_duration_RoundTrips : RoundTrips date_duration_codec
  unfolding date_duration_codec raw_date_duration encode_date_duration is_zero
  date_duration_RoundTrips (date_duration d) (hd, hm) =
      scalar_read date_duration
        (Writes->> (Writes-i64 (pos 0)) (Writes->> (Writes-i32 d.days) (Writes-i32 d.months)))
        (ReadsAll-exact 16 (omega lengths) (
          Reads->>= _ (Reads-i64 (pos 0) (omega arith)) (
            Reads->>= _ (Reads-i32 d.days hd)
              (Reads-map _ (Reads-i32 d.months hm) (Reads-then refl (Reads-pure d))))))
  date_duration_RoundTrips _ h = Appends-refuse _ _

  pub datetime_RoundTrips : RoundTrips datetime_codec
  unfolding datetime_codec raw_datetime encode_datetime raw_i64
  datetime_RoundTrips (datetime v) (h, r) = scalar_read datetime (Writes-i64 v) (
      ReadsAll-lift (λ v. ok_or invalid_date (try_from_datetime_micros v)) (ReadsAll-i64 v h)
        (ap (ok_or invalid_date) r))
  datetime_RoundTrips _ h = Appends-refuse _ _

  pub local_time_RoundTrips : RoundTrips local_time_codec
  unfolding local_time_codec raw_local_time encode_local_time raw_i64 get_i64
  local_time_RoundTrips (local_time n) h = scalar_read local_time (Writes-u64 (n % 2 ^ 64)) (
      ReadsAll-lift day_micros
        (ReadsAll-exact 8 (length-to_be_bytes 8 _)
          (Reads-map _ (Reads-u64 _ (omega arith)) (Reads-pure_eq (micros_read n h))))
        (day_read n h))
  local_time_RoundTrips _ h = Appends-refuse _ _

  json_read : (s : List ℕ) → IsUtf8 s → map_ok json (raw_json (to_be_bytes 1 1 ++ s)) ≡ ok (json s)
  unfolding raw_json
  json_read s u = rw ((format_Reads).read s, raw_json, text_read s u) refl
    where
      format_Reads : Reads (ensure_remaining 1 >> take_or_panic C.get_u8) (to_be_bytes 1 1) 1
      format_Reads = Reads-ensure (omega lengths) (Reads-u8 1 (omega arith))

  pub json_RoundTrips : RoundTrips json_codec
  unfolding json_codec raw_json
  json_RoundTrips (json s) h =
      Appends-Writes _ (Writes->> (Writes-u8 1) (Writes-extend s)) (λ _. json_read s h)
  json_RoundTrips _ h = Appends-refuse _ _

  -- The digits of a number behind the count of them, and what stands between.
  digits_read :
      {A : Type 0} (f : A → Value) (d : Decoder A) (a : A) (negative : Bool) (weight : ℤ)
      (scale : ℕ) (ds : List ℕ)
      → (length ds < 2 ^ 16
          → ReadsAll d (to_be_bytes 2 (length ds) ++ wire_digits negative weight scale ds) a)
      → Appends
          (encode_digits negative weight scale ds)
          (λ bs. length bs < 2 ^ 31 → decode_as f d bs ≡ ok (f a))
  unfolding encode_digits decode_as result
  digits_read f d a negative weight scale ds r =
      Appends->> (λ bs. (bs ≡ to_be_bytes 2 (length ds)) × (length ds < 2 ^ 16))
        (λ cs. cs ≡ wire_digits negative weight scale ds)
        (λ bs. length bs < 2 ^ 31 → decode_as f d bs ≡ ok (f a))
        (Appends-put_checked 2 _ _ C.put_u16 (length ds) C.put_u16-PutsBe)
        (Appends-Writes _
          (Writes->> (Writes-i16 weight) (
            Writes->> (Writes-u16 _) (
              Writes->> (Writes-u16 scale) (
                Writes-for_each (λ dig. put (C.put_u16 dig)) (to_be_bytes 2) (λ _. Unit {0})
                  (λ x _. Writes-u16 x) ds (All-trivial ds)))))
          refl)
        λ bs cs (q, few) e _. rw (q, e, decode_as, (r few).read_all, result) refl

  pub big_int_RoundTrips : RoundTrips big_int_codec
  unfolding big_int_codec encode_big_int raw_big_int
  big_int_RoundTrips (big_int b) (hw, hd) =
      digits_read big_int _ b b.negative b.weight 0 b.digits λ few.
        ReadsAll-ensure (omega lengths) (
          ReadsAll->>= _ _ (Reads-u16 _ few) (
            ReadsAll->>= _ _ (Reads-i16 b.weight hw) (
              ReadsAll->>= _ _ (Reads-u16 _ (sign-lt b.negative)) (
                ReadsAll-pass _ (sign_read b.negative) (
                  ReadsAll->>= _ _ (Reads-u16 0 (omega arith)) (
                    ReadsAll-then refl (
                      ReadsAll-exact (2 * length b.digits) (length-digits b.digits)
                        (Reads-map _ (Reads-digits b.digits hd) (Reads-pure b)))))))))
  big_int_RoundTrips _ h = Appends-refuse _ _

  pub decimal_RoundTrips : RoundTrips decimal_codec
  unfolding decimal_codec encode_decimal raw_decimal
  decimal_RoundTrips (decimal b) (hw, hs, hd) =
      digits_read decimal _ b b.negative b.weight b.decimal_digits b.digits λ few.
        ReadsAll-ensure (omega lengths) (
          ReadsAll->>= _ _ (Reads-u16 _ few) (
            ReadsAll->>= _ _ (Reads-i16 b.weight hw) (
              ReadsAll->>= _ _ (Reads-u16 _ (sign-lt b.negative)) (
                ReadsAll-pass _ (sign_read b.negative) (
                  ReadsAll->>= _ _ (Reads-u16 b.decimal_digits hs) (
                    ReadsAll-exact (2 * length b.digits) (length-digits b.digits)
                      (Reads-map _ (Reads-digits b.digits hd) (Reads-pure b))))))))
  decimal_RoundTrips _ h = Appends-refuse _ _
