-- ===== src/Codecs/TotalComposite.antt =====
-- The decoders of composite types in codec.rs on any bytes, over those of what they hold.
use edgedb_rust.Base.{
  ℕ, refl, ◌≢◌, Bool, true, false, Bool-cases, inl, inr, leb, List, Result, ok, err, panic,
  ok-ne-panic, err-ne-panic, length, All, if◌then◌else◌, arith,
}
use edgedb_rust.Base.HashMap.{◌==◌, nat_eq, list_eq}
use edgedb_rust.Wire.{DecodeError, underflow, extra_data, extra_enum_value, Crates}
use edgedb_rust.Wire.Decoder
use edgedb_rust.Wire.Decoder.{Decoder, take_or_panic, ensure_remaining}
use edgedb_rust.Wire.Decoder.Safe.{
  Safe, Leaves, Safe-pure, Safe-fail, Safe->>=, Safe->>, Safe-ensure, Safe-u8, Safe-u32, if-Safe,
}
use edgedb_rust.Codecs.{Value, Values, enum, Codec, ObjectShape, NamedTupleShape}
use edgedb_rust.Codecs.Raw.{raw_str}
use edgedb_rust.Codecs.Composite.{
  Inner, Reader, read_tuple_like_header, read_array_like_header, read_dimension, inner_of,
  expect_count, behind_header, new_with, new_object, new_tuple, new_range,
}
use edgedb_rust.Codecs.Collections.{
  decode_items, decode_array_like, set_codec, array_codec, adapter_header, array_adapter_codec,
  derived_scalar_codec, decode_tuple, decode_tuple_with, tuple_codec, named_tuple_codec,
  decode_bounds, decode_range, range_codec, decode_member, enum_codec, contains,
}
use edgedb_rust.Codecs.Objects.{decode_slots, decode_object, object_codec}
use edgedb_rust.Codecs.Safety.{IsTotal, map_ok-ne-panic, str-ne-panic, Safe-i32}
use edgedb_rust.Codecs.Reading.{CanRead}
use edgedb_rust.Codecs.ReadingParts.{
  CanRead-bounds, CanRead-items, CanRead-slots, CanRead-tuple, behind-ne-panic,
}

module _ ⦃C : Crates⦄ where
  Safe-inner : (n : ℕ) → Safe 0 0 (inner_of n)
  unfolding inner_of
  Safe-inner n = record { leaves = λ bs h. omega arith }

  Safe-array_header : (e : DecodeError) → Safe 0 0 (read_array_like_header e)
  unfolding read_array_like_header read_dimension
  Safe-array_header e = Safe->> (Safe-ensure 0 12) (
      Safe->>= _ (Safe-u32 8) λ ndims. Safe->>= _ (Safe-u32 4) λ reserved0.
        Safe->>= _ (Safe-u32 0) λ reserved1.
          if-Safe (ndims == 0) (λ _. Safe-inner 0)
            λ _.
              if-Safe (ndims == 1)
                (λ _. Safe->> (Safe-ensure 0 8) (
                  Safe->>= _ (Safe-u32 4) λ size.
                    Safe->>= _ (Safe-u32 0)
                      λ lower. if-Safe (lower == 1) (λ _. Safe-inner size) λ _. Safe-fail 0 0 e))
                λ _. Safe-fail 0 0 e)

  array_like-ne-panic :
      (e : DecodeError) (one : List ℕ → Result DecodeError Value) (buf : List ℕ)
      → ((buf : List ℕ) → one buf ≢ panic)
      → decode_array_like e one buf ≢ panic
  unfolding decode_array_like
  array_like-ne-panic e one buf h =
      go (read_array_like_header e buf) ((Safe-array_header e).leaves buf (omega arith))
    where
      go :
          (x : Result DecodeError (Inner × List ℕ))
          → Leaves 0 x
          → ◌≢◌ {A = Result DecodeError Values}
              (elim x [
                | ok (s, rest) ↦ (decode_items s.count one s).0
                | err e ↦ err e
                | panic ↦ panic
              ])
              panic
      go (ok (s, rest)) l = behind-ne-panic s.count _ s (CanRead-items s.count one h) (omega arith)
      go (err x) l = err-ne-panic x
      go panic l = λ _. l

  pub set-IsTotal : (c : Codec) → IsTotal c → IsTotal (set_codec c)
  unfolding set_codec
  set-IsTotal c h buf = map_ok-ne-panic _ _ (array_like-ne-panic _ c.decode buf h)

  pub array-IsTotal : (c : Codec) → IsTotal c → IsTotal (array_codec c)
  unfolding array_codec
  array-IsTotal c h buf = map_ok-ne-panic _ _ (array_like-ne-panic _ c.decode buf h)

  Safe-adapter : Safe 0 0 adapter_header
  unfolding adapter_header
  Safe-adapter = Safe->> (Safe-ensure 0 12) (
      Safe->>= _ (Safe-u32 8) λ count.
        if-Safe (count == 1)
          (λ _. Safe->> (Safe-i32 4) (Safe->>= _ (Safe-i32 0) λ len. Safe-pure 0 _))
          λ _. Safe-fail 8 0 _)

  pub array_adapter-IsTotal : (c : Codec) → IsTotal c → IsTotal (array_adapter_codec c)
  unfolding array_adapter_codec
  array_adapter-IsTotal c h buf = go (adapter_header buf) (Safe-adapter.leaves buf (omega arith))
    where
      fits :
          (b d : Bool) (rest : List ℕ)
          → (if b then (if d then c.decode rest else err extra_data) else err underflow) ≢ panic
      fits true true rest = h rest
      fits true false rest = err-ne-panic extra_data
      fits false d rest = err-ne-panic underflow

      go :
          (x : Result DecodeError (ℕ × List ℕ))
          → Leaves 0 x
          → ◌≢◌ {A = Result DecodeError Value}
              (elim x [
                | ok (len, rest) ↦
                    if leb len (length rest)
                    then (if leb (length rest) len then c.decode rest else err extra_data)
                    else err underflow
                | err e ↦ err e
                | panic ↦ panic
              ])
              panic
      go (ok (len, rest)) l = fits (leb len (length rest)) (leb (length rest) len) rest
      go (err x) l = err-ne-panic x
      go panic l = λ _. l

  pub derived_scalar-IsTotal : (c : Codec) → IsTotal c → IsTotal (derived_scalar_codec c)
  unfolding derived_scalar_codec
  derived_scalar-IsTotal c h buf = h buf

  Safe-tuple_header : Safe 0 0 read_tuple_like_header
  unfolding read_tuple_like_header
  Safe-tuple_header = Safe->> (Safe-ensure 0 4) (Safe->>= _ (Safe-u32 0) λ count. Safe-inner count)

  expected-ne-panic :
      {A : Type 0} (e : DecodeError) (n : ℕ) (r : Reader A)
      (x : Result DecodeError (Inner × List ℕ))
      → CanRead n 0 r
      → Leaves 0 x
      → behind_header (expect_count e n x) r ≢ panic
  unfolding expect_count behind_header
  expected-ne-panic e n r (ok (s, rest)) c l = elim (Bool-cases (s.count == n)) [
    | inl same ↦ rw (same, expect_count, behind_header) (behind-ne-panic n r s c (ground arith))
    | inr other ↦ rw (other, expect_count, behind_header) (err-ne-panic e)
  ]
  expected-ne-panic e n r (err x) c l = err-ne-panic x
  expected-ne-panic e n r panic c l = λ _. l

  -- What is done behind a header that found the count that was expected.
  headed-ne-panic :
      {A : Type 0} (e : DecodeError) (n : ℕ) (r : Reader A) (buf : List ℕ)
      → CanRead n 0 r
      → behind_header (new_with e n buf) r ≢ panic
  unfolding new_with
  headed-ne-panic e n r buf c =
      expected-ne-panic e n r _ c (Safe-tuple_header.leaves buf (omega arith))

  pub tuple-IsTotal : (cs : List Codec) → All IsTotal cs → IsTotal (tuple_codec cs)
  unfolding tuple_codec decode_tuple_with new_object
  tuple-IsTotal cs h buf =
      map_ok-ne-panic _ _ (headed-ne-panic _ (length cs) (decode_tuple cs) buf (CanRead-tuple cs h))

  pub named_tuple-IsTotal :
      (shape : NamedTupleShape) (cs : List Codec)
      → All IsTotal cs
      → IsTotal (named_tuple_codec shape cs)
  unfolding named_tuple_codec decode_tuple_with new_tuple
  named_tuple-IsTotal shape cs h buf =
      map_ok-ne-panic _ _ (headed-ne-panic _ (length cs) (decode_tuple cs) buf (CanRead-tuple cs h))

  pub object-IsTotal :
      (shape : ObjectShape) (cs : List Codec) → All IsTotal cs → IsTotal (object_codec shape cs)
  unfolding object_codec decode_object new_object
  object-IsTotal shape cs h buf =
      map_ok-ne-panic _ _ (headed-ne-panic _ (length cs) (decode_slots cs) buf (CanRead-slots cs h))

  pub range-IsTotal : (c : Codec) → IsTotal c → IsTotal (range_codec c)
  unfolding range_codec decode_range new_range
  range-IsTotal c h buf =
      go (Decoder.◌>>◌ (ensure_remaining 1) (take_or_panic C.get_u8) buf)
        ((Safe->> (Safe-ensure 0 1) (Safe-u8 0)).leaves buf (omega arith))
    where
      go :
          (x : Result DecodeError (ℕ × List ℕ))
          → Leaves 0 x
          → ◌≢◌ {A = Result DecodeError Value}
              (elim x [
                | ok (flags, rest) ↦
                    (decode_bounds c.decode flags (record { raw = rest; count = 2 })).0
                | err e ↦ err e
                | panic ↦ panic
              ])
              panic
      go (ok (flags, rest)) l =
          behind-ne-panic 2 _ _ (CanRead-bounds flags c.decode h) (omega arith)
      go (err x) l = err-ne-panic x
      go panic l = λ _. l

  pub enum-IsTotal : (members : List (List ℕ)) → IsTotal (enum_codec members)
  unfolding enum_codec decode_member
  enum-IsTotal members buf = go (raw_str buf) (str-ne-panic buf)
    where
      known :
          (b : Bool) (name : List ℕ) → (if b then ok (enum name) else err extra_enum_value) ≢ panic
      known true name = ok-ne-panic _
      known false name = err-ne-panic _

      go :
          (x : Result DecodeError (List ℕ))
          → x ≢ panic
          → ◌≢◌ {A = Result DecodeError Value}
              (elim x [
                | ok name ↦ if contains members name then ok (enum name) else err extra_enum_value
                | err e ↦ err e
                | panic ↦ panic
              ])
              panic
      go (ok name) n = known (contains members name) name
      go (err x) n = err-ne-panic x
      go panic n = λ _. n refl
