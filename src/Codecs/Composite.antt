-- ===== src/Codecs/Composite.antt =====
-- edgedb-protocol/src/serialization/decode/raw_composite.rs: the elements of a composite value, one
-- after the other. Every read returns its result and what it makes of the state; the reads of
-- tuples, arrays and ranges share that state.
use edgedb_rust.Base.{
  ℕ, ◌-◌, ltb, leb, ◌||◌, List, [], Option, none, some, Result, ok, err, panic, length, take, drop,
  if◌then◌else◌,
}
use edgedb_rust.Base.HashMap.{◌==◌, nat_eq}
use edgedb_rust.Wire.{
  DecodeError, underflow, extra_data, invalid_marker, object_size_mismatch, tuple_size_mismatch,
  Crates,
}
use edgedb_rust.Wire.Decoder.{Decoder, fail, take_or_panic, ensure_remaining, ◌>>=◌, ◌>>◌}
use edgedb_rust.Time.Int.{ℤ, pos, negsuc}
use edgedb_rust.Bignum.BigInt.{as_unsigned}
use edgedb_rust.Codecs.Raw.{get_i32}

-- `DecodeCompositeInner`
pub record Inner : Type 0 where
  pub raw : List ℕ
  pub count : ℕ

abbrev pub Reader : Type 0 → Type 0
Reader A = Inner → Result DecodeError A × Inner

-- A read, and what is done with its result; and a result that is computed without reading.
module _ {A B : Type 0} where
  unfoldable pub and_then : Reader A → (A → Reader B) → Reader B
  and_then r f s =
      let (x, s') = r s in elim x [ ok a ↦ f a s' | err e ↦ (err e, s') | panic ↦ (panic, s') ]

unfoldable pub computed : {A : Type 0} → Result DecodeError A → Reader A
computed r s = (r, s)

-- `underflow`: with nothing left, every later read underflows too.
unfoldable pub underflowed : Inner → Inner
underflowed s = record { raw = []; count = s.count }

unfoldable pub read_element : (position : ℕ) → Reader (List ℕ)
unfolding underflowed
read_element position s =
    if s.count == 0
    then (panic, s)
    else if leb position (length s.raw)
    then (
      (if ltb 0 (s.count - 1) || length (drop position s.raw) == 0
          then ok (take position s.raw)
          else err extra_data),
      record { raw = drop position s.raw; count = s.count - 1 },
    )
    else (err underflow, underflowed (record { raw = s.raw; count = s.count - 1 }))

unfoldable pub some_of :
    Result DecodeError (List ℕ) × Inner → Result DecodeError (Option (List ℕ)) × Inner
some_of (ok bs, s) = (ok (some bs), s)
some_of (err e, s) = (err e, s)
some_of (panic, s) = (panic, s)

-- What a marker says: an element of that length, or for -1 no element.
unfoldable pub marked : (len : ℤ) → Reader (Option (List ℕ))
unfolding some_of read_element
marked (pos n) s = some_of (read_element n s)
marked (negsuc n) s = ((if n == 0 then ok none else err invalid_marker), s)

unfoldable pub inner_of : ℕ → Decoder Inner
inner_of count buf = ok (record { raw = buf; count = count }, [])

-- `ensure!(elements.inner.count() == expected_count, mismatch)`
unfoldable pub expect_count :
    DecodeError
    → (expected_count : ℕ) → Result DecodeError (Inner × List ℕ)
    → Result DecodeError Inner
expect_count mismatch expected_count (ok (s, rest)) =
    if s.count == expected_count then ok s else err mismatch
expect_count mismatch expected_count (err e) = err e
expect_count mismatch expected_count panic = panic

-- The reads behind a header.
unfoldable pub behind_header :
    {A : Type 0} → Result DecodeError Inner → Reader A → Result DecodeError A
behind_header (ok s) r = (r s).0
behind_header (err e) r = err e
behind_header panic r = panic

module _ ⦃C : Crates⦄ where
  -- A check for `n` bytes, and an `i32` from the front of them; the length check's failure clears
  -- what is left.
  unfoldable pub with_length : {A : Type 0} → (ℤ → Reader A) → Reader A
  unfolding underflowed get_i32
  with_length f s = elim ((ensure_remaining 4 >> get_i32) s.raw) [
    | ok (len, rest) ↦ f len (record { raw = rest; count = s.count })
    | err e ↦ (err e, underflowed s)
    | panic ↦ (panic, s)
  ]

  unfoldable pub read_raw_object_element : Reader (Option (List ℕ))
  unfolding with_length marked
  read_raw_object_element s = with_length marked s

  -- The check is for the reserved word and the length together.
  unfoldable pub read_object_element : Reader (Option (List ℕ))
  unfolding read_raw_object_element underflowed get_i32
  read_object_element s = elim ((ensure_remaining 8 >> get_i32) s.raw) [
    | ok (reserved, rest) ↦ read_raw_object_element (record { raw = rest; count = s.count })
    | err e ↦ (err e, underflowed s)
    | panic ↦ (panic, s)
  ]

  -- `self.raw.get_i32() as usize`
  unfoldable pub read_array_like_element : Reader (List ℕ)
  unfolding with_length read_element
  read_array_like_element s = with_length (λ len. read_element (as_unsigned 64 len)) s

  -- The state behind a header; a decoder's rest goes into it.
  unfoldable pub read_tuple_like_header : Decoder Inner
  unfolding inner_of
  read_tuple_like_header = do ensure_remaining 4; count ← take_or_panic C.get_u32; inner_of count

  unfoldable pub new_with : DecodeError → (expected_count : ℕ) → List ℕ → Result DecodeError Inner
  unfolding read_tuple_like_header expect_count
  new_with mismatch expected_count buf =
      expect_count mismatch expected_count (read_tuple_like_header buf)

  -- `DecodeTupleLike::new_object` and `DecodeTupleLike::new_tuple`
  unfoldable pub new_object : (expected_count : ℕ) → List ℕ → Result DecodeError Inner
  unfolding new_with
  new_object expected_count buf = new_with object_size_mismatch expected_count buf

  unfoldable pub new_tuple : (expected_count : ℕ) → List ℕ → Result DecodeError Inner
  unfolding new_with
  new_tuple expected_count buf = new_with tuple_size_mismatch expected_count buf

  -- The size and the lower bound of the one dimension that there is.
  unfoldable pub read_dimension : DecodeError → Decoder Inner
  unfolding inner_of
  read_dimension error = do
    ensure_remaining 8
    size ← take_or_panic C.get_u32
    lower ← take_or_panic C.get_u32
    if lower == 1 then inner_of size else fail error

  unfoldable pub read_array_like_header : DecodeError → Decoder Inner
  unfolding inner_of read_dimension
  read_array_like_header error = do
    ensure_remaining 12
    ndims ← take_or_panic C.get_u32
    reserved0 ← take_or_panic C.get_u32
    reserved1 ← take_or_panic C.get_u32
    if ndims == 0 then inner_of 0 else if ndims == 1 then read_dimension error else fail error

-- `DecodeRange::new`, behind the flags.
unfoldable pub new_range : List ℕ → Inner
new_range buf = record { raw = buf; count = 2 }
