-- ===== src/Codecs/ReadingBack.antt =====
-- The readers of raw_composite.rs on a length and the element behind it.
use edgedb_rust.Base.{
  ℕ, zero, suc, ◌-◌, ◌%◌, ◌^◌, ◌<◌, ◌≤◌, ◌≡◌, refl, true, false, ltb, leb, ◌||◌, List, [], ◌++◌,
  append_assoc, none, some, ok, length, length-append, take-append_length, drop-append_length,
  arith,
}
use edgedb_rust.Base.HashMap.{◌==◌, nat_eq}
use edgedb_rust.Wire.{to_be_bytes, length-to_be_bytes, Crates}
use edgedb_rust.Wire.Decoder.{ensure_remaining, ◌>>◌}
use edgedb_rust.Wire.Decoder.Reads.{Reads, Reads-ensure, Reads-map, Reads-u32, Reads-pure_eq}
use edgedb_rust.Wire.Encoding.RoundTrip.{lengths}
use edgedb_rust.Time.Int.{pos, negsuc}
use edgedb_rust.Bignum.BigInt.{as_unsigned}
use edgedb_rust.Codecs.Raw.{get_i32, from_bits}
use edgedb_rust.Codecs.Composite.{
  Inner, read_element, with_length, some_of, marked, read_raw_object_element, read_object_element,
  read_array_like_element,
}

abbrev pub inner : List ℕ → ℕ → Inner
inner bs k = record { raw = bs; count = k }

abbrev pub wire_element : List ℕ → List ℕ
wire_element bs = to_be_bytes 4 (length bs) ++ bs

-- The last element leaves nothing.
abbrev pub Ends : ℕ → List ℕ → Type 0
Ends zero rest = rest ≡ []
Ends (suc k) rest = Unit {0}

Ends-test : (k : ℕ) (rest : List ℕ) → Ends k rest → (ltb 0 k || length rest == 0) ≡ true
Ends-test zero rest h = rw h refl
Ends-test (suc k) rest h = ground arith

element_read :
    (bs rest : List ℕ) (k : ℕ)
    → Ends k rest
    → read_element (length bs) (inner (bs ++ rest) (suc k)) ≡ (ok bs, inner rest k)
unfolding read_element
element_read bs rest k h =
    rw
      (
        some_left k,
        one_less k,
        enough,
        drop-append_length bs rest,
        take-append_length bs rest,
        Ends-test k rest h,
        read_element,
      )
      refl
  where
    some_left : (k : ℕ) → (suc k == 0) ≡ false
    some_left k = ground arith

    one_less : (k : ℕ) → suc k - 1 ≡ k
    one_less k = omega arith

    enough : leb (length bs) (length (bs ++ rest)) ≡ true
    enough = ground (arith, length-append bs rest)

bits_pos : (n : ℕ) → n < 2 ^ 31 → from_bits 32 n ≡ pos n
unfolding from_bits
bits_pos n h = ground arith

module _ ⦃C : Crates⦄ where
  pub Reads-pos : (n : ℕ) → n < 2 ^ 31 → Reads get_i32 (to_be_bytes 4 n) (pos n)
  unfolding get_i32
  Reads-pos n h = Reads-map _ (Reads-u32 n (omega arith)) (Reads-pure_eq (bits_pos n h))

  Reads-length :
      (n : ℕ) → n < 2 ^ 31 → Reads (ensure_remaining 4 >> get_i32) (to_be_bytes 4 n) (pos n)
  Reads-length n h = Reads-ensure (omega lengths) (Reads-pos n h)

  pub array_element_read :
      (bs rest : List ℕ) (k : ℕ)
      → length bs < 2 ^ 31
      → Ends k rest
      → read_array_like_element (inner (wire_element bs ++ rest) (suc k)) ≡ (ok bs, inner rest k)
  unfolding read_array_like_element with_length as_unsigned
  array_element_read bs rest k h e =
      rw
        (
          append_assoc (to_be_bytes 4 (length bs)) bs rest,
          (Reads-length (length bs) h).read (bs ++ rest),
          read_array_like_element,
          with_length,
          same,
        )
        (element_read bs rest k e)
    where
      same : length bs % 2 ^ 64 ≡ length bs
      same = omega arith

  -- The reserved word before a length.
  reserved_read :
      (more : List ℕ)
      → 4 ≤ length more
      → (ensure_remaining 8 >> get_i32) (to_be_bytes 4 0 ++ more) ≡ ok (pos 0, more)
  unfolding ◌>>◌ ensure_remaining
  reserved_read more h = rw (there, ◌>>◌, ensure_remaining) ((Reads-pos 0 (omega arith)).read more)
    where
      there : leb 8 (length (to_be_bytes 4 0 ++ more)) ≡ true
      there = ground (arith, length-append (to_be_bytes 4 0) more, length-to_be_bytes 4 0)

  pub object_element_read :
      (bs rest : List ℕ) (k : ℕ)
      → length bs < 2 ^ 31
      → Ends k rest
      → read_object_element (inner (to_be_bytes 4 0 ++ (wire_element bs ++ rest)) (suc k))
        ≡ (ok (some bs), inner rest k)
  unfolding read_object_element read_raw_object_element with_length marked some_of
  object_element_read bs rest k h e =
      rw
        (
          reserved_read (wire_element bs ++ rest) four,
          read_object_element,
          read_raw_object_element,
          append_assoc (to_be_bytes 4 (length bs)) bs rest,
          (Reads-length (length bs) h).read (bs ++ rest),
          with_length,
          marked,
          element_read bs rest k e,
          some_of,
        )
        refl
    where
      four : 4 ≤ length (wire_element bs ++ rest)
      four = omega lengths

  Reads-absent : Reads (ensure_remaining 4 >> get_i32) (to_be_bytes 4 (2 ^ 32 - 1)) (negsuc 0)
  unfolding get_i32 from_bits
  Reads-absent =
      Reads-ensure (omega lengths)
        (Reads-map _ (Reads-u32 (2 ^ 32 - 1) (omega arith)) (Reads-pure_eq refl))

  -- A missing element takes nothing from the count.
  pub missing_read :
      (rest : List ℕ) (c : ℕ)
      → read_object_element (inner (to_be_bytes 4 0 ++ (to_be_bytes 4 (2 ^ 32 - 1) ++ rest)) c)
        ≡ (ok none, inner rest c)
  unfolding read_object_element read_raw_object_element with_length marked
  missing_read rest c =
      rw
        (
          reserved_read (to_be_bytes 4 (2 ^ 32 - 1) ++ rest) four,
          read_object_element,
          read_raw_object_element,
          Reads-absent.read rest,
          with_length,
          marked,
        )
        refl
    where
      four : 4 ≤ length (to_be_bytes 4 (2 ^ 32 - 1) ++ rest)
      four = omega lengths
