-- ===== src/Codecs/RangeRoundTrip.antt =====
-- The codecs of ranges and enumerations in codec.rs on the bytes that they have written.
use Prim.Native.Nat.{bit_and}
use edgedb_rust.Base.{
  ℕ, zero, suc, ◌+◌, ◌^◌, ◌<◌, ◌≡◌, refl, sym, Bool, true, false, not, if◌then◌else◌, List, [],
  ◌++◌, append-nil, Result, ok, map_ok, length, arith,
}
use edgedb_rust.Base.HashMap.{◌==◌, nat_eq, list_eq}
use edgedb_rust.Wire.{DecodeError, to_be_bytes, Crates}
use edgedb_rust.Wire.Decoder
use edgedb_rust.Wire.Decoder.{ensure_remaining, take_or_panic}
use edgedb_rust.Wire.Decoder.Reads.{Reads-u8, Reads-ensure}
use edgedb_rust.Wire.Encoder.Writes.{Writes-done, Writes->>, Writes-u8, Writes-extend}
use edgedb_rust.Wire.Encoding.RoundTrip.{lengths}
use edgedb_rust.Codecs.{Value, range, enum, Codec, Slot, missing, present}
use edgedb_rust.Codecs.Composite.{
  Inner, Reader, and_then, computed, read_array_like_element, new_range,
}
use edgedb_rust.Codecs.Collections.{
  has, is_missing, range_flags, decode_bound, decode_bounds, decode_range, encode_bound,
  encode_range_value, range_codec, contains, decode_member, encode_enum_value, enum_codec,
}
use edgedb_rust.Codecs.Appends.{
  IsSlot, Appends, Appends-Writes, Appends-refuse, Appends-if, Appends->>, Appends-behind,
  Appends-put_element,
}
use edgedb_rust.Codecs.ScalarRoundTrip.{RoundTrips, text_read}
use edgedb_rust.Codecs.ReadingBack.{inner, wire_element, Ends, array_element_read}

-- The flags of a range that is not empty.
unfoldable flags_of : (inc_lower inc_upper no_lower no_upper : Bool) → ℕ
flags_of inc_lower inc_upper no_lower no_upper =
    (if inc_lower then 0x02 else 0)
    + (if inc_upper then 0x04 else 0)
    + (if no_lower then 0x08 else 0)
    + (if no_upper then 0x10 else 0)

-- What the flags tell.
abbrev Flags : (inc_lower inc_upper no_lower no_upper : Bool) → (flags : ℕ) → Type 0
Flags inc_lower inc_upper no_lower no_upper flags =
    ((bit_and flags (0x01 + 0x08) == 0) ≡ not no_lower)
    × ((bit_and flags (0x01 + 0x10) == 0) ≡ not no_upper)
    × (has 0x02 flags ≡ inc_lower)
    × (has 0x04 flags ≡ inc_upper)
    × (has 0x01 flags ≡ false)
    × (flags < 2 ^ 8)

flags_of-Flags : (a b c d : Bool) → Flags a b c d (flags_of a b c d)
unfolding flags_of has
flags_of-Flags true true true true = (refl, refl, refl, refl, refl, omega arith)
flags_of-Flags true true true false = (refl, refl, refl, refl, refl, omega arith)
flags_of-Flags true true false true = (refl, refl, refl, refl, refl, omega arith)
flags_of-Flags true true false false = (refl, refl, refl, refl, refl, omega arith)
flags_of-Flags true false true true = (refl, refl, refl, refl, refl, omega arith)
flags_of-Flags true false true false = (refl, refl, refl, refl, refl, omega arith)
flags_of-Flags true false false true = (refl, refl, refl, refl, refl, omega arith)
flags_of-Flags true false false false = (refl, refl, refl, refl, refl, omega arith)
flags_of-Flags false true true true = (refl, refl, refl, refl, refl, omega arith)
flags_of-Flags false true true false = (refl, refl, refl, refl, refl, omega arith)
flags_of-Flags false true false true = (refl, refl, refl, refl, refl, omega arith)
flags_of-Flags false true false false = (refl, refl, refl, refl, refl, omega arith)
flags_of-Flags false false true true = (refl, refl, refl, refl, refl, omega arith)
flags_of-Flags false false true false = (refl, refl, refl, refl, refl, omega arith)
flags_of-Flags false false false true = (refl, refl, refl, refl, refl, omega arith)
flags_of-Flags false false false false = (refl, refl, refl, refl, refl, omega arith)

-- The count behind a bound: only a bound that is there is counted.
abbrev left : Slot → ℕ → ℕ
left missing k = suc k
left (present v) k = k

two_reads :
    {A B D : Type 0} (r : Reader A) (t : Reader B) (f : A → B → D) (s s1 s2 : Inner) (a : A) (b : B)
    → r s ≡ (ok a, s1)
    → t s1 ≡ (ok b, s2)
    → (and_then r (λ x. and_then t λ y. computed (ok (f x y))) s).0 ≡ ok (f a b)
unfolding and_then computed
two_reads r t f s s1 s2 a b h k = rw (and_then, h, and_then, h, k) refl

bound_there :
    {E : Type 0} (r : Reader E) (one : E → Result DecodeError Value) (s s' : Inner) (e : E)
    (v : Value)
    → r s ≡ (ok e, s')
    → one e ≡ ok v
    → and_then r (λ x. computed (map_ok present (one x))) s ≡ (ok (present v), s')
unfolding and_then computed
bound_there r one s s' e v h k = rw (and_then, h, computed, k, h) refl

module _ ⦃C : Crates⦄ where
  -- The bytes of a bound.
  abbrev ReadBound : Codec → Slot → List ℕ → Type 0
  ReadBound c x bs =
      length bs < 2 ^ 31
      → (k : ℕ) (rest : List ℕ) → Ends k rest
      → decode_bound (not (is_missing x)) c.decode (inner (bs ++ rest) (suc k))
        ≡ (ok x, inner rest (left x k))

  bound_RoundTrip :
      (c : Codec)
      → RoundTrips c
      → (x : Slot) → IsSlot x
      → Appends (encode_bound c.encode x) (ReadBound c x)
  unfolding encode_bound is_missing decode_bound computed and_then
  bound_RoundTrip c h missing k = Appends-Writes _ Writes-done λ _ _ _ _. refl
  bound_RoundTrip c h (present v) k =
      Appends-put_element (2 ^ 32) _ _ (h v k) λ bs q _ short n rest e.
        let b : length bs < 2 ^ 31 = omega (lengths, short) in
        bound_there read_array_like_element c.decode (inner (wire_element bs ++ rest) (suc n))
          (inner rest n) bs v (array_element_read bs rest n b e) (q b)

  bounds_read :
      (c : Codec) (lower upper : Slot) (inc_lower inc_upper : Bool) (flags : ℕ) (bs cs : List ℕ)
      → Flags inc_lower inc_upper (is_missing lower) (is_missing upper) flags
      → ReadBound c lower bs
      → ReadBound c upper cs
      → length (bs ++ cs) < 2 ^ 31
      → (decode_bounds c.decode flags (inner (bs ++ cs) 2)).0
        ≡ ok (range lower upper inc_lower inc_upper false)
  unfolding decode_bounds
  bounds_read c lower upper inc_lower inc_upper flags bs cs (f1, f2, f3, f4, f5, f6) h k short =
      let one_left : left lower 1 ≡ suc (left lower 0) = counted lower in
      let j : ℕ = left lower 0 in
      let last = k (omega (lengths, short)) j [] (ends j) in
      rw (decode_bounds, f1, f2, f3, f4, f5)
        (two_reads (decode_bound (not (is_missing lower)) c.decode)
          (decode_bound (not (is_missing upper)) c.decode)
          (λ x y. range x y inc_lower inc_upper false) (inner (bs ++ cs) 2)
          (inner cs (left lower 1)) (inner [] (left upper j)) lower upper
          (h (omega (lengths, short)) 1 cs tt) (rw (append-nil cs, sym one_left) at last))
    where
      counted : (x : Slot) → left x 1 ≡ suc (left x 0)
      counted missing = refl
      counted (present v) = refl

      ends : (k : ℕ) → Ends k []
      ends zero = refl
      ends (suc k) = tt

  flags_read :
      (flags : ℕ) (rest : List ℕ)
      → flags < 2 ^ 8
      → Decoder.◌>>◌ (ensure_remaining 1) (take_or_panic C.get_u8) (to_be_bytes 1 flags ++ rest)
        ≡ ok (flags, rest)
  flags_read flags rest h = (Reads-ensure (omega lengths) (Reads-u8 flags h)).read rest

  pub range_codec-RoundTrips : (c : Codec) → RoundTrips c → RoundTrips (range_codec c)
  unfolding range_codec encode_range_value decode_range new_range range_flags flags_of is_missing
      encode_bound decode_bounds decode_bound has and_then computed
  range_codec-RoundTrips c h (range lower upper inc_lower inc_upper false) (l, u, _) =
      let flags : ℕ = flags_of inc_lower inc_upper (is_missing lower) (is_missing upper) in
      let F : Flags inc_lower inc_upper (is_missing lower) (is_missing upper) flags =
        flags_of-Flags _ _ _ _ in
      let (f1, f2, f3, f4, f5, byte) = F in
      Appends-behind
        (λ bs.
          length bs < 2 ^ 31
          → (decode_bounds c.decode flags (inner bs 2)).0
            ≡ ok (range lower upper inc_lower inc_upper false))
        _ (Writes-u8 flags)
        (Appends->> (ReadBound c lower) (ReadBound c upper) _ (bound_RoundTrip c h lower l)
          (bound_RoundTrip c h upper u)
          λ bs cs r t. bounds_read c lower upper inc_lower inc_upper flags bs cs F r t)
        λ bs r short.
          rw (flags_read flags bs byte, decode_range, new_range) (r (omega (lengths, short)))
  range_codec-RoundTrips c h (range missing missing false false true) k =
      Appends-Writes _ (Writes->> (Writes-u8 1) (Writes->> Writes-done Writes-done))
        λ _. rw (flags_read 1 [] (omega arith), decode_range) refl
  range_codec-RoundTrips c h (range missing missing false true true) (l, u, e) = absurd e
  range_codec-RoundTrips c h (range missing missing true iu true) (l, u, e) = absurd e
  range_codec-RoundTrips c h (range missing (present v) il iu true) (l, u, e) = absurd e
  range_codec-RoundTrips c h (range (present v) upper il iu true) (l, u, e) = absurd e
  range_codec-RoundTrips c h _ k = Appends-refuse _ _

  pub enum_codec-RoundTrips : (members : List (List ℕ)) → RoundTrips (enum_codec members)
  unfolding enum_codec encode_enum_value decode_member
  enum_codec-RoundTrips members (enum name) k = Appends-if (contains members name) _ _ λ there.
      Appends-Writes _ (Writes-extend name) λ _. rw (text_read name k, there, decode_member) refl
  enum_codec-RoundTrips members _ k = Appends-refuse _ _
