-- ===== src/Codecs/ReadingParts.antt =====
-- The loops of codec.rs over the elements of a composite value, on states that allow their reads.
use Prim.Native.Nat.{bit_and}
use edgedb_rust.Base.{
  ℕ, zero, suc, ◌+◌, ◌≤◌, ◌≢◌, Bool, true, false, List, [], ◌∷◌, Option, none, some, Result, ok,
  err, panic, ok-ne-panic, err-ne-panic, length, All, arith,
}
use edgedb_rust.Base.HashMap.{◌==◌, nat_eq, list_eq}
use edgedb_rust.Wire.{DecodeError, Crates}
use edgedb_rust.Codecs.{Value, present, range, Codec}
use edgedb_rust.Codecs.Composite.{Inner, Reader}
use edgedb_rust.Codecs.Collections.{
  decode_items, decode_required, decode_tuple, decode_bound, decode_bounds, has,
}
use edgedb_rust.Codecs.Objects.{decode_slot, decode_slots}
use edgedb_rust.Codecs.Safety.{IsTotal, map_ok-ne-panic}
use edgedb_rust.Codecs.Reading.{
  CanRead, After, After-ne-panic, CanRead-computed, CanRead-and_then, CanRead-array_like,
  CanRead-object,
}

required-ne-panic : (c : Codec) (o : Option (List ℕ)) → IsTotal c → decode_required c o ≢ panic
unfolding decode_required
required-ne-panic c none h = err-ne-panic _
required-ne-panic c (some element) h = h element

slot-ne-panic : (c : Codec) (o : Option (List ℕ)) → IsTotal c → decode_slot c o ≢ panic
unfolding decode_slot
slot-ne-panic c none h = ok-ne-panic _
slot-ne-panic c (some element) h = map_ok-ne-panic present _ (h element)

-- A reader behind a header.
pub behind-ne-panic :
    {A : Type 0} (k : ℕ) (r : Reader A) (s : Inner) → CanRead k 0 r → k ≤ s.count → (r s).0 ≢ panic
behind-ne-panic k r s c h = After-ne-panic 0 (r s) (c.after s h)

CanRead-less : {A : Type 0} {n k : ℕ} {r : Reader A} → CanRead n (suc k) r → CanRead n k r
CanRead-less {A} {n} {k} {r} c = record { after = λ s h. less (r s) (c.after s h) }
  where
    less : (x : Result DecodeError A × Inner) → After (suc k) x → After k x
    less (ok a, s) h = omega arith
    less (err e, s) h = tt
    less (panic, s) h = h

module _ ⦃C : Crates⦄ where
  pub CanRead-items :
      (n : ℕ) (one : List ℕ → Result DecodeError Value)
      → ((buf : List ℕ) → one buf ≢ panic)
      → CanRead n 0 (decode_items n one)
  unfolding decode_items
  CanRead-items zero one h = CanRead-computed 0 (ok-ne-panic _)
  CanRead-items (suc n) one h = CanRead-and_then _ (CanRead-array_like n) λ element.
      CanRead-and_then _ (CanRead-computed n (h element))
        λ v. CanRead-and_then _ (CanRead-items n one h) λ vs. CanRead-computed 0 (ok-ne-panic _)

  pub CanRead-tuple : (cs : List Codec) → All IsTotal cs → CanRead (length cs) 0 (decode_tuple cs)
  unfolding decode_tuple
  CanRead-tuple [] h = CanRead-computed 0 (ok-ne-panic _)
  CanRead-tuple (c ∷ cs) (h, hs) = CanRead-and_then _ (CanRead-object (length cs)) λ element.
      CanRead-and_then _ (CanRead-computed (length cs) (required-ne-panic c element h))
        λ v. CanRead-and_then _ (CanRead-tuple cs hs) λ vs. CanRead-computed 0 (ok-ne-panic _)

  pub CanRead-slots : (cs : List Codec) → All IsTotal cs → CanRead (length cs) 0 (decode_slots cs)
  unfolding decode_slots
  CanRead-slots [] h = CanRead-computed 0 (ok-ne-panic _)
  CanRead-slots (c ∷ cs) (h, hs) = CanRead-and_then _ (CanRead-object (length cs)) λ element.
      CanRead-and_then _ (CanRead-computed (length cs) (slot-ne-panic c element h))
        λ x. CanRead-and_then _ (CanRead-slots cs hs) λ xs. CanRead-computed 0 (ok-ne-panic _)

  CanRead-bound :
      (k : ℕ) (b : Bool) (one : List ℕ → Result DecodeError Value)
      → ((buf : List ℕ) → one buf ≢ panic)
      → CanRead (suc k) k (decode_bound b one)
  unfolding decode_bound
  CanRead-bound k false one h = CanRead-less (CanRead-computed (suc k) (ok-ne-panic _))
  CanRead-bound k true one h =
      CanRead-and_then _ (CanRead-array_like k)
        λ element. CanRead-computed k (map_ok-ne-panic present _ (h element))

  pub CanRead-bounds :
      (flags : ℕ) (one : List ℕ → Result DecodeError Value)
      → ((buf : List ℕ) → one buf ≢ panic)
      → CanRead 2 0 (decode_bounds one flags)
  unfolding decode_bounds
  CanRead-bounds flags one h =
      CanRead-and_then _ (CanRead-bound 1 (bit_and flags (0x01 + 0x08) == 0) one h) λ lower.
        CanRead-and_then _ (CanRead-bound 0 (bit_and flags (0x01 + 0x10) == 0) one h) λ upper.
          CanRead-computed 0
            (ok-ne-panic (range lower upper (has 0x02 flags) (has 0x04 flags) (has 0x01 flags)))
