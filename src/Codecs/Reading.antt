-- ===== src/Codecs/Reading.antt =====
-- The readers of raw_composite.rs on any bytes, with a number of elements left to read.
use edgedb_rust.Base.{
  ℕ, suc, ◌-◌, ◌≤◌, ◌≡◌, refl, ◌≢◌, false, Bool-cases, inl, inr, ltb, leb, ◌||◌, List, Option,
  Result, ok, err, panic, length, drop, arith,
}
use edgedb_rust.Base.HashMap.{◌==◌, nat_eq}
use edgedb_rust.Wire.{DecodeError, Crates}
use edgedb_rust.Wire.Decoder.{ensure_remaining, ◌>>◌}
use edgedb_rust.Wire.Decoder.Safe.{Safe, Leaves, Safe->>, Safe-weaken, Safe-ensure}
use edgedb_rust.Time.Int.{ℤ, pos, negsuc}
use edgedb_rust.Codecs.Raw.{get_i32}
use edgedb_rust.Codecs.Safety.{Safe-i32}
use edgedb_rust.Codecs.Composite.{
  Inner, Reader, and_then, computed, underflowed, read_element, with_length, some_of, marked,
  read_raw_object_element, read_object_element, read_array_like_element,
}

module _ {A : Type 0} where
  abbrev pub After : ℕ → Result DecodeError A × Inner → Type 0
  After k (ok a, s) = k ≤ s.count
  After k (err e, s) = Unit {0}
  After k (panic, s) = ⊥

-- With `n` elements left the read does not panic, and if it succeeds `k` are left.
pub record CanRead {A : Type 0} (n k : ℕ) (r : Reader A) : Type 0 where
  pub after : (s : Inner) → n ≤ s.count → After k (r s)

module _ {A : Type 0} where
  After-computed :
      (k : ℕ) (r : Result DecodeError A) (s : Inner) → r ≢ panic → k ≤ s.count → After k (r, s)
  After-computed k (ok a) s p h = h
  After-computed k (err e) s p h = tt
  After-computed k panic s p h = p refl

  pub CanRead-computed : (k : ℕ) {r : Result DecodeError A} → r ≢ panic → CanRead k k (computed r)
  unfolding computed
  CanRead-computed k {r} p = record { after = λ s h. After-computed k r s p h }

  pub After-ne-panic : (k : ℕ) (x : Result DecodeError A × Inner) → After k x → x.0 ≢ panic
  After-ne-panic k (ok a, s) h e = cc
  After-ne-panic k (err x, s) h e = cc
  After-ne-panic k (panic, s) h e = h

module _ {A B : Type 0} where
  After-and_then :
      {m k : ℕ} (x : Result DecodeError A × Inner) (f : A → Reader B)
      → After m x
      → ((a : A) → CanRead m k (f a))
      → After {A = B} k (elim x.0 [ ok a ↦ f a x.1 | err e ↦ (err e, x.1) | panic ↦ (panic, x.1) ])
  After-and_then (ok a, s) f h r = (r a).after s h
  After-and_then (err e, s) f h r = tt
  After-and_then (panic, s) f h r = h

  pub CanRead-and_then :
      {n m k : ℕ} {r : Reader A} (f : A → Reader B)
      → CanRead n m r
      → ((a : A) → CanRead m k (f a))
      → CanRead n k (and_then r f)
  unfolding and_then
  CanRead-and_then {r} f c d = record { after = λ s h. After-and_then (r s) f (c.after s h) d }

some_left : (k : ℕ) (s : Inner) → suc k ≤ s.count → (s.count == 0) ≡ false
some_left k s h = ground arith

CanRead-element : (k position : ℕ) → CanRead (suc k) k (read_element position)
unfolding read_element
CanRead-element k position = record { after = λ s h. reads s h }
  where
    reads : (s : Inner) → suc k ≤ s.count → After k (read_element position s)
    reads s h = elim (Bool-cases (leb position (length s.raw))) [
      | inr short ↦ rw (some_left k s h, short, read_element, After) tt
      | inl long ↦ elim (Bool-cases (ltb 0 (s.count - 1) || length (drop position s.raw) == 0)) [
        | inl fits ↦ rw (some_left k s h, long, fits, read_element, After) (omega arith)
        | inr extra ↦ rw (some_left k s h, long, extra, read_element, After) tt
      ]
    ]

module _ ⦃C : Crates⦄ where
  CanRead-with_length :
      {A : Type 0} {n k : ℕ} (f : ℤ → Reader A)
      → ((len : ℤ) → CanRead n k (f len))
      → CanRead n k (with_length f)
  unfolding with_length
  CanRead-with_length {A} {n} {k} f r = record {
    after = λ s h.
        go s h ((ensure_remaining 4 >> get_i32) s.raw) (length_Safe.leaves s.raw (omega arith));
  }
    where
      length_Safe : Safe 0 0 (ensure_remaining 4 >> get_i32)
      length_Safe = Safe->> (Safe-ensure 0 4) (Safe-i32 0)

      go :
          (s : Inner)
          → n ≤ s.count
          → (x : Result DecodeError (ℤ × List ℕ)) → Leaves 0 x
          → After {A = A} k (elim x [
            | ok (len, rest) ↦ f len (record { raw = rest; count = s.count })
            | err e ↦ (err e, underflowed s)
            | panic ↦ (panic, s)
          ])
      go s h (ok (len, rest)) l = (r len).after (record { raw = rest; count = s.count }) h
      go s h (err e) l = tt
      go s h panic l = l

  pub CanRead-array_like : (k : ℕ) → CanRead (suc k) k read_array_like_element
  unfolding read_array_like_element
  CanRead-array_like k = CanRead-with_length _ λ len. CanRead-element k _

  CanRead-marked : (k : ℕ) (len : ℤ) → CanRead (suc k) k (marked len)
  unfolding marked some_of
  CanRead-marked k (pos n) = record {
    after = λ s h. found (read_element n s) ((CanRead-element k n).after s h);
  }
    where
      found : (x : Result DecodeError (List ℕ) × Inner) → After k x → After k (some_of x)
      found (ok bs, s) h = h
      found (err e, s) h = tt
      found (panic, s) h = h
  CanRead-marked k (negsuc n) = record {
    after = λ s h. elim (Bool-cases (n == 0)) [
      | inl no_value ↦ rw (no_value, marked, After) (omega arith)
      | inr invalid ↦ rw (invalid, marked, After) tt
    ];
  }

  CanRead-raw_object : (k : ℕ) → CanRead (suc k) k read_raw_object_element
  unfolding read_raw_object_element
  CanRead-raw_object k = CanRead-with_length marked (CanRead-marked k)

  pub CanRead-object : (k : ℕ) → CanRead (suc k) k read_object_element
  unfolding read_object_element
  CanRead-object k = record {
    after = λ s h.
        go s h ((ensure_remaining 8 >> get_i32) s.raw) (reserved_Safe.leaves s.raw (omega arith));
  }
    where
      reserved_Safe : Safe 0 0 (ensure_remaining 8 >> get_i32)
      reserved_Safe =
          Safe->> (Safe-ensure 0 8) (Safe-weaken 8 0 (omega arith) (omega arith) (Safe-i32 4))

      go :
          (s : Inner)
          → suc k ≤ s.count
          → (x : Result DecodeError (ℤ × List ℕ)) → Leaves 0 x
          → After {A = Option (List ℕ)} k (elim x [
            | ok (reserved, rest) ↦ read_raw_object_element (record { raw = rest; count = s.count })
            | err e ↦ (err e, underflowed s)
            | panic ↦ (panic, s)
          ])
      go s h (ok (reserved, rest)) l =
          (CanRead-raw_object k).after (record { raw = rest; count = s.count }) h
      go s h (err e) l = tt
      go s h panic l = l
