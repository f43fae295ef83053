-- ===== src/Wire/Decoder/Stops.antt =====
-- The inputs on which a decoder panics, and on which it reports that there are too few bytes.
use edgedb_rust.Base.{
  ℕ, ◌≤◌, ◌<◌, ◌≡◌, refl, List, [], ◌++◌, err, panic, true, false, leb, length, arith,
}
use edgedb_rust.Wire.Errors.{underflow}
use edgedb_rust.Wire.External.{Crates}
use edgedb_rust.Wire.Decoder.{Decoder, take_or_panic, ensure_remaining, ◌>>=◌, ◌>>◌}
use edgedb_rust.Wire.Decoder.Reads.{Reads}

module _ {A : Type 0} where
  pub record Panics (d : Decoder A) (bs : List ℕ) : Type 0 where
    pub panics : d bs ≡ panic

  pub record Underflows (d : Decoder A) (bs : List ℕ) : Type 0 where
    pub underflows : d bs ≡ err underflow

module _ {A B : Type 0} where
  pub Panics-first :
      {d : Decoder A} (f : A → Decoder B) {bs : List ℕ} → Panics d bs → Panics (d >>= f) bs
  unfolding ◌>>=◌
  Panics-first f p = record { panics = rw (p.panics, ◌>>=◌) }

  pub Panics-then :
      {d : Decoder A} (f : A → Decoder B) (bs : List ℕ) {cs : List ℕ} {a : A}
      → Reads d bs a
      → Panics (f a) cs
      → Panics (d >>= f) (bs ++ cs)
  unfolding ◌>>=◌
  Panics-then f bs {cs} r p = record { panics = rw (r.read cs, ◌>>=◌) p.panics }

module _ {B : Type 0} where
  pub Panics-ensure :
      {n : ℕ} {d : Decoder B} {bs : List ℕ}
      → n ≤ length bs
      → Panics d bs
      → Panics (ensure_remaining n >> d) bs
  unfolding ensure_remaining ◌>>◌
  Panics-ensure {n} {d} {bs} h p = record { panics = rw (enough, ◌>>◌) p.panics }
    where
      enough : leb n (length bs) ≡ true
      enough = ground arith

  -- A check for more bytes than there are.
  pub Underflows-ensure :
      {n : ℕ} (d : Decoder B) {bs : List ℕ}
      → length bs < n
      → Underflows (ensure_remaining n >> d) bs
  unfolding ensure_remaining ◌>>◌
  Underflows-ensure {n} d {bs} h = record { underflows = rw (short, ◌>>◌) refl }
    where
      short : leb n (length bs) ≡ false
      short = ground arith

module _ ⦃C : Crates⦄ where
  pub Panics-u16 : (bs : List ℕ) → length bs < 2 → Panics (take_or_panic C.get_u16) bs
  unfolding take_or_panic
  Panics-u16 bs h = record { panics = rw (C.get_u16-GetsBe.1 bs h) }

  pub Panics-u8 : Panics (take_or_panic C.get_u8) []
  unfolding take_or_panic
  Panics-u8 = record { panics = rw (C.get_u8-GetsBe.1 [] (omega arith)) }

  pub Panics-u64 : (bs : List ℕ) → length bs < 8 → Panics (take_or_panic C.get_u64) bs
  unfolding take_or_panic
  Panics-u64 bs h = record { panics = rw (C.get_u64-GetsBe.1 bs h) }
