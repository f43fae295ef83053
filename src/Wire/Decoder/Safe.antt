-- ===== src/Wire/Decoder/Safe.antt =====
-- `Safe n m d`: on an input of `n` bytes or more `d` does not panic, and if it returns a value it
-- leaves `m` bytes or more.
use edgedb_rust.Base.{
  Bool, true, false, Bool-cases, inl, inr, if◌then◌else◌, ℕ, zero, suc, ◌+◌, ◌*◌, ◌≤◌, ◌<◌, ◌≡◌,
  refl, ◌≢◌, List, [], ◌∷◌, leb, Option, some, ok, err, panic, Result, length, take, drop,
  length-drop, length-take, take-append-drop, arith,
}
use edgedb_rust.Wire.Errors.{DecodeError}
use edgedb_rust.Wire.Bytes.{from_be_bytes}
use edgedb_rust.Wire.External.{Crates, GetsBe, Copies}
use edgedb_rust.Wire.Decoder.Tag.{tag_read}
use edgedb_rust.Wire.Decoder.{
  Decoder, pure, fail, take_or_panic, lift, ◌>>=◌, ◌>>◌, ensure_remaining, copy_remaining, repeat,
  push_decoded, assert, peek,
}

module _ {A : Type 0} where
  abbrev pub Leaves : ℕ → Result DecodeError (A × List ℕ) → Type 0
  Leaves m (ok (a, rest)) = m ≤ length rest
  Leaves m (err e) = Unit {0}
  Leaves m panic = ⊥

pub record Safe {A : Type 0} (n m : ℕ) (d : Decoder A) : Type 0 where
  pub leaves : (bs : List ℕ) → n ≤ length bs → Leaves m (d bs)

module _ {A : Type 0} where
  pub Safe-pure : (n : ℕ) (a : A) → Safe n n (pure a)
  unfolding pure
  Safe-pure n a = record { leaves = λ bs h. h }

  pub Safe-fail : (n m : ℕ) (e : DecodeError) → Safe {A = A} n m (fail e)
  unfolding fail
  Safe-fail n m e = record { leaves = λ bs h. tt }

  Leaves-lift :
      (n : ℕ) (r : Result DecodeError A) (bs : List ℕ)
      → r ≢ panic
      → n ≤ length bs
      → Leaves n (lift r bs)
  unfolding lift
  Leaves-lift n (ok a) bs p h = h
  Leaves-lift n (err e) bs p h = tt
  Leaves-lift n panic bs p h = p refl

  pub Safe-lift : (n : ℕ) {r : Result DecodeError A} → r ≢ panic → Safe n n (lift r)
  Safe-lift n {r} p = record { leaves = λ bs h. Leaves-lift n r bs p h }

  Leaves-weaken : (m k : ℕ) (r : Result DecodeError (A × List ℕ)) → k ≤ m → Leaves m r → Leaves k r
  Leaves-weaken m k (ok (a, rest)) le h = omega arith
  Leaves-weaken m k (err e) le h = tt
  Leaves-weaken m k panic le h = h

  pub Safe-weaken :
      {n m : ℕ} (n' m' : ℕ) {d : Decoder A} → n ≤ n' → m' ≤ m → Safe n m d → Safe n' m' d
  Safe-weaken {n} {m} n' m' {d} hn hm s = record {
    leaves = λ bs h. Leaves-weaken m m' (d bs) hm (s.leaves bs (omega arith));
  }

  pub Leaves-ne-panic : (r : Result DecodeError (A × List ℕ)) → Leaves 0 r → r ≢ panic
  Leaves-ne-panic (ok (a, rest)) h e = cc
  Leaves-ne-panic (err x) h e = cc
  Leaves-ne-panic panic h e = h

module _ {A B : Type 0} where
  Leaves->>= :
      {m k : ℕ} (r : Result DecodeError (A × List ℕ)) (f : A → Decoder B)
      → Leaves m r
      → ((a : A) → Safe m k (f a))
      → Leaves k (elim r [ ok (a, rest) ↦ f a rest | err e ↦ err e | panic ↦ panic ])
  Leaves->>= (ok (a, rest)) f h s = (s a).leaves rest h
  Leaves->>= (err e) f h s = tt
  Leaves->>= panic f h s = h

  pub Safe->>= :
      {n m k : ℕ} {d : Decoder A} (f : A → Decoder B)
      → Safe n m d
      → ((a : A) → Safe m k (f a))
      → Safe n k (d >>= f)
  unfolding ◌>>=◌
  Safe->>= {d} f sd sf = record { leaves = λ bs h. Leaves->>= (d bs) f (sd.leaves bs h) sf }

  pub Safe->> :
      {n m k : ℕ} {d : Decoder A} {f : Decoder B} → Safe n m d → Safe m k f → Safe n k (d >> f)
  unfolding ◌>>◌
  Safe->> {d} {f} sd sf = record {
    leaves = λ bs h. Leaves->>= (d bs) (λ _. f) (sd.leaves bs h) (λ _. sf);
  }

-- A length check makes the rest safe that needs no more than it asks for.
pub Safe-ensure : (n k : ℕ) → Safe n k (ensure_remaining k)
unfolding ensure_remaining
Safe-ensure n k = record { leaves = λ bs h. ground arith }

-- A length check that asks for no more than is known to be there keeps it.
pub Safe-ensure_within : (n k : ℕ) → Safe n n (ensure_remaining k)
unfolding ensure_remaining
Safe-ensure_within n k = record { leaves = λ bs h. ground arith }

pub Safe-be :
    (width m : ℕ) (get : List ℕ → Option (ℕ × List ℕ))
    → GetsBe width get
    → Safe (width + m) m (take_or_panic get)
unfolding take_or_panic
Safe-be width m get law = record {
  leaves = λ bs h.
      rw (read bs (omega (arith, length-take width bs))) (omega (arith, length-drop width bs));
}
  where
    read :
        (bs : List ℕ)
        → length (take width bs) ≡ width
        → get bs ≡ some (from_be_bytes (take width bs), drop width bs)
    read bs e = rw (take-append-drop width bs) at (law.0 (take width bs) (drop width bs) e)

pub Safe-copy :
    (n m : ℕ) (copy : ℕ → List ℕ → Option (List ℕ × List ℕ))
    → Copies copy
    → Safe (n + m) m (take_or_panic (copy n))
unfolding take_or_panic
Safe-copy n m copy law = record {
  leaves = λ bs h. rw (law.0 n bs (omega arith)) (omega (arith, length-drop n bs));
}

pub Safe-repeat :
    {A : Type 0} (n : ℕ) (body : A → Decoder A) (a : A)
    → ((a : A) → Safe 0 0 (body a))
    → Safe 0 0 (repeat n body a)
unfolding repeat
Safe-repeat zero body a s = Safe-pure 0 a
Safe-repeat (suc n) body a s = Safe->>= _ (s a) (λ b. Safe-repeat n body b s)

module _ ⦃C : Crates⦄ where
  pub Safe-u8 : (m : ℕ) → Safe (1 + m) m (take_or_panic C.get_u8)
  Safe-u8 m = Safe-be 1 m C.get_u8 C.get_u8-GetsBe

  pub Safe-u16 : (m : ℕ) → Safe (2 + m) m (take_or_panic C.get_u16)
  Safe-u16 m = Safe-be 2 m C.get_u16 C.get_u16-GetsBe

  pub Safe-u32 : (m : ℕ) → Safe (4 + m) m (take_or_panic C.get_u32)
  Safe-u32 m = Safe-be 4 m C.get_u32 C.get_u32-GetsBe

  pub Safe-u64 : (m : ℕ) → Safe (8 + m) m (take_or_panic C.get_u64)
  Safe-u64 m = Safe-be 8 m C.get_u64 C.get_u64-GetsBe

  pub Safe-copy_remaining : Safe 0 0 copy_remaining
  unfolding copy_remaining take_or_panic
  Safe-copy_remaining = record {
    leaves = λ bs h. rw (C.copy_to_bytes-Copies.0 (length bs) bs (omega arith)) (omega arith);
  }

pub Safe-copy_all :
    (n : ℕ) (copy : ℕ → List ℕ → Option (List ℕ × List ℕ))
    → Copies copy
    → Safe n 0 (take_or_panic (copy n))
Safe-copy_all n copy law = Safe-weaken n 0 (omega arith) (omega arith) (Safe-copy n 0 copy law)

-- A loop whose rounds take `k` bytes each.
pub Safe-repeat_exact :
    {A : Type 0} (k n : ℕ) (body : A → Decoder A) (a : A)
    → ((m : ℕ) (a : A) → Safe (k + m) m (body a))
    → Safe (k * n) 0 (repeat n body a)
unfolding repeat
Safe-repeat_exact k zero body a s = Safe-weaken _ 0 (omega arith) (omega arith) (Safe-pure 0 a)
Safe-repeat_exact k (suc n) body a s =
    Safe-weaken _ 0 (grind arith) (omega arith)
      (Safe->>= _ (s (k * n) a) (λ b. Safe-repeat_exact k n body b s))

-- A test whose outcome each branch may use.
pub if-Safe :
    {A : Type 0} {n m : ℕ} (b : Bool) {d e : Decoder A}
    → (b ≡ true → Safe n m d)
    → (b ≡ false → Safe n m e)
    → Safe n m (if b then d else e)
if-Safe true sd se = sd refl
if-Safe false sd se = se refl

pub Safe-pushed :
    {A : Type 0} (d : Decoder A) (n : ℕ) → Safe 0 0 d → Safe 0 0 (repeat n (push_decoded d) [])
unfolding push_decoded
Safe-pushed d n s = Safe-repeat n _ _ λ items. Safe->>= _ s λ item. Safe-pure 0 _

module _ ⦃C : Crates⦄ {A : Type 0} where
  -- The test of a tag that a look at the first byte has chosen.
  pub Leaves-tag :
      (t : ℕ) (test : ℕ → Bool) (f : ℕ → Decoder A)
      → test t ≡ true
      → Safe 0 0 (f t)
      → (bs : List ℕ) → Leaves 0 ((take_or_panic C.get_u8 >>= λ k. assert (test k) >> f k) (t ∷ bs))
  unfolding ◌>>◌ ◌>>=◌ take_or_panic assert
  Leaves-tag t test f e s bs =
      rw (tag_read t bs, ◌>>=◌, e, ◌>>◌, assert) (s.leaves bs (omega arith))

  -- The same behind a length check.
  pub Safe-tag :
      (n m t : ℕ) (test : ℕ → Bool) (f : ℕ → Decoder A)
      → test t ≡ true
      → m < n
      → Safe m 0 (f t)
      → (bs : List ℕ)
      → Leaves 0 (
          (ensure_remaining n >> (take_or_panic C.get_u8 >>= λ k. assert (test k) >> f k)) (t ∷ bs))
  unfolding ensure_remaining ◌>>◌ ◌>>=◌ take_or_panic assert from_be_bytes
  Safe-tag n m t test f e le s bs = elim (Bool-cases (leb n (length (t ∷ bs)))) [
    | inl long ↦ rw (long, ◌>>◌, tag_read t bs, ◌>>=◌, e, ◌>>◌, assert) (s.leaves bs (ground arith))
    | inr short ↦ rw (short, ◌>>◌) tt
  ]

  pub Leaves-peek :
      (f : ℕ → Decoder A) (b : ℕ) (bs : List ℕ)
      → Leaves 0 (f b (b ∷ bs))
      → Leaves 0 ((peek >>= f) (b ∷ bs))
  unfolding peek ◌>>=◌
  Leaves-peek f b bs h = rw ((C.chunk-cons b bs).1, ◌>>=◌, peek) h

pub if-Leaves :
    {A : Type 0} (b : Bool) (d e : Decoder A) (bs : List ℕ)
    → (b ≡ true → Leaves 0 (d bs))
    → (b ≡ false → Leaves 0 (e bs))
    → Leaves 0 ((if b then d else e) bs)
if-Leaves true d e bs hd he = hd refl
if-Leaves false d e bs hd he = he refl

pub Safe-pushed_exact :
    {A : Type 0} (k n : ℕ) (d : Decoder A)
    → ((m : ℕ) → Safe (k + m) m d)
    → Safe (k * n) 0 (repeat n (push_decoded d) [])
unfolding push_decoded
Safe-pushed_exact k n d s =
    Safe-repeat_exact k n _ _ λ m items. Safe->>= _ (s m) λ item. Safe-pure m _
