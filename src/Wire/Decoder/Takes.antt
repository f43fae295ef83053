-- ===== src/Wire/Decoder/Takes.antt =====
-- `Takes n d`: where `d` returns a value, it has taken `n` bytes or more from its input.
use edgedb_rust.Base.{
  Bool, true, false, if◌then◌else◌, ℕ, zero, suc, ◌+◌, ◌≤◌, ◌≡◌, List, [], Option, none, some, ok,
  err, panic, Result, length, drop, take, length-drop, length-take, take-append-drop, arith,
  get_elem?, leb, Bool-cases, inl, inr,
}
use edgedb_rust.Wire.Errors.{DecodeError}
use edgedb_rust.Wire.External.{Crates, GetsBe, Copies}
use edgedb_rust.Wire.Bytes.{from_be_bytes}
use edgedb_rust.Wire.Decoder.{
  Decoder, pure, fail, take_or_panic, lift, ◌>>=◌, ◌>>◌, ensure_remaining, repeat, push_decoded,
  assert, peek,
}

module _ {A : Type 0} where
  abbrev pub Within : ℕ → List ℕ → Result DecodeError (A × List ℕ) → Type 0
  Within n bs (ok (a, rest)) = n + length rest ≤ length bs
  Within n bs (err e) = Unit {0}
  Within n bs panic = Unit {0}

pub record Takes {A : Type 0} (n : ℕ) (d : Decoder A) : Type 0 where
  pub takes : (bs : List ℕ) → Within n bs (d bs)

module _ {A : Type 0} where
  pub Takes-pure : (a : A) → Takes 0 (pure a)
  unfolding pure
  Takes-pure a = record { takes = λ bs. omega arith }

  pub Takes-fail : (n : ℕ) (e : DecodeError) → Takes {A = A} n (fail e)
  unfolding fail
  Takes-fail n e = record { takes = λ bs. tt }

  Within-lift : (r : Result DecodeError A) (bs : List ℕ) → Within 0 bs (lift r bs)
  unfolding lift
  Within-lift (ok a) bs = omega arith
  Within-lift (err e) bs = tt
  Within-lift panic bs = tt

  pub Takes-lift : (r : Result DecodeError A) → Takes 0 (lift r)
  Takes-lift r = record { takes = λ bs. Within-lift r bs }

module _ {B : Type 0} where
  Within-weaken :
      (n m : ℕ) (bs rest : List ℕ) (r : Result DecodeError (B × List ℕ))
      → n + length rest ≤ length bs
      → Within m rest r
      → Within (n + m) bs r
  Within-weaken n m bs rest (ok (a, left)) h w = omega arith
  Within-weaken n m bs rest (err e) h w = tt
  Within-weaken n m bs rest panic h w = tt

module _ {A B : Type 0} where
  Within->>= :
      (n m : ℕ) (bs : List ℕ) (r : Result DecodeError (A × List ℕ)) (f : A → Decoder B)
      → Within n bs r
      → ((a : A) → Takes m (f a))
      → Within (n + m) bs (elim r [ ok (a, rest) ↦ f a rest | err e ↦ err e | panic ↦ panic ])
  Within->>= n m bs (ok (a, rest)) f h s = Within-weaken n m bs rest (f a rest) h ((s a).takes rest)
  Within->>= n m bs (err e) f h s = tt
  Within->>= n m bs panic f h s = tt

  pub Takes->>= :
      {n m : ℕ} {d : Decoder A} (f : A → Decoder B)
      → Takes n d
      → ((a : A) → Takes m (f a))
      → Takes (n + m) (d >>= f)
  unfolding ◌>>=◌
  Takes->>= {d} f sd sf = record { takes = λ bs. Within->>= _ _ bs (d bs) f (sd.takes bs) sf }

  pub Takes->> :
      {n m : ℕ} {d : Decoder A} {f : Decoder B} → Takes n d → Takes m f → Takes (n + m) (d >> f)
  unfolding ◌>>◌
  Takes->> {d} {f} sd sf = record {
    takes = λ bs. Within->>= _ _ bs (d bs) (λ _. f) (sd.takes bs) (λ _. sf);
  }

pub Takes-ensure : (n : ℕ) → Takes 0 (ensure_remaining n)
unfolding ensure_remaining
Takes-ensure n = record { takes = λ bs. ground arith }

pub Takes-assert : (b : Bool) → Takes 0 (assert b)
unfolding assert
Takes-assert true = record { takes = λ bs. omega arith }
Takes-assert false = record { takes = λ bs. tt }

pub if-Takes :
    {A : Type 0} {n : ℕ} (b : Bool) {d e : Decoder A}
    → Takes n d
    → Takes n e
    → Takes n (if b then d else e)
if-Takes true sd se = sd
if-Takes false sd se = se

pub Takes-be :
    (width : ℕ) (get : List ℕ → Option (ℕ × List ℕ))
    → GetsBe width get
    → Takes width (take_or_panic get)
unfolding take_or_panic
Takes-be width get law = record {
  takes = λ bs. elim (Bool-cases (leb width (length bs))) [
    | inl long ↦
        rw (read bs (ground (arith, length-take width bs))) (ground (arith, length-drop width bs))
    | inr short ↦ rw (law.1 bs (ground arith)) tt
  ];
}
  where
    read :
        (bs : List ℕ)
        → length (take width bs) ≡ width
        → get bs ≡ some (from_be_bytes (take width bs), drop width bs)
    read bs e = rw (take-append-drop width bs) at (law.0 (take width bs) (drop width bs) e)

pub Takes-copy :
    (n : ℕ) (copy : ℕ → List ℕ → Option (List ℕ × List ℕ))
    → Copies copy
    → Takes n (take_or_panic (copy n))
unfolding take_or_panic
Takes-copy n copy law = record {
  takes = λ bs. elim (Bool-cases (leb n (length bs))) [
    | inl long ↦ rw (law.0 n bs (ground arith)) (ground (arith, length-drop n bs))
    | inr short ↦ rw (law.1 n bs (ground arith)) tt
  ];
}

pub Takes-weaken : {A : Type 0} (n : ℕ) {d : Decoder A} → Takes n d → Takes 0 d
Takes-weaken n {d} s = record { takes = λ bs. weaker bs (d bs) (s.takes bs) }
  where
    weaker :
        {A : Type 0} (bs : List ℕ) (r : Result DecodeError (A × List ℕ))
        → Within n bs r
        → Within 0 bs r
    weaker bs (ok (a, rest)) h = omega arith
    weaker bs (err e) h = tt
    weaker bs panic h = tt

pub Takes-repeat :
    {A : Type 0} (n : ℕ) (body : A → Decoder A) (a : A)
    → ((a : A) → Takes 0 (body a))
    → Takes 0 (repeat n body a)
unfolding repeat
Takes-repeat zero body a s = Takes-pure a
Takes-repeat (suc n) body a s = Takes->>= _ (s a) (λ b. Takes-repeat n body b s)

pub Takes-pushed :
    {A : Type 0} (d : Decoder A) (n : ℕ) → Takes 0 d → Takes 0 (repeat n (push_decoded d) [])
unfolding push_decoded
Takes-pushed d n s = Takes-repeat n _ _ λ items. Takes->>= _ s λ item. Takes-pure _

pub Takes-peek : ⦃C : Crates⦄ → Takes 0 peek
unfolding peek
Takes-peek ⦃C⦄ = record { takes = λ bs. seen bs (get_elem? (C.chunk bs) 0) }
  where
    seen :
        (bs : List ℕ) (o : Option ℕ) → Within 0 bs (elim o [ none ↦ panic | some b ↦ ok (b, bs) ])
    seen bs none = tt
    seen bs (some b) = omega arith
