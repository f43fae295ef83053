-- ===== src/Wire/Decoder.antt =====
-- A decoder takes what it reads from the front of an `Input`. The version that an `Input` carries
-- changes nowhere, and is an argument of the decoders that ask for it.
pub mod Reads
pub mod Safe
pub mod Stops
mod Tag
pub mod Takes
use edgedb_rust.Base.{
  ℕ, zero, suc, Bool, List, [], ◌∷◌, ◌++◌, Option, none, some, Result, ok, err, panic, or_panic,
  leb, length, get_elem?, if◌then◌else◌,
}
use edgedb_rust.Wire.Errors.{DecodeError, underflow}
use edgedb_rust.Wire.External.{Crates}

abbrev pub Decoder : Type 0 → Type 0
Decoder A = List ℕ → Result DecodeError (A × List ℕ)

module _ {A : Type 0} where
  unfoldable pub pure : A → Decoder A
  pure a bs = ok (a, bs)

  unfoldable pub fail : DecodeError → Decoder A
  fail e bs = err e

  -- A call that has a result or panics.
  unfoldable pub take_or_panic : (List ℕ → Option (A × List ℕ)) → Decoder A
  take_or_panic f bs = or_panic (f bs)

  -- `f(x).context(e)?` and the like: a value that may be missing.
  unfoldable pub lift : Result DecodeError A → Decoder A
  lift (ok a) bs = ok (a, bs)
  lift (err e) bs = err e
  lift panic bs = panic

module _ {A B : Type 0} where
  infixl 5 ◌>>=◌ ◌>>◌
  unfoldable pub ◌>>=◌ : Decoder A → (A → Decoder B) → Decoder B
  ◌>>=◌ d f bs = elim (d bs) [ ok (a, rest) ↦ f a rest | err e ↦ err e | panic ↦ panic ]

  unfoldable pub ◌>>◌ : Decoder A → Decoder B → Decoder B
  ◌>>◌ d f bs = elim (d bs) [ ok (a, rest) ↦ f rest | err e ↦ err e | panic ↦ panic ]

-- `ensure!(buf.remaining() >= n, errors::Underflow)`
unfoldable pub ensure_remaining : ℕ → Decoder (Unit {0})
ensure_remaining n bs = if leb n (length bs) then ok (tt, bs) else err underflow

-- `buf.copy_to_bytes(buf.remaining())`
unfoldable pub copy_remaining : ⦃C : Crates⦄ → Decoder (List ℕ)
unfolding take_or_panic
copy_remaining ⦃C⦄ bs = take_or_panic (C.copy_to_bytes (length bs)) bs

-- The body of a loop that is run `n` times over a value.
unfoldable pub repeat : {A : Type 0} → ℕ → (A → Decoder A) → A → Decoder A
repeat zero body a = pure a
repeat (suc n) body a = body a >>= repeat n body

-- `items.push(T::decode(buf)?)`
unfoldable pub push_decoded : {A : Type 0} → Decoder A → List A → Decoder (List A)
push_decoded d items = d >>= λ item. pure (items ++ (item ∷ []))

-- `assert!(b)`
unfoldable pub assert : Bool → Decoder (Unit {0})
assert b bs = if b then ok (tt, bs) else panic

-- `buf.chunk()[0]`
unfoldable pub peek : ⦃C : Crates⦄ → Decoder ℕ
peek ⦃C⦄ bs = elim (get_elem? (C.chunk bs) 0) [ none ↦ panic | some b ↦ ok (b, bs) ]
