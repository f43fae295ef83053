-- ===== src/Wire/Encoder.antt =====
-- An encoder adds to the end of an `Output`.
pub mod Writes
use edgedb_rust.Base.{
  ℕ, ◌<◌, ◌≡◌, ◌^◌, List, [], ◌∷◌, Option, none, some, Result, ok, err, panic, ok_or, ltb, length,
  if◌then◌else◌,
}
use edgedb_rust.Wire.Errors.{EncodeError}

abbrev pub Encoder : Type 0
Encoder = List ℕ → Result EncodeError (List ℕ)

-- A call that cannot fail.
unfoldable pub put : (List ℕ → List ℕ) → Encoder
put f buf = ok (f buf)

unfoldable pub done : Encoder
done buf = ok buf

unfoldable pub refuse : EncodeError → Encoder
refuse e buf = err e

infixl 5 ◌>>◌
unfoldable pub ◌>>◌ : Encoder → Encoder → Encoder
◌>>◌ e f buf = elim (e buf) [ ok buf' ↦ f buf' | err x ↦ err x | panic ↦ panic ]

-- `for x in xs { body(x)?; }`
unfoldable pub for_each : {A : Type 0} → (A → Encoder) → List A → Encoder
for_each body [] = done
for_each body (x ∷ xs) = body x >> for_each body xs

-- `u16::try_from(len).ok().context(e)?`, and the same at `u32`.
unfoldable pub try_from : (bound : ℕ) → ℕ → Option ℕ
try_from bound n = if ltb n bound then some n else none

-- A number that must fit, handed to a writer.
unfoldable pub put_checked : (bound : ℕ) → EncodeError → (ℕ → List ℕ → List ℕ) → ℕ → Encoder
unfolding try_from put
put_checked bound e write n buf = elim (ok_or e (try_from bound n)) [
  | ok m ↦ put (write m) buf
  | err x ↦ err x
  | panic ↦ panic
]
