-- ===== src/Wire/Decoder/Tag.antt =====
-- One byte, read from the front of an input.
use native.Mathlib.Nat.{zero-add}
use edgedb_rust.Base.{ℕ, ◌≡◌, refl, List, [], ◌∷◌, some}
use edgedb_rust.Wire.Bytes.{from_be_bytes}
use edgedb_rust.Wire.External.{Crates}

pub tag_read : ⦃C : Crates⦄ (t : ℕ) (bs : List ℕ) → C.get_u8 (t ∷ bs) ≡ some (t, bs)
unfolding from_be_bytes
tag_read ⦃C⦄ t bs = rw (zero-add t) at (C.get_u8-GetsBe.0 (t ∷ []) bs refl)
