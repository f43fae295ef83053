-- ===== src/Wire/External.antt =====
-- What the protocol code takes from crates that are not part of the repository: `bytes` (`Buf`
-- and `BufMut`), `uuid` and `bitflags`. Each is a record of the operations that are called and of
-- the behaviour that their documentation states. `Bytes` and `BytesMut` are lists of bytes, a
-- `Uuid` is the list of its 16 bytes, a set of flags is the number of its bits, and `none` is a
-- panic.
use Prim.Native.Nat.{bit_and}
use edgedb_rust.Base.{
  ℕ, ◌≤◌, ◌<◌, ◌≡◌, ◌≢◌, List, ◌∷◌, ◌++◌, Option, none, some, length, take, drop,
}
use edgedb_rust.Wire.Bytes.{to_be_bytes, from_be_bytes}

-- A big-endian reader of `width` bytes: it takes them from the front, and panics on fewer.
abbrev pub GetsBe : ℕ → (List ℕ → Option (ℕ × List ℕ)) → Type 0
GetsBe width get =
    ((bs rest : List ℕ) → length bs ≡ width → get (bs ++ rest) ≡ some (from_be_bytes bs, rest))
    × ((bs : List ℕ) → length bs < width → get bs ≡ none)

-- A big-endian writer of `width` bytes.
abbrev pub PutsBe : ℕ → (ℕ → List ℕ → List ℕ) → Type 0
PutsBe width put = (n : ℕ) (buf : List ℕ) → put n buf ≡ buf ++ to_be_bytes width n

-- A reader of `len` bytes, which panics on fewer.
abbrev pub Copies : (ℕ → List ℕ → Option (List ℕ × List ℕ)) → Type 0
Copies copy =
    ((n : ℕ) (bs : List ℕ) → n ≤ length bs → copy n bs ≡ some (take n bs, drop n bs))
    × ((n : ℕ) (bs : List ℕ) → length bs < n → copy n bs ≡ none)

-- `bytes::Buf` as `Input` uses it.
pub record Buf : Type 0 where
  pub get_u8 : List ℕ → Option (ℕ × List ℕ)
  pub get_u16 : List ℕ → Option (ℕ × List ℕ)
  pub get_u32 : List ℕ → Option (ℕ × List ℕ)
  pub get_u64 : List ℕ → Option (ℕ × List ℕ)
  pub copy_to_bytes : (len : ℕ) → List ℕ → Option (List ℕ × List ℕ)
  pub copy_to_slice : (len : ℕ) → List ℕ → Option (List ℕ × List ℕ)
  pub chunk : List ℕ → List ℕ
  pub slice_from : (begin : ℕ) → List ℕ → Option (List ℕ)
  pub get_u8-GetsBe : GetsBe 1 get_u8
  pub get_u16-GetsBe : GetsBe 2 get_u16
  pub get_u32-GetsBe : GetsBe 4 get_u32
  pub get_u64-GetsBe : GetsBe 8 get_u64
  pub copy_to_bytes-Copies : Copies copy_to_bytes
  pub copy_to_slice-Copies : Copies copy_to_slice
  -- A chunk starts where the buffer does, and is empty only if the buffer is.
  pub chunk-cons : (b : ℕ) (bs : List ℕ) → (rest : List ℕ) × (chunk (b ∷ bs) ≡ b ∷ rest)
  pub slice_from-eq_some :
      (n : ℕ) (bs : List ℕ) → n ≤ length bs → slice_from n bs ≡ some (drop n bs)
  pub slice_from-eq_none : (n : ℕ) (bs : List ℕ) → length bs < n → slice_from n bs ≡ none

-- `bytes::BufMut` as `Output` uses it. `reserve` changes no content, and is left out.
pub record BufMut : Type 0 where
  pub put_u8 : ℕ → List ℕ → List ℕ
  pub put_u16 : ℕ → List ℕ → List ℕ
  pub put_u32 : ℕ → List ℕ → List ℕ
  pub put_u64 : ℕ → List ℕ → List ℕ
  pub put_slice : List ℕ → List ℕ → List ℕ
  pub extend : List ℕ → List ℕ → List ℕ
  pub put_u8-PutsBe : PutsBe 1 put_u8
  pub put_u16-PutsBe : PutsBe 2 put_u16
  pub put_u32-PutsBe : PutsBe 4 put_u32
  pub put_u64-PutsBe : PutsBe 8 put_u64
  pub put_slice-eq_append : (bs buf : List ℕ) → put_slice bs buf ≡ buf ++ bs
  pub extend-eq_append : (bs buf : List ℕ) → extend bs buf ≡ buf ++ bs

-- `Uuid::from_slice`, which refuses a slice of another length than 16, and bitflags' `from_bits`,
-- which refuses bits that no flag has, with `from_bits_unchecked`, which keeps them.
pub record Values : Type 0 where
  pub from_slice : List ℕ → Option (List ℕ)
  pub from_slice-eq_some : (bs : List ℕ) → length bs ≡ 16 → from_slice bs ≡ some bs
  pub from_slice-eq_none : (bs : List ℕ) → length bs ≢ 16 → from_slice bs ≡ none
  pub from_bits_unchecked : ℕ → ℕ
  pub from_bits_unchecked-eq : (bits : ℕ) → from_bits_unchecked bits ≡ bits
  pub from_bits : (known bits : ℕ) → Option ℕ
  pub from_bits-eq_some :
      (known bits : ℕ) → bit_and bits known ≡ bits → from_bits known bits ≡ some bits
  pub from_bits-eq_none : (known bits : ℕ) → bit_and bits known ≢ bits → from_bits known bits ≡ none

pub record Crates : Type 0 where
  pub buf : Buf
  pub open buf use *
  pub buf_mut : BufMut
  pub open buf_mut use *
  pub values : Values
  pub open values use *
