-- ===== src/Wire/Reference.antt =====
-- A plain implementation of what Wire.External asks of the crates: it shows that the laws can be
-- met, and lets the tests run.
use Prim.Native.Nat.{bit_and}
use edgedb_rust.Base.{
  ℕ, ◌≤◌, ◌<◌, ◌≡◌, refl, ◌≢◌, List, ◌++◌, Option, none, some, if◌then◌else◌, leb, length,
  length-append, take, drop, take-append_length, drop-append_length, arith,
}
use edgedb_rust.Base.HashMap.{◌==◌, nat_eq}
use edgedb_rust.Wire.{to_be_bytes, from_be_bytes, Crates, GetsBe, Copies}

abbrev pub get_be : ℕ → List ℕ → Option (ℕ × List ℕ)
get_be width bs =
    if leb width (length bs) then some (from_be_bytes (take width bs), drop width bs) else none

abbrev pub copy : ℕ → List ℕ → Option (List ℕ × List ℕ)
copy n bs = if leb n (length bs) then some (take n bs, drop n bs) else none

abbrev pub slice : ℕ → List ℕ → Option (List ℕ)
slice n bs = if leb n (length bs) then some (drop n bs) else none

pub get_be-GetsBe : (width : ℕ) → GetsBe width (get_be width)
get_be-GetsBe width = (λ bs rest e. whole bs rest e, λ bs h. ground arith)
  where
    whole :
        (bs rest : List ℕ)
        → length bs ≡ width
        → get_be width (bs ++ rest) ≡ some (from_be_bytes bs, rest)
    whole bs rest e = rw (← e) (
        ground
          (arith, length-append bs rest, take-append_length bs rest, drop-append_length bs rest))

pub copy-Copies : Copies copy
copy-Copies = (λ n bs h. ground arith, λ n bs h. ground arith)

pub slice-eq_some : (n : ℕ) (bs : List ℕ) → n ≤ length bs → slice n bs ≡ some (drop n bs)
slice-eq_some n bs h = ground arith

pub slice-eq_none : (n : ℕ) (bs : List ℕ) → length bs < n → slice n bs ≡ none
slice-eq_none n bs h = ground arith

pub from_slice-eq_some :
    (bs : List ℕ) → length bs ≡ 16 → (if length bs == 16 then some bs else none) ≡ some bs
from_slice-eq_some bs h = ground arith

pub from_slice-eq_none :
    (bs : List ℕ) → length bs ≢ 16 → (if length bs == 16 then some bs else none) ≡ none
from_slice-eq_none bs h = ground arith

pub from_bits-eq_some :
    (known bits : ℕ)
    → bit_and bits known ≡ bits
    → (if bit_and bits known == bits then some bits else none) ≡ some bits
from_bits-eq_some known bits h = ground arith

pub from_bits-eq_none :
    (known bits : ℕ)
    → bit_and bits known ≢ bits
    → (if bit_and bits known == bits then some bits else none) ≡ none
from_bits-eq_none known bits h = ground arith

instance abbrev pub crates : Crates
crates = record {
  buf = record {
    get_u8 = get_be 1;
    get_u16 = get_be 2;
    get_u32 = get_be 4;
    get_u64 = get_be 8;
    copy_to_bytes = copy;
    copy_to_slice = copy;
    chunk = λ bs. bs;
    slice_from = slice;
    get_u8-GetsBe = get_be-GetsBe 1;
    get_u16-GetsBe = get_be-GetsBe 2;
    get_u32-GetsBe = get_be-GetsBe 4;
    get_u64-GetsBe = get_be-GetsBe 8;
    copy_to_bytes-Copies = copy-Copies;
    copy_to_slice-Copies = copy-Copies;
    chunk-cons = λ b bs. (bs, refl);
    slice_from-eq_some = slice-eq_some;
    slice_from-eq_none = slice-eq_none;
  };
  buf_mut = record {
    put_u8 = λ n buf. buf ++ to_be_bytes 1 n;
    put_u16 = λ n buf. buf ++ to_be_bytes 2 n;
    put_u32 = λ n buf. buf ++ to_be_bytes 4 n;
    put_u64 = λ n buf. buf ++ to_be_bytes 8 n;
    put_slice = λ bs buf. buf ++ bs;
    extend = λ bs buf. buf ++ bs;
    put_u8-PutsBe = λ n buf. refl;
    put_u16-PutsBe = λ n buf. refl;
    put_u32-PutsBe = λ n buf. refl;
    put_u64-PutsBe = λ n buf. refl;
    put_slice-eq_append = λ bs buf. refl;
    extend-eq_append = λ bs buf. refl;
  };
  values = record {
    from_slice = λ bs. if length bs == 16 then some bs else none;
    from_slice-eq_some = from_slice-eq_some;
    from_slice-eq_none = from_slice-eq_none;
    from_bits_unchecked = λ bits. bits;
    from_bits_unchecked-eq = λ bits. refl;
    from_bits = λ known bits. if bit_and bits known == bits then some bits else none;
    from_bits-eq_some = from_bits-eq_some;
    from_bits-eq_none = from_bits-eq_none;
  };
}
