-- ===== src/Errors.antt =====
-- edgedb-errors/src/error.rs, traits.rs and kinds.rs: error codes, their ancestry and their tags. Of
-- an error there is its code here, and what its chain of sources consists of.
use Prim.Native.Nat.{bit_and}
use edgedb_rust.Base.{
  ℕ, zero, suc, ◌*◌, ◌/◌, ◌%◌, ◌^◌, Bool, not, List, [], ◌∷◌, Option, some, if◌then◌else◌,
}
use edgedb_rust.Base.HashMap.{◌==◌, nat_eq}

-- `Error`. A source is an `Error` with its code, or an error of another type.
pub record Error : Type 0 where
  pub code : ℕ
  pub sources : List (Option ℕ)

-- `Error::chain`: the error itself, and then its sources.
unfoldable pub chain : Error → List (Option ℕ)
chain e = some e.code ∷ e.sources

unfoldable pub trailing_zeros : (fuel : ℕ) → ℕ → ℕ
trailing_zeros zero n = 0
trailing_zeros (suc fuel) n =
    let rest = trailing_zeros fuel (n / 2) in if n % 2 == 0 then suc rest else 0

-- `Sealed::is_superclass_of`, for the kind with the code `kind`; `Error::is`. A `u32` has 32 bits.
unfoldable pub is_superclass_of : (kind code : ℕ) → Bool
unfolding trailing_zeros
is_superclass_of kind code =
    let mask = (0xFFFFFFFF * 2 ^ (trailing_zeros 32 kind / 8 * 8)) % 2 ^ 32 in
    bit_and code mask == kind

-- The codes of the kinds and their tags, in the order of kinds.rs.
unfoldable pub kinds : List (ℕ × ℕ)
kinds =
    (0x01000000, 0x00000000)
    ∷ (0x02000000, 0x00000000)
    ∷ (0x03000000, 0x00000000)
    ∷ (0x03010000, 0x00000000)
    ∷ (0x03010001, 0x00000000)
    ∷ (0x03010002, 0x00000000)
    ∷ (0x03010003, 0x00000000)
    ∷ (0x03020000, 0x00000000)
    ∷ (0x03020100, 0x00000000)
    ∷ (0x03020200, 0x00000002)
    ∷ (0x03030000, 0x00000000)
    ∷ (0x03040000, 0x00000000)
    ∷ (0x03040100, 0x00000000)
    ∷ (0x03040200, 0x00000000)
    ∷ (0x04000000, 0x00000000)
    ∷ (0x04010000, 0x00000000)
    ∷ (0x04010100, 0x00000000)
    ∷ (0x04010200, 0x00000000)
    ∷ (0x04010300, 0x00000000)
    ∷ (0x04020000, 0x00000000)
    ∷ (0x04020100, 0x00000000)
    ∷ (0x04020101, 0x00000000)
    ∷ (0x04020102, 0x00000000)
    ∷ (0x04030000, 0x00000000)
    ∷ (0x04030001, 0x00000000)
    ∷ (0x04030002, 0x00000000)
    ∷ (0x04030003, 0x00000000)
    ∷ (0x04030004, 0x00000000)
    ∷ (0x04030005, 0x00000000)
    ∷ (0x04030006, 0x00000000)
    ∷ (0x04040000, 0x00000000)
    ∷ (0x04050000, 0x00000000)
    ∷ (0x04050100, 0x00000000)
    ∷ (0x04050101, 0x00000000)
    ∷ (0x04050102, 0x00000000)
    ∷ (0x04050103, 0x00000000)
    ∷ (0x04050104, 0x00000000)
    ∷ (0x04050105, 0x00000000)
    ∷ (0x04050106, 0x00000000)
    ∷ (0x04050107, 0x00000000)
    ∷ (0x04050108, 0x00000000)
    ∷ (0x04050109, 0x00000000)
    ∷ (0x0405010A, 0x00000000)
    ∷ (0x04050200, 0x00000000)
    ∷ (0x04050201, 0x00000000)
    ∷ (0x04050202, 0x00000000)
    ∷ (0x04050203, 0x00000000)
    ∷ (0x04050204, 0x00000000)
    ∷ (0x04050205, 0x00000000)
    ∷ (0x04050206, 0x00000000)
    ∷ (0x04050207, 0x00000000)
    ∷ (0x04050208, 0x00000000)
    ∷ (0x04050209, 0x00000000)
    ∷ (0x0405020A, 0x00000000)
    ∷ (0x04060000, 0x00000000)
    ∷ (0x04060100, 0x00000000)
    ∷ (0x04060200, 0x00000000)
    ∷ (0x04060A00, 0x00000000)
    ∷ (0x04060A01, 0x00000000)
    ∷ (0x05000000, 0x00000000)
    ∷ (0x05010000, 0x00000000)
    ∷ (0x05010001, 0x00000000)
    ∷ (0x05010002, 0x00000000)
    ∷ (0x05010003, 0x00000000)
    ∷ (0x05020000, 0x00000000)
    ∷ (0x05020001, 0x00000000)
    ∷ (0x05020002, 0x00000000)
    ∷ (0x05020003, 0x00000000)
    ∷ (0x05030000, 0x00000000)
    ∷ (0x05030100, 0x00000002)
    ∷ (0x05030101, 0x00000002)
    ∷ (0x05030102, 0x00000002)
    ∷ (0x06000000, 0x00000000)
    ∷ (0x07000000, 0x00000000)
    ∷ (0x07010000, 0x00000000)
    ∷ (0x08000000, 0x00000000)
    ∷ (0x08000001, 0x00000002)
    ∷ (0x09000000, 0x00000000)
    ∷ (0x09000100, 0x00000000)
    ∷ (0xF0000000, 0x00000000)
    ∷ (0xF0010000, 0x00000000)
    ∷ (0xFF000000, 0x00000000)
    ∷ (0xFF010000, 0x00000000)
    ∷ (0xFF010100, 0x00000000)
    ∷ (0xFF010101, 0x00000003)
    ∷ (0xFF010200, 0x00000003)
    ∷ (0xFF010300, 0x00000003)
    ∷ (0xFF020000, 0x00000000)
    ∷ (0xFF020100, 0x00000000)
    ∷ (0xFF020101, 0x00000000)
    ∷ (0xFF020102, 0x00000000)
    ∷ (0xFF020103, 0x00000000)
    ∷ (0xFF030000, 0x00000000)
    ∷ (0xFF040000, 0x00000000)
    ∷ (0x03FF0000, 0x00000000)
    ∷ (0x03FE0000, 0x00000000)
    ∷ (0x03FD0000, 0x00000000)
    ∷ (0x0701FF00, 0x00000000)
    ∷ (0xFFFF0000, 0x00000000)
    ∷ (0xFFFE0000, 0x00000000)
    ∷ (0xFF0101FF, 0x00000000)
    ∷ (0xFF01FF00, 0x00000000)
    ∷ (0xFF02FF00, 0x00000000)
    ∷ (0xFF02FE00, 0x00000000)
    ∷ (0xFE000000, 0x00000000)
    ∷ []

unfoldable pub find_tags : ℕ → List (ℕ × ℕ) → ℕ
find_tags code [] = 0
find_tags code (entry ∷ rest) = if entry.0 == code then entry.1 else find_tags code rest

-- `get_tags`
unfoldable pub get_tags : ℕ → ℕ
unfolding kinds find_tags
get_tags code = find_tags code kinds

-- `tag_check`, and so `Error::has_tag`.
unfoldable pub tag_check : (code bit : ℕ) → Bool
unfolding get_tags
tag_check code bit = not (bit_and (get_tags code) (2 ^ bit) == 0)

-- The bit of `SHOULD_RETRY`.
abbrev pub should_retry : ℕ
should_retry = 1

abbrev pub transaction_conflict_error : ℕ
transaction_conflict_error = 0x05030100

abbrev pub client_error : ℕ
client_error = 0xFF000000
