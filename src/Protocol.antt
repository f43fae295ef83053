-- ===== src/Protocol.antt =====
-- edgedb-protocol/src/features.rs and common.rs: the protocol's version, and the numbers that stand
-- for its enumerations.
mod Tests
use edgedb_rust.Base.{
  panic, ℕ, ◌≡◌, ◌↔◌, ◌⊎◌, inl, inr, Bool-cases, ◌≢◌, Bool, true, false, ◌&&◌, ◌||◌, Result, ok,
  err, leb, ltb, if◌then◌else◌, arith, ok_or,
}
use edgedb_rust.Base.HashMap.{◌==◌, nat_eq}
use edgedb_rust.Wire.{
  DecodeError, invalid_cardinality, invalid_io_format, invalid_capabilities,
  invalid_compilation_flags, invalid_aspect, Crates,
}

pub record ProtocolVersion : Type 0 where
  pub major_ver : ℕ
  pub minor_ver : ℕ

unfoldable pub is_1 : ProtocolVersion → Bool
is_1 v = leb 1 v.major_ver

-- The comparison of the tuples `(major_ver, minor_ver)`.
tuple_le : ℕ × ℕ → ℕ × ℕ → Bool
tuple_le (a, b) (c, d) = ltb a c || (a == c && leb b d)

pub supports_inline_typenames : ProtocolVersion → Bool
unfolding tuple_le
supports_inline_typenames v = tuple_le (0, 9) (v.major_ver, v.minor_ver)

pub has_implicit_tid : ProtocolVersion → Bool
unfolding tuple_le
has_implicit_tid v = tuple_le (v.major_ver, v.minor_ver) (0, 8)

unfoldable pub is_at_least : ProtocolVersion → (major minor : ℕ) → Bool
is_at_least v major minor = ltb major v.major_ver || (v.major_ver == major && leb minor v.minor_ver)

pub is_at_most : ProtocolVersion → (major minor : ℕ) → Bool
is_at_most v major minor = ltb v.major_ver major || (v.major_ver == major && leb v.minor_ver minor)

pub data Cardinality : Type 0 where
  no_result at_most_one one many at_least_one : Cardinality

-- `cardinality as u8`
unfoldable pub cardinality_u8 : Cardinality → ℕ
cardinality_u8 Cardinality.no_result = 0x6e
cardinality_u8 Cardinality.at_most_one = 0x6f
cardinality_u8 Cardinality.one = 0x41
cardinality_u8 Cardinality.many = 0x6d
cardinality_u8 Cardinality.at_least_one = 0x4d

unfoldable pub try_from_u8 : ℕ → Result DecodeError Cardinality
try_from_u8 c =
    if c == 0x6e
    then ok Cardinality.no_result
    else if c == 0x6f
    then ok Cardinality.at_most_one
    else if c == 0x41
    then ok Cardinality.one
    else if c == 0x6d
    then ok Cardinality.many
    else if c == 0x4d
    then ok Cardinality.at_least_one
    else err (invalid_cardinality c)

pub is_optional : Cardinality → Bool
is_optional Cardinality.no_result = true
is_optional Cardinality.at_most_one = true
is_optional Cardinality.one = false
is_optional Cardinality.many = true
is_optional Cardinality.at_least_one = false

pub data IoFormat : Type 0 where
  binary json json_elements none : IoFormat

-- `io_format as u8`
unfoldable pub io_format_u8 : IoFormat → ℕ
io_format_u8 IoFormat.binary = 0x62
io_format_u8 IoFormat.json = 0x6a
io_format_u8 IoFormat.json_elements = 0x4a
io_format_u8 IoFormat.none = 0x6e

-- The `match` that every decoder of an `IoFormat` repeats.
unfoldable pub io_format_from_u8 : ℕ → Result DecodeError IoFormat
io_format_from_u8 c =
    if c == 0x62
    then ok IoFormat.binary
    else if c == 0x6a
    then ok IoFormat.json
    else if c == 0x4a
    then ok IoFormat.json_elements
    else err (invalid_io_format c)

pub data DescribeAspect : Type 0 where
  data_description : DescribeAspect

unfoldable pub aspect_u8 : DescribeAspect → ℕ
aspect_u8 data_description = 0x54

unfoldable pub aspect_from_u8 : ℕ → Result DecodeError DescribeAspect
aspect_from_u8 c = if c == 0x54 then ok data_description else err (invalid_aspect c)

-- `Capabilities::ALL` and the union of the `CompilationFlags`.
abbrev pub capabilities_all : ℕ
capabilities_all = 0b11111

abbrev pub compilation_flags_all : ℕ
compilation_flags_all = 0b111

module _ ⦃C : Crates⦄ where
  unfoldable pub decode_capabilities : ℕ → Result DecodeError ℕ
  decode_capabilities val = ok_or (invalid_capabilities val) (C.from_bits capabilities_all val)

  unfoldable pub decode_compilation_flags : ℕ → Result DecodeError ℕ
  decode_compilation_flags val =
      ok_or (invalid_compilation_flags val) (C.from_bits compilation_flags_all val)

-- The byte of a cardinality is read back as that cardinality, and nothing else is accepted.
pub try_from_u8_iff : (c : ℕ) (x : Cardinality) → (try_from_u8 c ≡ ok x) ↔ (cardinality_u8 x ≡ c)
unfolding try_from_u8 cardinality_u8
try_from_u8_iff c x = (λ h. ground arith, λ h. ground arith)

-- The byte of an output format is read back, but for `none`: its byte 0x6e is refused.
pub io_format_from_u8_iff :
    (c : ℕ) (x : IoFormat)
    → (io_format_from_u8 c ≡ ok x) ↔ ((io_format_u8 x ≡ c) × (x ≢ IoFormat.none))
unfolding io_format_from_u8 io_format_u8
io_format_from_u8_iff c x = (λ h. ground arith, λ h. ground arith)

-- `is_at_least` and `is_at_most` are the lexicographic order of the versions and its converse:
-- one of them holds always, and both hold at that version alone.
pub version_order :
    (v : ProtocolVersion) (major minor : ℕ)
    → ((is_at_least v major minor ≡ true) ⊎ (is_at_most v major minor ≡ true))
      × ((is_at_least v major minor && is_at_most v major minor ≡ true)
          ↔ ((v.major_ver ≡ major) × (v.minor_ver ≡ minor)))
unfolding is_at_least is_at_most
version_order v major minor = (
  elim (Bool-cases (is_at_least v major minor)) [ inl e ↦ inl e | inr e ↦ inr (ground arith) ],
  (λ h. (ground arith, ground arith), λ h. ground arith),
)

-- A protocol from 1.0 on has inline type names and no implicit type ids, and these two features
-- never stand together.
pub version_features :
    (v : ProtocolVersion)
    → (is_1 v ≡ is_at_least v 1 0)
      × (supports_inline_typenames v ≡ is_at_least v 0 9)
      × (has_implicit_tid v ≡ is_at_most v 0 8)
      × (supports_inline_typenames v && has_implicit_tid v ≡ false)
unfolding is_1 is_at_least is_at_most supports_inline_typenames has_implicit_tid
version_features v = (ground arith, ground arith, ground arith, ground arith)

-- No byte makes the conversion panic.
pub cardinality-ne-panic : (c : ℕ) → try_from_u8 c ≢ panic
unfolding try_from_u8
cardinality-ne-panic c e = ground arith
