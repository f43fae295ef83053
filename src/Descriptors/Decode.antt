-- ===== src/Descriptors/Decode.antt =====
-- edgedb-protocol/src/descriptors.rs: the `Decode` of each descriptor.
use Prim.Native.Nat.{bit_and}
use edgedb_rust.Base.{
  ℕ, ◌*◌, Bool, not, ◌&&◌, leb, ltb, [], Option, none, some, Result, ok, err, if◌then◌else◌,
}
use edgedb_rust.Base.HashMap.{◌==◌, nat_eq}
use edgedb_rust.Wire.{DecodeError, invalid_type_descriptor, invalid_array_shape, Crates}
use edgedb_rust.Wire.Decoder.{
  Decoder, pure, fail, take_or_panic, lift, ensure_remaining, repeat, push_decoded, assert, peek,
  ◌>>=◌, ◌>>◌,
}
use edgedb_rust.Wire.Frame.{read_as}
use edgedb_rust.Wire.Encoding.{decode_string, decode_uuid}
use edgedb_rust.Protocol.{ProtocolVersion, Cardinality, is_at_least, try_from_u8}
use edgedb_rust.Time.Int.{ℤ, pos, negsuc, as_i32}
use edgedb_rust.Descriptors.{
  TypePos, Descriptor, SetDescriptor, set, ShapeElement, ObjectShapeDescriptor, object_shape,
  InputShapeTypeDescriptor, input_shape, BaseScalarTypeDescriptor, base_scalar,
  ScalarTypeDescriptor, scalar, TupleTypeDescriptor, tuple, TupleElement, NamedTupleTypeDescriptor,
  named_tuple, ArrayTypeDescriptor, array, RangeTypeDescriptor, range, EnumerationTypeDescriptor,
  enumeration, TypeAnnotationDescriptor, type_annotation,
}

-- The `match` on a dimension: -1 stands for a dimension without a bound.
unfoldable pub dimension : ℤ → Result DecodeError (Option ℕ)
dimension (pos n) = if ltb 0 n then ok (some n) else err invalid_array_shape
dimension (negsuc n) = if n == 0 then ok none else err invalid_array_shape

-- `flags & mask != 0`
unfoldable pub has_flag : (mask flags : ℕ) → Bool
has_flag mask flags = not (bit_and flags mask == 0)

module _ ⦃C : Crates⦄ where
  unfoldable pub decode_type_pos : Decoder TypePos
  decode_type_pos = take_or_panic C.get_u16

  unfoldable pub decode_set_descriptor : Decoder SetDescriptor
  unfolding decode_type_pos
  decode_set_descriptor = do
    ensure_remaining 19
    k ← take_or_panic C.get_u8
    assert (k == 0)
    id ← decode_uuid
    type_pos ← decode_type_pos
    pure (record { id = id; type_pos = type_pos })

  -- The flags and the cardinality; `buf.get_u8() as u32` and no cardinality before version 0.11.
  unfoldable pub decode_element_flags : ProtocolVersion → Decoder (ℕ × Option Cardinality)
  decode_element_flags proto =
      if is_at_least proto 0 11
      then (take_or_panic C.get_u32 >>= λ flags. take_or_panic C.get_u8 >>= λ c.
          lift (try_from_u8 c) >>= λ cardinality. pure (flags, some cardinality))
      else (take_or_panic C.get_u8 >>= λ flags. pure (flags, none))

  unfoldable pub decode_shape_element : ProtocolVersion → Decoder ShapeElement
  unfolding decode_element_flags has_flag decode_type_pos
  decode_shape_element proto = do
    ensure_remaining 7
    flags ← decode_element_flags proto
    name ← decode_string
    ensure_remaining 2
    type_pos ← decode_type_pos
    pure (record {
      flag_implicit = has_flag 0b001 flags.0;
      flag_link_property = has_flag 0b010 flags.0;
      flag_link = has_flag 0b100 flags.0;
      cardinality = flags.1;
      name = name;
      type_pos = type_pos;
    })

  unfoldable pub decode_object_shape_descriptor : ProtocolVersion → Decoder ObjectShapeDescriptor
  unfolding decode_shape_element
  decode_object_shape_descriptor proto = do
    ensure_remaining 19
    k ← take_or_panic C.get_u8
    assert (k == 1)
    id ← decode_uuid
    element_count ← take_or_panic C.get_u16
    elements ← repeat element_count (push_decoded (decode_shape_element proto)) []
    pure (record { id = id; elements = elements })

  unfoldable pub decode_input_shape_type_descriptor :
      ProtocolVersion → Decoder InputShapeTypeDescriptor
  unfolding decode_shape_element
  decode_input_shape_type_descriptor proto = do
    ensure_remaining 19
    k ← take_or_panic C.get_u8
    assert (k == 8)
    id ← decode_uuid
    element_count ← take_or_panic C.get_u16
    elements ← repeat element_count (push_decoded (decode_shape_element proto)) []
    pure (record { id = id; elements = elements })

  unfoldable pub decode_base_scalar_type_descriptor : Decoder BaseScalarTypeDescriptor
  decode_base_scalar_type_descriptor = do
    k ← take_or_panic C.get_u8
    assert (k == 2)
    id ← decode_uuid
    pure (record { id = id })

  unfoldable pub decode_scalar_type_descriptor : Decoder ScalarTypeDescriptor
  unfolding decode_type_pos
  decode_scalar_type_descriptor = do
    ensure_remaining 19
    k ← take_or_panic C.get_u8
    assert (k == 3)
    id ← decode_uuid
    base_type_pos ← decode_type_pos
    pure (record { id = id; base_type_pos = base_type_pos })

  unfoldable pub decode_tuple_type_descriptor : Decoder TupleTypeDescriptor
  unfolding decode_type_pos
  decode_tuple_type_descriptor = do
    ensure_remaining 19
    k ← take_or_panic C.get_u8
    assert (k == 4)
    id ← decode_uuid
    el_count ← take_or_panic C.get_u16
    ensure_remaining (2 * el_count)
    element_types ← repeat el_count (push_decoded decode_type_pos) []
    pure (record { id = id; element_types = element_types })

  unfoldable pub decode_tuple_element : Decoder TupleElement
  unfolding decode_type_pos
  decode_tuple_element = do
    name ← decode_string
    ensure_remaining 2
    type_pos ← decode_type_pos
    pure (record { name = name; type_pos = type_pos })

  unfoldable pub decode_named_tuple_type_descriptor : Decoder NamedTupleTypeDescriptor
  unfolding decode_tuple_element
  decode_named_tuple_type_descriptor = do
    ensure_remaining 19
    k ← take_or_panic C.get_u8
    assert (k == 5)
    id ← decode_uuid
    element_count ← take_or_panic C.get_u16
    elements ← repeat element_count (push_decoded decode_tuple_element) []
    pure (record { id = id; elements = elements })

  -- `match buf.get_i32()`, whose 32 bits are read as the `u32` that they are, too.
  unfoldable pub decode_dimension : Decoder (Option ℕ)
  unfolding dimension
  decode_dimension = do n ← take_or_panic C.get_u32; lift (dimension (as_i32 (pos n)))

  unfoldable pub decode_array_type_descriptor : Decoder ArrayTypeDescriptor
  unfolding decode_type_pos decode_dimension
  decode_array_type_descriptor = do
    ensure_remaining 21
    k ← take_or_panic C.get_u8
    assert (k == 6)
    id ← decode_uuid
    type_pos ← decode_type_pos
    dim_count ← take_or_panic C.get_u16
    ensure_remaining (4 * dim_count)
    dimensions ← repeat dim_count (push_decoded decode_dimension) []
    pure (record { id = id; type_pos = type_pos; dimensions = dimensions })

  unfoldable pub decode_range_type_descriptor : Decoder RangeTypeDescriptor
  unfolding decode_type_pos
  decode_range_type_descriptor = do
    ensure_remaining 19
    k ← take_or_panic C.get_u8
    assert (k == 9)
    id ← decode_uuid
    type_pos ← decode_type_pos
    pure (record { id = id; type_pos = type_pos })

  unfoldable pub decode_enumeration_type_descriptor : Decoder EnumerationTypeDescriptor
  decode_enumeration_type_descriptor = do
    ensure_remaining 19
    k ← take_or_panic C.get_u8
    assert (k == 7)
    id ← decode_uuid
    member_count ← take_or_panic C.get_u16
    members ← repeat member_count (push_decoded decode_string) []
    pure (record { id = id; members = members })

  unfoldable pub decode_type_annotation_descriptor : Decoder TypeAnnotationDescriptor
  decode_type_annotation_descriptor = do
    ensure_remaining 21
    annotated_type ← take_or_panic C.get_u8
    assert (leb 0x7F annotated_type)
    id ← decode_uuid
    annotation ← decode_string
    pure (record { annotated_type = annotated_type; id = id; annotation = annotation })

  -- The `match` on the first byte.
  unfoldable pub decode_descriptor_body : ProtocolVersion → (code : ℕ) → Decoder Descriptor
  decode_descriptor_body proto code =
      if code == 0
      then read_as set decode_set_descriptor
      else if code == 1
      then read_as object_shape (decode_object_shape_descriptor proto)
      else if code == 2
      then read_as base_scalar decode_base_scalar_type_descriptor
      else if code == 3
      then read_as scalar decode_scalar_type_descriptor
      else if code == 4
      then read_as tuple decode_tuple_type_descriptor
      else if code == 5
      then read_as named_tuple decode_named_tuple_type_descriptor
      else if code == 6
      then read_as array decode_array_type_descriptor
      else if code == 7
      then read_as enumeration decode_enumeration_type_descriptor
      else if code == 8
      then read_as input_shape (decode_input_shape_type_descriptor proto)
      else if code == 9
      then read_as range decode_range_type_descriptor
      else if leb 0x7F code && leb code 0xFF
      then read_as type_annotation decode_type_annotation_descriptor
      else fail (invalid_type_descriptor code)

  -- `Descriptor::decode`
  unfoldable pub decode_descriptor : ProtocolVersion → Decoder Descriptor
  unfolding decode_descriptor_body
  decode_descriptor proto = ensure_remaining 1 >> (peek >>= decode_descriptor_body proto)
