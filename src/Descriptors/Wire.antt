-- ===== src/Descriptors/Wire.antt =====
-- The bytes of a descriptor in the protocol, independently of descriptors.rs: a tag, the
-- identifier, and the fields one after the other. A server writes them; the repository only reads.
use edgedb_rust.Base.{
  ℕ, ◌+◌, ◌-◌, ◌^◌, ◌<◌, ◌≤◌, ◌≡◌, Bool, true, false, if◌then◌else◌, List, ◌∷◌, ◌++◌, Option, none,
  some, length, All,
}
use edgedb_rust.Wire.{to_be_bytes}
use edgedb_rust.Wire.Encoder.Writes.{bytes_of_all}
use edgedb_rust.Wire.Encoding.RoundTrip.{IsU16, IsText, IsUuid, wire_bytes}
use edgedb_rust.Protocol.{ProtocolVersion, cardinality_u8, is_at_least}
use edgedb_rust.Descriptors.{
  Descriptor, set, object_shape, input_shape, base_scalar, scalar, tuple, named_tuple, array, range,
  enumeration, type_annotation, ShapeElement, TupleElement, TypePos,
}

abbrev pub flags_of : ShapeElement → ℕ
flags_of e =
    (if e.flag_implicit then 1 else 0)
    + (if e.flag_link_property then 2 else 0)
    + (if e.flag_link then 4 else 0)

-- The flags take four bytes where a cardinality follows, and one where none does.
unfoldable pub wire_flags : ShapeElement → List ℕ
wire_flags e = elim e.cardinality [
  | none ↦ to_be_bytes 1 (flags_of e)
  | some c ↦ to_be_bytes 4 (flags_of e) ++ to_be_bytes 1 (cardinality_u8 c)
]

abbrev pub wire_shape_element : ShapeElement → List ℕ
wire_shape_element e = wire_flags e ++ (wire_bytes e.name ++ to_be_bytes 2 e.type_pos)

abbrev pub wire_tuple_element : TupleElement → List ℕ
wire_tuple_element e = wire_bytes e.name ++ to_be_bytes 2 e.type_pos

abbrev pub wire_type_pos : TypePos → List ℕ
wire_type_pos t = to_be_bytes 2 t

abbrev pub wire_dimension : Option ℕ → List ℕ
wire_dimension none = to_be_bytes 4 (2 ^ 32 - 1)
wire_dimension (some n) = to_be_bytes 4 n

-- A count of two bytes, and what it counts.
abbrev pub wire_list : {A : Type 0} → (A → List ℕ) → List A → List ℕ
wire_list f xs = to_be_bytes 2 (length xs) ++ bytes_of_all f xs

unfoldable pub wire_descriptor : Descriptor → List ℕ
wire_descriptor (set d) = 0 ∷ (d.id ++ to_be_bytes 2 d.type_pos)
wire_descriptor (object_shape d) = 1 ∷ (d.id ++ wire_list wire_shape_element d.elements)
wire_descriptor (base_scalar d) = 2 ∷ d.id
wire_descriptor (scalar d) = 3 ∷ (d.id ++ to_be_bytes 2 d.base_type_pos)
wire_descriptor (tuple d) = 4 ∷ (d.id ++ wire_list wire_type_pos d.element_types)
wire_descriptor (named_tuple d) = 5 ∷ (d.id ++ wire_list wire_tuple_element d.elements)
wire_descriptor (array d) =
    6 ∷ (d.id ++ (to_be_bytes 2 d.type_pos ++ wire_list wire_dimension d.dimensions))
wire_descriptor (enumeration d) = 7 ∷ (d.id ++ wire_list wire_bytes d.members)
wire_descriptor (input_shape d) = 8 ∷ (d.id ++ wire_list wire_shape_element d.elements)
wire_descriptor (range d) = 9 ∷ (d.id ++ to_be_bytes 2 d.type_pos)
wire_descriptor (type_annotation d) = d.annotated_type ∷ (d.id ++ wire_bytes d.annotation)

abbrev pub is_some : {A : Type 0} → Option A → Bool
is_some none = false
is_some (some a) = true

-- An element has a cardinality from version 0.11 on.
abbrev pub IsShapeElement : ProtocolVersion → ShapeElement → Type 0
IsShapeElement p e = (is_some e.cardinality ≡ is_at_least p 0 11) × IsText e.name × IsU16 e.type_pos

abbrev pub IsTupleElement : TupleElement → Type 0
IsTupleElement e = IsText e.name × IsU16 e.type_pos

abbrev pub IsDimension : Option ℕ → Type 0
IsDimension none = Unit {0}
IsDimension (some n) = (0 < n) × (n < 2 ^ 31)

abbrev pub IsList : {A : Type 0} → (A → Type 0) → List A → Type 0
IsList P xs = IsU16 (length xs) × All P xs

-- What a descriptor on the wire can have in its fields.
unfoldable pub IsDescriptor : ProtocolVersion → Descriptor → Type 0
IsDescriptor p (set d) = IsUuid d.id × IsU16 d.type_pos
IsDescriptor p (object_shape d) = IsUuid d.id × IsList (IsShapeElement p) d.elements
IsDescriptor p (base_scalar d) = IsUuid d.id
IsDescriptor p (scalar d) = IsUuid d.id × IsU16 d.base_type_pos
IsDescriptor p (tuple d) = IsUuid d.id × IsList IsU16 d.element_types
IsDescriptor p (named_tuple d) = IsUuid d.id × IsList IsTupleElement d.elements
IsDescriptor p (array d) = IsUuid d.id × IsU16 d.type_pos × IsList IsDimension d.dimensions
IsDescriptor p (enumeration d) = IsUuid d.id × IsList IsText d.members
IsDescriptor p (input_shape d) = IsUuid d.id × IsList (IsShapeElement p) d.elements
IsDescriptor p (range d) = IsUuid d.id × IsU16 d.type_pos
IsDescriptor p (type_annotation d) =
    IsUuid d.id × (0x7F ≤ d.annotated_type) × (d.annotated_type ≤ 0xFF) × IsText d.annotation
