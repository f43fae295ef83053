-- ===== src/Descriptors.antt =====
-- edgedb-protocol/src/descriptors.rs: the descriptors of types. A type is named by its position in
-- the list of descriptors, a `u16`; a dimension of an array is the number of its elements.
pub mod Decode
pub mod Typedesc
pub mod Safety
pub mod Takes
pub mod Termination
pub mod Wire
pub mod Root
pub mod Reads
pub mod ReadsParts
pub mod RoundTrip
mod Tests
use edgedb_rust.Base.{ℕ, List, Option, Bool}
use edgedb_rust.Protocol.{Cardinality}

abbrev pub TypePos : Type 0
TypePos = ℕ

pub record SetDescriptor : Type 0 where
  pub id : List ℕ
  pub type_pos : TypePos

pub record ShapeElement : Type 0 where
  pub flag_implicit : Bool
  pub flag_link_property : Bool
  pub flag_link : Bool
  pub cardinality : Option Cardinality
  pub name : List ℕ
  pub type_pos : TypePos

pub record ObjectShapeDescriptor : Type 0 where
  pub id : List ℕ
  pub elements : List ShapeElement

pub record InputShapeTypeDescriptor : Type 0 where
  pub id : List ℕ
  pub elements : List ShapeElement

pub record BaseScalarTypeDescriptor : Type 0 where
  pub id : List ℕ

pub record ScalarTypeDescriptor : Type 0 where
  pub id : List ℕ
  pub base_type_pos : TypePos

pub record TupleTypeDescriptor : Type 0 where
  pub id : List ℕ
  pub element_types : List TypePos

pub record TupleElement : Type 0 where
  pub name : List ℕ
  pub type_pos : TypePos

pub record NamedTupleTypeDescriptor : Type 0 where
  pub id : List ℕ
  pub elements : List TupleElement

pub record ArrayTypeDescriptor : Type 0 where
  pub id : List ℕ
  pub type_pos : TypePos
  pub dimensions : List (Option ℕ)

pub record RangeTypeDescriptor : Type 0 where
  pub id : List ℕ
  pub type_pos : TypePos

pub record EnumerationTypeDescriptor : Type 0 where
  pub id : List ℕ
  pub members : List (List ℕ)

pub record TypeAnnotationDescriptor : Type 0 where
  pub annotated_type : ℕ
  pub id : List ℕ
  pub annotation : List ℕ

pub data Descriptor : Type 0 where
  set : SetDescriptor → Descriptor
  object_shape : ObjectShapeDescriptor → Descriptor
  base_scalar : BaseScalarTypeDescriptor → Descriptor
  scalar : ScalarTypeDescriptor → Descriptor
  tuple : TupleTypeDescriptor → Descriptor
  named_tuple : NamedTupleTypeDescriptor → Descriptor
  array : ArrayTypeDescriptor → Descriptor
  range : RangeTypeDescriptor → Descriptor
  enumeration : EnumerationTypeDescriptor → Descriptor
  input_shape : InputShapeTypeDescriptor → Descriptor
  type_annotation : TypeAnnotationDescriptor → Descriptor

unfoldable pub descriptor_id : Descriptor → List ℕ
descriptor_id (set i) = i.id
descriptor_id (object_shape i) = i.id
descriptor_id (base_scalar i) = i.id
descriptor_id (scalar i) = i.id
descriptor_id (tuple i) = i.id
descriptor_id (named_tuple i) = i.id
descriptor_id (array i) = i.id
descriptor_id (range i) = i.id
descriptor_id (enumeration i) = i.id
descriptor_id (input_shape i) = i.id
descriptor_id (type_annotation i) = i.id
