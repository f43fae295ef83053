-- ===== src/Descriptors/Reads.antt =====
-- The decoders of descriptors.rs on the bytes of Descriptors.Wire.
use edgedb_rust.Base.{ℕ, ◌≤◌, ◌≡◌, refl, Bool, true, leb, List, [], ◌∷◌, ◌++◌, length, arith}
use edgedb_rust.Base.HashMap.{◌==◌, nat_eq}
use edgedb_rust.Wire.{Crates, to_be_bytes}
use edgedb_rust.Wire.Decoder.{
  Decoder, repeat, push_decoded, assert, ensure_remaining, take_or_panic, ◌>>=◌, ◌>>◌,
}
use edgedb_rust.Wire.Decoder.Reads.{
  Reads, Reads-pure, Reads->>=, Reads-map, Reads-ensure, Reads-u16, Reads-pushed, Reads-tag,
}
use edgedb_rust.Wire.Encoding.{decode_uuid}
use edgedb_rust.Wire.Encoding.RoundTrip.{
  IsU16, IsText, IsUuid, Reads-uuid, Reads-string, wire_bytes, lengths,
}
use edgedb_rust.Protocol.{ProtocolVersion}
use edgedb_rust.Descriptors.{
  SetDescriptor, ObjectShapeDescriptor, InputShapeTypeDescriptor, BaseScalarTypeDescriptor,
  ScalarTypeDescriptor, TupleTypeDescriptor, NamedTupleTypeDescriptor, ArrayTypeDescriptor,
  RangeTypeDescriptor, EnumerationTypeDescriptor, TypeAnnotationDescriptor,
}
use edgedb_rust.Descriptors.Wire.{
  wire_shape_element, wire_tuple_element, wire_type_pos, wire_dimension, wire_list, IsShapeElement,
  IsTupleElement, IsDimension, IsList,
}
use edgedb_rust.Descriptors.Decode.{
  decode_type_pos, decode_set_descriptor, decode_object_shape_descriptor,
  decode_input_shape_type_descriptor, decode_base_scalar_type_descriptor,
  decode_scalar_type_descriptor, decode_tuple_type_descriptor, decode_named_tuple_type_descriptor,
  decode_array_type_descriptor, decode_range_type_descriptor, decode_enumeration_type_descriptor,
  decode_type_annotation_descriptor,
}
use edgedb_rust.Descriptors.ReadsParts.{
  Reads-dimension, Reads-shape_element, Reads-tuple_element, Reads-type_pos, length-all,
  length-dimension,
}

module _ ⦃C : Crates⦄ where
  -- An identifier and a position behind a tag.
  Reads-reference :
      {B : Type 0} (test : ℕ → Bool) (t : ℕ) (f : List ℕ → ℕ → Decoder B) (id : List ℕ) (n : ℕ)
      {b : B}
      → test t ≡ true
      → IsUuid id
      → IsU16 n
      → Reads (f id n) [] b
      → Reads
          (ensure_remaining 19
            >> (take_or_panic C.get_u8 >>= λ k.
                assert (test k) >> (decode_uuid >>= λ id. take_or_panic C.get_u16 >>= f id)))
          (t ∷ (id ++ to_be_bytes 2 n))
          b
  Reads-reference test t f id n e hi hn r =
      Reads-ensure (omega lengths)
        (Reads-tag test _ t e (Reads->>= _ (Reads-uuid id hi) (Reads-map _ (Reads-u16 n hn) r)))

  -- An identifier, a count and what it counts, behind a tag.
  Reads-counted :
      {A B : Type 0} (test : ℕ → Bool) (t : ℕ) (one : Decoder A) (wire : A → List ℕ)
      (P : A → Type 0) (f : List ℕ → List A → Decoder B) (id : List ℕ) (xs : List A) {b : B}
      → test t ≡ true
      → IsUuid id
      → IsList P xs
      → ((x : A) → P x → Reads one (wire x) x)
      → Reads (f id xs) [] b
      → Reads
          (ensure_remaining 19
            >> (take_or_panic C.get_u8 >>= λ k.
                assert (test k)
                >> (decode_uuid >>= λ id.
                    take_or_panic C.get_u16 >>= λ n. repeat n (push_decoded one) [] >>= f id)))
          (t ∷ (id ++ wire_list wire xs))
          b
  Reads-counted test t one wire P f id xs e hi hx reads r = Reads-ensure (omega lengths) (
      Reads-tag test _ t e (
        Reads->>= _ (Reads-uuid id hi) (
          Reads->>= _ (Reads-u16 (length xs) hx.0)
            (Reads-map _ (Reads-pushed one wire P reads xs hx.1) r))))

  pub Reads-set :
      (d : SetDescriptor)
      → IsUuid d.id × IsU16 d.type_pos
      → Reads decode_set_descriptor (0 ∷ (d.id ++ to_be_bytes 2 d.type_pos)) d
  unfolding decode_set_descriptor decode_type_pos
  Reads-set d (hi, ht) = Reads-reference (λ k. k == 0) 0 _ d.id d.type_pos refl hi ht (Reads-pure d)

  pub Reads-scalar :
      (d : ScalarTypeDescriptor)
      → IsUuid d.id × IsU16 d.base_type_pos
      → Reads decode_scalar_type_descriptor (3 ∷ (d.id ++ to_be_bytes 2 d.base_type_pos)) d
  unfolding decode_scalar_type_descriptor decode_type_pos
  Reads-scalar d (hi, ht) =
      Reads-reference (λ k. k == 3) 3 _ d.id d.base_type_pos refl hi ht (Reads-pure d)

  pub Reads-range :
      (d : RangeTypeDescriptor)
      → IsUuid d.id × IsU16 d.type_pos
      → Reads decode_range_type_descriptor (9 ∷ (d.id ++ to_be_bytes 2 d.type_pos)) d
  unfolding decode_range_type_descriptor decode_type_pos
  Reads-range d (hi, ht) =
      Reads-reference (λ k. k == 9) 9 _ d.id d.type_pos refl hi ht (Reads-pure d)

  pub Reads-object_shape :
      (p : ProtocolVersion) (d : ObjectShapeDescriptor)
      → IsUuid d.id × IsList (IsShapeElement p) d.elements
      → Reads
          (decode_object_shape_descriptor p)
          (1 ∷ (d.id ++ wire_list wire_shape_element d.elements))
          d
  unfolding decode_object_shape_descriptor
  Reads-object_shape p d (hi, he) =
      Reads-counted (λ k. k == 1) 1 _ _ (IsShapeElement p) _ d.id d.elements refl hi he
        (Reads-shape_element p) (Reads-pure d)

  pub Reads-input_shape :
      (p : ProtocolVersion) (d : InputShapeTypeDescriptor)
      → IsUuid d.id × IsList (IsShapeElement p) d.elements
      → Reads
          (decode_input_shape_type_descriptor p)
          (8 ∷ (d.id ++ wire_list wire_shape_element d.elements))
          d
  unfolding decode_input_shape_type_descriptor
  Reads-input_shape p d (hi, he) =
      Reads-counted (λ k. k == 8) 8 _ _ (IsShapeElement p) _ d.id d.elements refl hi he
        (Reads-shape_element p) (Reads-pure d)

  pub Reads-named_tuple :
      (d : NamedTupleTypeDescriptor)
      → IsUuid d.id × IsList IsTupleElement d.elements
      → Reads decode_named_tuple_type_descriptor
          (5 ∷ (d.id ++ wire_list wire_tuple_element d.elements))
          d
  unfolding decode_named_tuple_type_descriptor
  Reads-named_tuple d (hi, he) =
      Reads-counted (λ k. k == 5) 5 _ _ IsTupleElement _ d.id d.elements refl hi he
        Reads-tuple_element (Reads-pure d)

  pub Reads-enumeration :
      (d : EnumerationTypeDescriptor)
      → IsUuid d.id × IsList IsText d.members
      → Reads decode_enumeration_type_descriptor (7 ∷ (d.id ++ wire_list wire_bytes d.members)) d
  unfolding decode_enumeration_type_descriptor
  Reads-enumeration d (hi, he) =
      Reads-counted (λ k. k == 7) 7 _ _ IsText _ d.id d.members refl hi he Reads-string
        (Reads-pure d)

  pub Reads-base_scalar :
      (d : BaseScalarTypeDescriptor)
      → IsUuid d.id
      → Reads decode_base_scalar_type_descriptor (2 ∷ d.id) d
  unfolding decode_base_scalar_type_descriptor
  Reads-base_scalar d hi =
      Reads-tag (λ k. k == 2) _ 2 refl (Reads-map _ (Reads-uuid d.id hi) (Reads-pure d))

  pub Reads-tuple :
      (d : TupleTypeDescriptor)
      → IsUuid d.id × IsList IsU16 d.element_types
      → Reads decode_tuple_type_descriptor (4 ∷ (d.id ++ wire_list wire_type_pos d.element_types)) d
  unfolding decode_tuple_type_descriptor
  Reads-tuple d (hi, (few, each)) = Reads-ensure (omega lengths) (
      Reads-tag (λ k. k == 4) _ 4 refl
        (Reads->>= _ (Reads-uuid d.id hi) (
          Reads->>= _ (Reads-u16 (length d.element_types) few) (
            Reads-ensure (length-all 2 _ d.element_types (λ t. omega lengths)) (
              Reads-map _ (Reads-pushed _ wire_type_pos IsU16 Reads-type_pos d.element_types each)
                (Reads-pure d))))))

  pub Reads-array :
      (d : ArrayTypeDescriptor)
      → IsUuid d.id × IsU16 d.type_pos × IsList IsDimension d.dimensions
      → Reads decode_array_type_descriptor
          (6 ∷ (d.id ++ (to_be_bytes 2 d.type_pos ++ wire_list wire_dimension d.dimensions)))
          d
  unfolding decode_array_type_descriptor
  Reads-array d (hi, ht, (few, each)) = Reads-ensure (omega lengths) (
      Reads-tag (λ k. k == 6) _ 6 refl
        (Reads->>= _ (Reads-uuid d.id hi) (
          Reads->>= _ (Reads-type_pos d.type_pos ht) (
            Reads->>= _ (Reads-u16 (length d.dimensions) few) (
              Reads-ensure (length-all 4 wire_dimension d.dimensions length-dimension) (
                Reads-map _
                  (Reads-pushed _ wire_dimension IsDimension Reads-dimension d.dimensions each)
                  (Reads-pure d)))))))

  pub Reads-type_annotation :
      (d : TypeAnnotationDescriptor)
      → IsUuid d.id × (0x7F ≤ d.annotated_type) × (d.annotated_type ≤ 0xFF) × IsText d.annotation
      → Reads decode_type_annotation_descriptor
          (d.annotated_type ∷ (d.id ++ wire_bytes d.annotation))
          d
  unfolding decode_type_annotation_descriptor
  Reads-type_annotation d (hi, lo, hi', ha) = Reads-ensure (omega lengths) (
      Reads-tag (leb 0x7F) _ d.annotated_type (ground arith) (
        Reads->>= _ (Reads-uuid d.id hi)
          (Reads-map _ (Reads-string d.annotation ha) (Reads-pure d))))
