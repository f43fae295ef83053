-- ===== src/Descriptors/Tests.antt =====
-- Runs of the decoders of descriptors.rs over the plain implementation of the crates, and the
-- theorems at concrete inputs.
use edgedb_rust.Base.{◌≡◌, refl, true, false, List, [], ◌∷◌, none, some, ok}
use edgedb_rust.Base.HashMap.{list_beq}
use edgedb_rust.Wire.Reference.{crates}
use edgedb_rust.Protocol.{ProtocolVersion, Cardinality}
use edgedb_rust.Descriptors.{
  Descriptor, object_shape, base_scalar, tuple, array, type_annotation, descriptor_id,
}
use edgedb_rust.Descriptors.Typedesc.{
  InputTypedesc, uuid_of_byte, position, root_position, decode_with_id, decode_input,
  is_empty_tuple, root, is_nil,
}
use edgedb_rust.Descriptors.Termination.{Returns, decode_with_root-Returns}
use edgedb_rust.Descriptors.RoundTrip.{kept}

abbrev v1 : ProtocolVersion
v1 = record { major_ver = 1; minor_ver = 0 }

-- A scalar, an annotation of it, an array of it, and an object with the array.
abbrev shapes : List Descriptor
shapes =
    base_scalar (record { id = uuid_of_byte 5 })
    ∷ type_annotation
        (record { annotated_type = 0xFF; id = uuid_of_byte 5; annotation = 0x61 ∷ [] })
    ∷ array (record { id = uuid_of_byte 6; type_pos = 0; dimensions = none ∷ some 3 ∷ [] })
    ∷ object_shape (record {
      id = uuid_of_byte 7;
      elements =
          record {
            flag_implicit = true;
            flag_link_property = false;
            flag_link = true;
            cardinality = some Cardinality.many;
            name = 0x78 ∷ [];
            type_pos = 1;
          }
          ∷ [];
    })
    ∷ []

shapes_root : root_position (uuid_of_byte 7) (kept shapes) ≡ ok (some 2)
unfolding root_position position kept descriptor_id list_beq
shapes_root = refl

decode_with_root-Returns_example :
    Returns (decode_with_id ⦃C = crates⦄ (uuid_of_byte 1) v1 (7 ∷ 200 ∷ []))
    × Returns (decode_input ⦃C = crates⦄ (uuid_of_byte 1) v1 (7 ∷ 200 ∷ []))
decode_with_root-Returns_example =
    decode_with_root-Returns ⦃C = crates⦄ (uuid_of_byte 1) v1 (7 ∷ 200 ∷ [])

-- The description of no arguments is the empty tuple with its own identifier.
abbrev no_arguments : InputTypedesc
no_arguments = record {
  proto = v1;
  descriptors = tuple (record { id = uuid_of_byte 0xFF; element_types = [] }) ∷ [];
  root_id = uuid_of_byte 0xFF;
  root_pos = some 0;
}

no_arguments_empty : is_empty_tuple no_arguments ≡ true
unfolding is_empty_tuple root is_nil list_beq
no_arguments_empty = refl
