-- ===== src/Descriptors/Takes.antt =====
-- How many bytes a descriptor of descriptors.rs takes.
use edgedb_rust.Base.{ℕ, ◌*◌, [], Bool, ◌&&◌, leb, List}
use edgedb_rust.Base.HashMap.{◌==◌, nat_eq}
use edgedb_rust.Wire.{Crates}
use edgedb_rust.Wire.Frame.{read_as}
use edgedb_rust.Wire.Decoder.{Decoder, repeat, push_decoded, take_or_panic, assert, ◌>>=◌, ◌>>◌}
use edgedb_rust.Wire.Decoder.Takes.{
  Takes, Takes-pure, Takes-fail, Takes-lift, Takes->>=, Takes->>, Takes-ensure, Takes-assert,
  Takes-be, Takes-copy, Takes-weaken, Takes-pushed, if-Takes, Takes-peek,
}
use edgedb_rust.Wire.Encoding.{decode_string, decode_uuid}
use edgedb_rust.Protocol.{ProtocolVersion, is_at_least, try_from_u8}
use edgedb_rust.Descriptors.{
  set, object_shape, input_shape, base_scalar, scalar, tuple, named_tuple, array, range,
  enumeration, type_annotation,
}
use edgedb_rust.Descriptors.Decode.{
  decode_type_pos, decode_set_descriptor, decode_element_flags, decode_shape_element,
  decode_object_shape_descriptor, decode_input_shape_type_descriptor,
  decode_base_scalar_type_descriptor, decode_scalar_type_descriptor, decode_tuple_type_descriptor,
  decode_tuple_element, decode_named_tuple_type_descriptor, decode_dimension,
  decode_array_type_descriptor, decode_range_type_descriptor, decode_enumeration_type_descriptor,
  decode_type_annotation_descriptor, decode_descriptor_body, decode_descriptor,
}

module _ ⦃C : Crates⦄ where
  Takes-u8 : Takes 1 (take_or_panic C.get_u8)
  Takes-u8 = Takes-be 1 C.get_u8 C.get_u8-GetsBe

  Takes-any8 : Takes 0 (take_or_panic C.get_u8)
  Takes-any8 = Takes-weaken 1 Takes-u8

  Takes-any16 : Takes 0 (take_or_panic C.get_u16)
  Takes-any16 = Takes-weaken 2 (Takes-be 2 C.get_u16 C.get_u16-GetsBe)

  Takes-any32 : Takes 0 (take_or_panic C.get_u32)
  Takes-any32 = Takes-weaken 4 (Takes-be 4 C.get_u32 C.get_u32-GetsBe)

  Takes-string : Takes 0 decode_string
  unfolding decode_string
  Takes-string = Takes->> (Takes-ensure 4) (
      Takes->>= _ Takes-any32 λ len. Takes->> (Takes-ensure len) (
        Takes->>= _ (Takes-weaken len (Takes-copy len C.copy_to_slice C.copy_to_slice-Copies))
          λ text. Takes-lift _))

  Takes-uuid : Takes 0 decode_uuid
  unfolding decode_uuid
  Takes-uuid = Takes->> (Takes-ensure 16) (
      Takes->>= _ (Takes-weaken 16 (Takes-copy 16 C.copy_to_slice C.copy_to_slice-Copies))
        λ bytes. Takes-lift _)

  Takes-type_pos : Takes 0 decode_type_pos
  unfolding decode_type_pos
  Takes-type_pos = Takes-any16

  Takes-element_flags : (p : ProtocolVersion) → Takes 0 (decode_element_flags p)
  unfolding decode_element_flags
  Takes-element_flags p =
      if-Takes (is_at_least p 0 11)
        (Takes->>= _ Takes-any32 λ flags.
          Takes->>= _ Takes-any8 λ c. Takes->>= _ (Takes-lift (try_from_u8 c)) λ x. Takes-pure _)
        (Takes->>= _ Takes-any8 λ flags. Takes-pure _)

  Takes-shape_element : (p : ProtocolVersion) → Takes 0 (decode_shape_element p)
  unfolding decode_shape_element
  Takes-shape_element p = Takes->> (Takes-ensure 7) (
      Takes->>= _ (Takes-element_flags p) λ flags.
        Takes->>= _ Takes-string
          λ name. Takes->> (Takes-ensure 2) (Takes->>= _ Takes-type_pos λ t. Takes-pure _))

  Takes-tuple_element : Takes 0 decode_tuple_element
  unfolding decode_tuple_element
  Takes-tuple_element =
      Takes->>= _ Takes-string
        λ name. Takes->> (Takes-ensure 2) (Takes->>= _ Takes-type_pos λ t. Takes-pure _)

  Takes-dimension : Takes 0 decode_dimension
  unfolding decode_dimension
  Takes-dimension = Takes->>= _ Takes-any32 λ n. Takes-lift _

  -- The tag, and the identifier behind it.
  Takes-tag :
      {A : Type 0} (test : ℕ → Bool) (f : ℕ → List ℕ → Decoder A)
      → ((k : ℕ) (id : List ℕ) → Takes 0 (f k id))
      → Takes 1 (take_or_panic C.get_u8 >>= λ k. assert (test k) >> (decode_uuid >>= f k))
  Takes-tag test f s =
      Takes->>= _ Takes-u8 λ k. Takes->> (Takes-assert (test k)) (Takes->>= _ Takes-uuid (s k))

  Takes-counted :
      {A B : Type 0} (d : Decoder A) (f : List A → Decoder B)
      → Takes 0 d
      → ((items : List A) → Takes 0 (f items))
      → Takes 0 (take_or_panic C.get_u16 >>= λ n. repeat n (push_decoded d) [] >>= f)
  Takes-counted d f one s = Takes->>= _ Takes-any16 λ n. Takes->>= _ (Takes-pushed d n one) s

  Takes-set : Takes 1 decode_set_descriptor
  unfolding decode_set_descriptor
  Takes-set =
      Takes->> (Takes-ensure 19)
        (Takes-tag _ _ λ k id. Takes->>= _ Takes-type_pos λ t. Takes-pure _)

  Takes-object_shape : (p : ProtocolVersion) → Takes 1 (decode_object_shape_descriptor p)
  unfolding decode_object_shape_descriptor
  Takes-object_shape p =
      Takes->> (Takes-ensure 19)
        (Takes-tag _ _ λ k id. Takes-counted _ _ (Takes-shape_element p) λ items. Takes-pure _)

  Takes-input_shape : (p : ProtocolVersion) → Takes 1 (decode_input_shape_type_descriptor p)
  unfolding decode_input_shape_type_descriptor
  Takes-input_shape p =
      Takes->> (Takes-ensure 19)
        (Takes-tag _ _ λ k id. Takes-counted _ _ (Takes-shape_element p) λ items. Takes-pure _)

  Takes-base_scalar : Takes 1 decode_base_scalar_type_descriptor
  unfolding decode_base_scalar_type_descriptor
  Takes-base_scalar = Takes-tag _ _ λ k id. Takes-pure _

  Takes-scalar : Takes 1 decode_scalar_type_descriptor
  unfolding decode_scalar_type_descriptor
  Takes-scalar =
      Takes->> (Takes-ensure 19)
        (Takes-tag _ _ λ k id. Takes->>= _ Takes-type_pos λ t. Takes-pure _)

  Takes-tuple : Takes 1 decode_tuple_type_descriptor
  unfolding decode_tuple_type_descriptor
  Takes-tuple = Takes->> (Takes-ensure 19) (
      Takes-tag _ _ λ k id. Takes->>= _ Takes-any16 λ n.
        Takes->> (Takes-ensure (2 * n))
          (Takes->>= _ (Takes-pushed _ n Takes-type_pos) λ items. Takes-pure _))

  Takes-named_tuple : Takes 1 decode_named_tuple_type_descriptor
  unfolding decode_named_tuple_type_descriptor
  Takes-named_tuple =
      Takes->> (Takes-ensure 19)
        (Takes-tag _ _ λ k id. Takes-counted _ _ Takes-tuple_element λ items. Takes-pure _)

  Takes-array : Takes 1 decode_array_type_descriptor
  unfolding decode_array_type_descriptor
  Takes-array = Takes->> (Takes-ensure 21) (
      Takes-tag _ _ λ k id. Takes->>= _ Takes-type_pos λ t. Takes->>= _ Takes-any16 λ n.
        Takes->> (Takes-ensure (4 * n))
          (Takes->>= _ (Takes-pushed _ n Takes-dimension) λ items. Takes-pure _))

  Takes-range : Takes 1 decode_range_type_descriptor
  unfolding decode_range_type_descriptor
  Takes-range =
      Takes->> (Takes-ensure 19)
        (Takes-tag _ _ λ k id. Takes->>= _ Takes-type_pos λ t. Takes-pure _)

  Takes-enumeration : Takes 1 decode_enumeration_type_descriptor
  unfolding decode_enumeration_type_descriptor
  Takes-enumeration =
      Takes->> (Takes-ensure 19)
        (Takes-tag _ _ λ k id. Takes-counted _ _ Takes-string λ items. Takes-pure _)

  Takes-type_annotation : Takes 1 decode_type_annotation_descriptor
  unfolding decode_type_annotation_descriptor
  Takes-type_annotation =
      Takes->> (Takes-ensure 21)
        (Takes-tag _ _ λ k id. Takes->>= _ Takes-string λ text. Takes-pure _)

  Takes-read_as : {A B : Type 0} (f : A → B) {d : Decoder A} → Takes 1 d → Takes 1 (read_as f d)
  unfolding read_as
  Takes-read_as f s = Takes->>= _ s λ a. Takes-pure _

  Takes-body : (p : ProtocolVersion) (t : ℕ) → Takes 1 (decode_descriptor_body p t)
  unfolding decode_descriptor_body
  Takes-body p t = if-Takes (t == 0) (Takes-read_as set Takes-set) (
      if-Takes (t == 1) (Takes-read_as object_shape (Takes-object_shape p)) (
        if-Takes (t == 2) (Takes-read_as base_scalar Takes-base_scalar) (
          if-Takes (t == 3) (Takes-read_as scalar Takes-scalar) (
            if-Takes (t == 4) (Takes-read_as tuple Takes-tuple) (
              if-Takes (t == 5) (Takes-read_as named_tuple Takes-named_tuple) (
                if-Takes (t == 6) (Takes-read_as array Takes-array) (
                  if-Takes (t == 7) (Takes-read_as enumeration Takes-enumeration) (
                    if-Takes (t == 8) (Takes-read_as input_shape (Takes-input_shape p)) (
                      if-Takes (t == 9) (Takes-read_as range Takes-range) (
                        if-Takes (leb 0x7F t && leb t 0xFF)
                          (Takes-read_as type_annotation Takes-type_annotation)
                          (Takes-fail 1 _)))))))))))

  pub Takes-descriptor : (p : ProtocolVersion) → Takes 1 (decode_descriptor p)
  unfolding decode_descriptor
  Takes-descriptor p = Takes->> (Takes-ensure 1) (Takes->>= _ Takes-peek (Takes-body p))
