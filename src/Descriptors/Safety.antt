-- ===== src/Descriptors/Safety.antt =====
-- The decoders of descriptors.rs on any bytes.
use edgedb_rust.Base.{
  ℕ, ◌+◌, ◌*◌, ◌≡◌, ◌≢◌, Bool, true, ◌&&◌, leb, List, [], ◌∷◌, panic, length, arith,
}
use edgedb_rust.Base.HashMap.{◌==◌, nat_eq, list_eq}
use edgedb_rust.Wire.{Crates}
use edgedb_rust.Wire.Frame.{Leaves-read_as}
use edgedb_rust.Wire.Decoder.{Decoder, ensure_remaining, take_or_panic, assert, ◌>>=◌, ◌>>◌}
use edgedb_rust.Wire.Decoder.Safe.{
  Safe, Leaves, Safe-pure, Safe-fail, Safe-lift, Safe-weaken, Safe->>=, Safe->>, Safe-ensure,
  Safe-u8, Safe-u16, Safe-u32, Safe-pushed_exact, Safe-pushed, Safe-tag, Leaves-tag, Leaves-peek,
  Leaves-ne-panic, if-Safe, if-Leaves,
}
use edgedb_rust.Wire.Encoding.{decode_uuid}
use edgedb_rust.Wire.Encoding.Safety.{Safe-string, Safe-uuid, Safe-uuid_exact}
use edgedb_rust.Protocol.{ProtocolVersion, is_at_least, cardinality-ne-panic}
use edgedb_rust.Time.Int.{ℤ, pos, negsuc, as_i32}
use edgedb_rust.Descriptors.Decode.{
  dimension, decode_type_pos, decode_set_descriptor, decode_element_flags, decode_shape_element,
  decode_object_shape_descriptor, decode_input_shape_type_descriptor,
  decode_base_scalar_type_descriptor, decode_scalar_type_descriptor, decode_tuple_type_descriptor,
  decode_tuple_element, decode_named_tuple_type_descriptor, decode_dimension,
  decode_array_type_descriptor, decode_range_type_descriptor, decode_enumeration_type_descriptor,
  decode_type_annotation_descriptor, decode_descriptor_body, decode_descriptor,
}

dimension-ne-panic : (n : ℤ) → dimension n ≢ panic
unfolding dimension
dimension-ne-panic (pos n) e = ground arith
dimension-ne-panic (negsuc n) e = ground arith

one_there : (t : ℕ) (bs : List ℕ) → leb 1 (length (t ∷ bs)) ≡ true
one_there t bs = ground arith

module _ ⦃C : Crates⦄ where
  Safe-type_pos : (m : ℕ) → Safe (2 + m) m decode_type_pos
  unfolding decode_type_pos
  Safe-type_pos m = Safe-u16 m

  Safe-element_flags : (p : ProtocolVersion) → Safe 7 0 (decode_element_flags p)
  unfolding decode_element_flags
  Safe-element_flags p =
      if-Safe (is_at_least p 0 11)
        (λ _. Safe->>= _ (Safe-u32 3) λ flags. Safe->>= _ (Safe-u8 2) λ c.
          Safe->>= _ (Safe-lift 2 (cardinality-ne-panic c))
            λ x. Safe-weaken 2 0 (omega arith) (omega arith) (Safe-pure 0 _))
        (λ _.
          Safe->>= _ (Safe-u8 6)
            λ flags. Safe-weaken 6 0 (omega arith) (omega arith) (Safe-pure 0 _))

  Safe-shape_element : (p : ProtocolVersion) → Safe 0 0 (decode_shape_element p)
  unfolding decode_shape_element
  Safe-shape_element p = Safe->> (Safe-ensure 0 7) (
      Safe->>= _ (Safe-element_flags p) λ flags.
        Safe->>= _ Safe-string
          λ name. Safe->> (Safe-ensure 0 2) (Safe->>= _ (Safe-type_pos 0) λ t. Safe-pure 0 _))

  Safe-tuple_element : Safe 0 0 decode_tuple_element
  unfolding decode_tuple_element
  Safe-tuple_element =
      Safe->>= _ Safe-string
        λ name. Safe->> (Safe-ensure 0 2) (Safe->>= _ (Safe-type_pos 0) λ t. Safe-pure 0 _)

  -- An identifier, and a position or a count behind it, in the eighteen bytes behind a tag.
  Safe-id_u16 :
      {B : Type 0} {f : List ℕ → ℕ → Decoder B}
      → ((id : List ℕ) (n : ℕ) → Safe 0 0 (f id n))
      → Safe 18 0 (decode_uuid >>= λ id. take_or_panic C.get_u16 >>= f id)
  Safe-id_u16 s = Safe->>= _ (Safe-uuid_exact 2) λ id. Safe->>= _ (Safe-u16 0) λ n. s id n

  Safe-dimension : (m : ℕ) → Safe (4 + m) m decode_dimension
  unfolding decode_dimension
  Safe-dimension m = Safe->>= _ (Safe-u32 m) λ n. Safe-lift m (dimension-ne-panic (as_i32 (pos n)))

  -- A descriptor that is an identifier and a position.
  Safe-reference :
      {A : Type 0} (test : ℕ → Bool) (f : List ℕ → ℕ → Decoder A) (t : ℕ) (bs : List ℕ)
      → test t ≡ true
      → ((id : List ℕ) (n : ℕ) → Safe 0 0 (f id n))
      → Leaves 0 (
          (ensure_remaining 19
              >> (take_or_panic C.get_u8 >>= λ k.
                  assert (test k) >> (decode_uuid >>= λ id. take_or_panic C.get_u16 >>= f id)))
            (t ∷ bs))
  Safe-reference test f t bs e s = Safe-tag 19 18 t test (λ _. _) e (omega arith) (Safe-id_u16 s) bs

  Leaves-set : (t : ℕ) (bs : List ℕ) → (t == 0) ≡ true → Leaves 0 (decode_set_descriptor (t ∷ bs))
  unfolding decode_set_descriptor decode_type_pos
  Leaves-set t bs e = Safe-reference _ _ t bs e λ id n. Safe-pure 0 _

  Leaves-scalar :
      (t : ℕ) (bs : List ℕ) → (t == 3) ≡ true → Leaves 0 (decode_scalar_type_descriptor (t ∷ bs))
  unfolding decode_scalar_type_descriptor decode_type_pos
  Leaves-scalar t bs e = Safe-reference _ _ t bs e λ id n. Safe-pure 0 _

  Leaves-range :
      (t : ℕ) (bs : List ℕ) → (t == 9) ≡ true → Leaves 0 (decode_range_type_descriptor (t ∷ bs))
  unfolding decode_range_type_descriptor decode_type_pos
  Leaves-range t bs e = Safe-reference _ _ t bs e λ id n. Safe-pure 0 _

  Leaves-object_shape :
      (p : ProtocolVersion) (t : ℕ) (bs : List ℕ)
      → (t == 1) ≡ true
      → Leaves 0 (decode_object_shape_descriptor p (t ∷ bs))
  unfolding decode_object_shape_descriptor
  Leaves-object_shape p t bs e =
      Safe-reference _ _ t bs e
        λ id n. Safe->>= _ (Safe-pushed _ n (Safe-shape_element p)) λ elements. Safe-pure 0 _

  Leaves-input_shape :
      (p : ProtocolVersion) (t : ℕ) (bs : List ℕ)
      → (t == 8) ≡ true
      → Leaves 0 (decode_input_shape_type_descriptor p (t ∷ bs))
  unfolding decode_input_shape_type_descriptor
  Leaves-input_shape p t bs e =
      Safe-reference _ _ t bs e
        λ id n. Safe->>= _ (Safe-pushed _ n (Safe-shape_element p)) λ elements. Safe-pure 0 _

  Leaves-named_tuple :
      (t : ℕ) (bs : List ℕ)
      → (t == 5) ≡ true
      → Leaves 0 (decode_named_tuple_type_descriptor (t ∷ bs))
  unfolding decode_named_tuple_type_descriptor
  Leaves-named_tuple t bs e =
      Safe-reference _ _ t bs e
        λ id n. Safe->>= _ (Safe-pushed _ n Safe-tuple_element) λ elements. Safe-pure 0 _

  Leaves-enumeration :
      (t : ℕ) (bs : List ℕ)
      → (t == 7) ≡ true
      → Leaves 0 (decode_enumeration_type_descriptor (t ∷ bs))
  unfolding decode_enumeration_type_descriptor
  Leaves-enumeration t bs e =
      Safe-reference _ _ t bs e
        λ id n. Safe->>= _ (Safe-pushed _ n Safe-string) λ members. Safe-pure 0 _

  Leaves-tuple :
      (t : ℕ) (bs : List ℕ) → (t == 4) ≡ true → Leaves 0 (decode_tuple_type_descriptor (t ∷ bs))
  unfolding decode_tuple_type_descriptor
  Leaves-tuple t bs e = Safe-reference _ _ t bs e λ id n.
      Safe->> (Safe-ensure 0 (2 * n))
        (Safe->>= _ (Safe-pushed_exact 2 n decode_type_pos Safe-type_pos) λ types. Safe-pure 0 _)

  Leaves-array :
      (t : ℕ) (bs : List ℕ) → (t == 6) ≡ true → Leaves 0 (decode_array_type_descriptor (t ∷ bs))
  unfolding decode_array_type_descriptor
  Leaves-array t bs e =
      Safe-tag 21 20 t (λ k. k == 6) (λ _. _) e (omega arith)
        (Safe->>= _ (Safe-uuid_exact 4) λ id. Safe->>= _ (Safe-type_pos 2) λ type_pos.
          Safe->>= _ (Safe-u16 0) λ n. Safe->> (Safe-ensure 0 (4 * n)) (
            Safe->>= _ (Safe-pushed_exact 4 n decode_dimension Safe-dimension)
              λ dims. Safe-pure 0 _))
        bs

  Leaves-type_annotation :
      (t : ℕ) (bs : List ℕ)
      → leb 0x7F t ≡ true
      → Leaves 0 (decode_type_annotation_descriptor (t ∷ bs))
  unfolding decode_type_annotation_descriptor
  Leaves-type_annotation t bs e =
      Safe-tag 21 20 t (leb 0x7F) (λ _. _) e (omega arith)
        (Safe-weaken 20 0 (omega arith) (omega arith)
          (Safe->>= _ Safe-uuid λ id. Safe->>= _ Safe-string λ text. Safe-pure 0 _))
        bs

  Leaves-base_scalar :
      (t : ℕ) (bs : List ℕ)
      → (t == 2) ≡ true
      → Leaves 0 (decode_base_scalar_type_descriptor (t ∷ bs))
  unfolding decode_base_scalar_type_descriptor
  Leaves-base_scalar t bs e =
      Leaves-tag t (λ k. k == 2) (λ _. _) e (Safe->>= _ Safe-uuid λ id. Safe-pure 0 _) bs

  Leaves-body :
      (p : ProtocolVersion) (t : ℕ) (bs : List ℕ) → Leaves 0 (decode_descriptor_body p t (t ∷ bs))
  unfolding decode_descriptor_body
  Leaves-body p t bs =
      if-Leaves (t == 0) _ _ (t ∷ bs) (λ e. Leaves-read_as _ _ _ (Leaves-set t bs e))
        λ _.
          if-Leaves (t == 1) _ _ (t ∷ bs) (λ e. Leaves-read_as _ _ _ (Leaves-object_shape p t bs e))
            λ _.
              if-Leaves (t == 2) _ _ (t ∷ bs)
                (λ e. Leaves-read_as _ _ _ (Leaves-base_scalar t bs e))
                λ _.
                  if-Leaves (t == 3) _ _ (t ∷ bs) (λ e. Leaves-read_as _ _ _ (Leaves-scalar t bs e))
                    λ _.
                      if-Leaves (t == 4) _ _ (t ∷ bs)
                        (λ e. Leaves-read_as _ _ _ (Leaves-tuple t bs e))
                        λ _.
                          if-Leaves (t == 5) _ _ (t ∷ bs)
                            (λ e. Leaves-read_as _ _ _ (Leaves-named_tuple t bs e))
                            λ _.
                              if-Leaves (t == 6) _ _ (t ∷ bs)
                                (λ e. Leaves-read_as _ _ _ (Leaves-array t bs e))
                                λ _.
                                  if-Leaves (t == 7) _ _ (t ∷ bs)
                                    (λ e. Leaves-read_as _ _ _ (Leaves-enumeration t bs e))
                                    λ _.
                                      if-Leaves (t == 8) _ _ (t ∷ bs)
                                        (λ e. Leaves-read_as _ _ _ (Leaves-input_shape p t bs e))
                                        λ _.
                                          if-Leaves (t == 9) _ _ (t ∷ bs)
                                            (λ e. Leaves-read_as _ _ _ (Leaves-range t bs e))
                                            λ _.
                                              if-Leaves (leb 0x7F t && leb t 0xFF) _ _ (t ∷ bs)
                                                (λ e.
                                                  Leaves-read_as _ _ _
                                                    (Leaves-type_annotation t bs (ground arith)))
                                                λ _. (Safe-fail 0 0 _).leaves (t ∷ bs) (omega arith)

  -- `Descriptor::decode` does not panic on any input.
  pub decode_descriptor-ne-panic :
      (p : ProtocolVersion) (bs : List ℕ) → decode_descriptor p bs ≢ panic
  unfolding decode_descriptor ensure_remaining ◌>>◌
  decode_descriptor-ne-panic p [] e = cc
  decode_descriptor-ne-panic p (t ∷ bs) e = Leaves-ne-panic _ checked e
    where
      checked : Leaves 0 (decode_descriptor p (t ∷ bs))
      checked =
          rw (one_there t bs, ◌>>◌, ensure_remaining)
            (Leaves-peek (decode_descriptor_body p) t bs (Leaves-body p t bs))
