-- ===== src/Codecs/Completeness.antt =====
-- The codecs that codec.rs builds on the values of the types that they are built for: what an
-- encoder does however it is built.
use edgedb_rust.Base.{
  ◌+◌, ◌≤◌, arith, ℕ, ◌^◌, ◌≡◌, refl, Bool, true, false, List, [], ◌∷◌, Option, none, some, ok,
  length, All, ==_iff,
}
use edgedb_rust.Base.HashMap.{nat_eq, list_eq, list_beq_iff}
use edgedb_rust.Wire.{Crates, too_many_elements}
use edgedb_rust.Wire.Encoder.{Encoder}
use edgedb_rust.Descriptors
use edgedb_rust.Descriptors.{Descriptor, TypePos}
use edgedb_rust.Protocol.{Cardinality, cardinality_u8}
use edgedb_rust.Codecs.{
  Codec, Value, Values, Element, ObjectShape, NamedTupleShape, Slot, Slots, named_tuple, object,
  enum,
}
use edgedb_rust.Codecs.Collections.{
  equal_names, set_codec, array_codec, derived_scalar_codec, encode_named_tuple_value, tuple_codec,
  named_tuple_codec, encode_bound, encode_range_value, range_codec, encode_enum_value, enum_codec,
  contains,
}
use edgedb_rust.Codecs.Objects.{
  equal_bools, equal_cardinalities, equal_elements, equal_shapes, encode_object_value, object_codec,
}
use edgedb_rust.Codecs.Build.{build, shape_of, names_of}
use edgedb_rust.Codecs.Size.{size, sizes, slot_size, slot_sizes, count_slots-le}
use edgedb_rust.Codecs.Encodes.{
  Encodes, Encodes-mono, Encodes-u8, Encodes-extend, Encodes-done, Encodes->>, Encodes-checked,
}
use edgedb_rust.Codecs.Typing.{HasType, HaveTypes, SlotHasType, SlotsHaveTypes, not_there, there}
use edgedb_rust.Codecs.Inversion.{HasType-DescribedBy}
use edgedb_rust.Codecs.ScalarEncodes.{scalar-Encodes}
use edgedb_rust.Codecs.EncodedTyping.{
  EncodesTyped, AllEncode, Encodes-array_like, Encodes-array_items, Encodes-set_like, Encodes-part,
  Encodes-adapter, Encodes-tuple_value, Encodes-tuple, Encodes-slots, count_lem, count_slots_lem,
}
use edgedb_rust.Codecs.BuiltTotal.{IsOutput, IsOutput-at}
use edgedb_rust.Codecs.Derivation.{
  IsCodec, AreCodecs, of_base_scalar, of_set, of_array_set, of_array, of_scalar, of_tuple,
  of_named_tuple, of_object, of_input, of_range, of_enum, no_codec, one_codec, build-IsCodec,
}

equal_names_refl : (names : NamedTupleShape) → equal_names names names ≡ true
unfolding equal_names
equal_names_refl [] = refl
equal_names_refl (x ∷ xs) = rw ((list_beq_iff x x).1 refl, equal_names_refl xs) refl

equal_bools_refl : (b : Bool) → equal_bools b b ≡ true
unfolding equal_bools
equal_bools_refl true = refl
equal_bools_refl false = refl

equal_cardinalities_refl : (c : Option Cardinality) → equal_cardinalities c c ≡ true
unfolding equal_cardinalities
equal_cardinalities_refl none = refl
equal_cardinalities_refl (some c) = (==_iff (cardinality_u8 c) (cardinality_u8 c)).1 refl

equal_elements_refl : (e : Element) → equal_elements e e ≡ true
unfolding equal_elements
equal_elements_refl e =
    rw
      (
        equal_bools_refl e.flag_implicit,
        equal_bools_refl e.flag_link_property,
        equal_bools_refl e.flag_link,
        equal_cardinalities_refl e.cardinality,
        (list_beq_iff e.name e.name).1 refl,
      )
      refl

equal_shapes_refl : (shape : ObjectShape) → equal_shapes shape shape ≡ true
unfolding equal_shapes
equal_shapes_refl [] = refl
equal_shapes_refl (e ∷ es) = rw (equal_elements_refl e, equal_shapes_refl es) refl

module _ ⦃C : Crates⦄ (ds : List Descriptor) where
  Encodes-named_tuple :
      (shape : NamedTupleShape) (ts : List TypePos) (cs : List Codec) (vs : Values)
      → HaveTypes ds ts vs
      → AllEncode ds ts cs
      → Encodes
          (4 + sizes 8 vs)
          (4 + sizes 8 vs)
          (encode_named_tuple_value shape cs (named_tuple shape vs))
  unfolding encode_named_tuple_value
  Encodes-named_tuple shape ts cs vs k h =
      rw (equal_names_refl shape, count_lem ds ts cs vs k h) (Encodes-tuple ds ts cs vs k h)

  Encodes-object :
      (shape : ObjectShape) (ts : List TypePos) (cs : List Codec) (xs : Slots)
      → SlotsHaveTypes ds ts xs
      → AllEncode ds ts cs
      → Encodes
          (4 + slot_sizes xs)
          (4 + slot_sizes xs)
          (encode_object_value shape cs (object shape xs))
  unfolding encode_object_value
  Encodes-object shape ts cs xs k h =
      let whole = 4 + slot_sizes xs in
      let same = (==_iff _ _).0 (count_slots_lem ds ts cs xs k h) in
      let many = count_slots-le xs in
      rw (equal_shapes_refl shape, count_slots_lem ds ts cs xs k h)
        (Encodes->> whole
          (Encodes-checked whole 4 (2 ^ 32) too_many_elements C.put_u32 (length cs) C.put_u32-PutsBe
            (λ long. omega (arith, many, same)))
          (Encodes-slots ds whole ts cs xs (omega arith) k h))

  Encodes-bound :
      (whole : ℕ) (t : TypePos) (one : Value → Encoder) (x : Slot)
      → slot_size x ≤ whole
      → SlotHasType ds t x
      → EncodesTyped ds t one
      → Encodes whole (slot_size x) (encode_bound one x)
  unfolding encode_bound
  Encodes-bound whole t one _ l not_there h =
      Encodes-mono (omega arith) (omega arith) (Encodes-done whole)
  Encodes-bound whole t one _ l (there {v = v} k) h =
      Encodes-part ds (2 ^ 32) (size v) (omega arith) (omega arith) (h _ k)

  Encodes-enum :
      (members : List (List ℕ)) (name : List ℕ)
      → contains members name ≡ true
      → Encodes (length name) (length name) (encode_enum_value members (enum name))
  unfolding encode_enum_value
  Encodes-enum members name h = rw (h) (Encodes-extend _ name)

  module _ (outputs : All IsOutput ds) where
    mutual
      unfolding set_codec array_codec derived_scalar_codec tuple_codec named_tuple_codec
          object_codec range_codec enum_codec encode_range_value

      Encodes-typed : (t : TypePos) (c : Codec) → IsCodec ds t c → EncodesTyped ds t c.encode
      Encodes-typed t c (of_base_scalar d q h) v k =
          scalar-Encodes d.id v c (HasType-DescribedBy ds t v _ q k) h
      Encodes-typed t _ (of_set {c = c} d q h) v k =
          let (vs, e, ks) = HasType-DescribedBy ds t v _ q k in
          rw (e) (Encodes-set_like ds d.type_pos c.encode vs (Encodes-typed _ c h) ks)
      Encodes-typed t _ (of_array_set {c = c} d a q p h) v k =
          let (vs, e, ks) = HasType-DescribedBy ds t v _ q k in
          rw (e) (
            Encodes-array_like ds 12 d.type_pos _ vs
              (Encodes-adapter ds d.type_pos (array_codec c) λ w l.
                let (ws, f, ls) = HasType-DescribedBy ds d.type_pos w _ p l in
                rw (f) (Encodes-array_items ds a.type_pos c.encode ws (Encodes-typed _ c h) ls))
              ks)
      Encodes-typed t _ (of_array {c = c} d q h) v k =
          let (vs, e, ks) = HasType-DescribedBy ds t v _ q k in
          rw (e) (Encodes-array_items ds d.type_pos c.encode vs (Encodes-typed _ c h) ks)
      Encodes-typed t _ (of_scalar {c = c} d q h) v k =
          Encodes-typed _ c h v (HasType-DescribedBy ds t v _ q k)
      Encodes-typed t _ (of_tuple {cs = cs} d q hs) v k =
          let (vs, e, ks) = HasType-DescribedBy ds t v _ q k in
          rw (e) (Encodes-tuple_value ds _ cs vs ks (all_encode _ cs hs))
      Encodes-typed t _ (of_named_tuple {cs = cs} d q hs) v k =
          let (vs, e, ks) = HasType-DescribedBy ds t v _ q k in
          rw (e) (Encodes-named_tuple (names_of d.elements) _ cs vs ks (all_encode _ cs hs))
      Encodes-typed t _ (of_object {cs = cs} d q hs) v k =
          let (xs, e, ks) = HasType-DescribedBy ds t v _ q k in
          rw (e) (Encodes-object (shape_of d.elements) _ cs xs ks (all_encode _ cs hs))
      Encodes-typed t _ (of_input d q hs) v k =
          absurd (IsOutput-at ds t (Descriptors.input_shape d) outputs q)
      Encodes-typed t _ (of_range {c = c} d q h) v k =
          let (lower, upper, inc_lower, inc_upper, empty, e, kl, ku) =
            HasType-DescribedBy ds t v _ q k in
          rw (e) (
            let whole = 1 + (slot_size lower + slot_size upper) in
            Encodes->> whole (Encodes-u8 _ _) (
              Encodes->> whole
                (Encodes-bound whole d.type_pos c.encode lower (omega arith) kl
                  (Encodes-typed _ c h))
                (Encodes-bound whole d.type_pos c.encode upper (omega arith) ku
                  (Encodes-typed _ c h))))
      Encodes-typed t _ (of_enum d q) v k =
          let (name, e, h) = HasType-DescribedBy ds t v _ q k in
          rw (e) (Encodes-enum d.members name h)

      all_encode : (ts : List TypePos) (cs : List Codec) → AreCodecs ds ts cs → AllEncode ds ts cs
      all_encode _ _ no_codec = tt
      all_encode _ _ (one_codec {c = c} {cs = cs} h hs) = (Encodes-typed _ c h, all_encode _ cs hs)

  -- The same of a codec that is built for a type.
  pub encode-HasType :
      (fuel : ℕ) (t : TypePos) (c : Codec) (v : Value)
      → All IsOutput ds
      → build fuel ds t ≡ some (ok c)
      → HasType ds t v
      → Encodes (size v) (size v) (c.encode v)
  encode-HasType fuel t c v o e k = Encodes-typed o t c (build-IsCodec ds fuel t c e) v k
