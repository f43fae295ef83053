-- ===== src/Codecs/Inversion.antt =====
-- What the descriptor of a type says about the values of the type.
use edgedb_rust.Base.{ℕ, ◌≡◌, refl, sym, ◌∙◌, Bool, true, List, some, some-injective, get_elem?}
use edgedb_rust.Descriptors
use edgedb_rust.Descriptors.{Descriptor, TypePos}
use edgedb_rust.Codecs.{
  Value, Values, Slot, Slots, Fields, enum, set, array, tuple, named_tuple, object, sparse_object,
  range,
}
use edgedb_rust.Codecs.Collections.{contains}
use edgedb_rust.Codecs.Build.{shape_of, names_of}
use edgedb_rust.Codecs.Typing.{
  IsScalar, HasType, HaveType, HaveTypes, SlotHasType, SlotsHaveTypes, FieldsHaveTypes, base_scalar,
  scalar, enumeration, set_of, array_of, tuple_of, named_tuple_of, object_of, sparse_object_of,
  range_of, element_positions, field_positions,
}

module _ (ds : List Descriptor) where
  abbrev pub DescribedBy : Descriptor → Value → Type 0
  DescribedBy (Descriptors.base_scalar d) v = IsScalar d.id v
  DescribedBy (Descriptors.scalar d) v = HasType ds d.base_type_pos v
  DescribedBy (Descriptors.enumeration d) v =
      (name : List ℕ) × (v ≡ enum name) × (contains d.members name ≡ true)
  DescribedBy (Descriptors.set d) v = (vs : Values) × (v ≡ set vs) × HaveType ds d.type_pos vs
  DescribedBy (Descriptors.array d) v = (vs : Values) × (v ≡ array vs) × HaveType ds d.type_pos vs
  DescribedBy (Descriptors.tuple d) v =
      (vs : Values) × (v ≡ tuple vs) × HaveTypes ds d.element_types vs
  DescribedBy (Descriptors.named_tuple d) v =
      (vs : Values) × (v ≡ named_tuple (names_of d.elements) vs)
      × HaveTypes ds (field_positions d.elements) vs
  DescribedBy (Descriptors.object_shape d) v =
      (xs : Slots) × (v ≡ object (shape_of d.elements) xs)
      × SlotsHaveTypes ds (element_positions d.elements) xs
  DescribedBy (Descriptors.input_shape d) v =
      (fs : Fields) × (v ≡ sparse_object (shape_of d.elements) fs)
      × FieldsHaveTypes ds (element_positions d.elements) fs
  DescribedBy (Descriptors.range d) v =
      (lower : Slot) × (upper : Slot) × (inc_lower : Bool) × (inc_upper : Bool) × (empty : Bool)
      × (v ≡ range lower upper inc_lower inc_upper empty)
      × SlotHasType ds d.type_pos lower
      × SlotHasType ds d.type_pos upper
  DescribedBy (Descriptors.type_annotation d) v = ⊥

  same_descriptor :
      (t : TypePos) (d x : Descriptor) (v : Value)
      → get_elem? ds t ≡ some d
      → get_elem? ds t ≡ some x
      → DescribedBy d v
      → DescribedBy x v
  same_descriptor t d x v e k h = rw (some-injective (sym e ∙ k)) at h

  pub HasType-DescribedBy :
      (t : TypePos) (v : Value) (x : Descriptor)
      → get_elem? ds t ≡ some x
      → HasType ds t v
      → DescribedBy x v
  HasType-DescribedBy t v x k (base_scalar d e h) = same_descriptor t _ x v e k h
  HasType-DescribedBy t v x k (scalar d e h) = same_descriptor t _ x v e k h
  HasType-DescribedBy t v x k (enumeration d e h) = same_descriptor t _ x v e k (_, refl, h)
  HasType-DescribedBy t v x k (set_of d e h) = same_descriptor t _ x v e k (_, refl, h)
  HasType-DescribedBy t v x k (array_of d e h) = same_descriptor t _ x v e k (_, refl, h)
  HasType-DescribedBy t v x k (tuple_of d e h) = same_descriptor t _ x v e k (_, refl, h)
  HasType-DescribedBy t v x k (named_tuple_of d e h) = same_descriptor t _ x v e k (_, refl, h)
  HasType-DescribedBy t v x k (object_of d e h) = same_descriptor t _ x v e k (_, refl, h)
  HasType-DescribedBy t v x k (sparse_object_of d e h) = same_descriptor t _ x v e k (_, refl, h)
  HasType-DescribedBy t v x k (range_of d e h l) =
      same_descriptor t _ x v e k (_, _, _, _, _, refl, h, l)
