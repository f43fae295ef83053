-- ===== src/Codecs/Typing.antt =====
-- The values of a type, by the descriptors of types and independently of the codecs in codec.rs. A
-- rule is named after the descriptor that it is about.
use edgedb_rust.Base.{ℕ, ◌≡◌, Bool, true, List, [], ◌∷◌, map, Option, none, some, get_elem?}
use edgedb_rust.Time.Int.{ℤ}
use edgedb_rust.Bignum.BigInt.{BigInt}
use edgedb_rust.Descriptors
use edgedb_rust.Descriptors.{Descriptor, TypePos}
use edgedb_rust.Codecs.{
  Value, nothing, uuid, str, bytes, int16, int32, int64, float32, float64, decimal, bool, datetime,
  local_datetime, local_date, local_time, duration, json, big_int, relative_duration, date_duration,
  config_memory, enum, set, array, tuple, named_tuple, object, sparse_object, range, Decimal,
  RelativeDuration, DateDuration, Values, nil, cons, Slot, missing, present, Slots, no_slots, slot,
  Fields, no_fields, absent, field,
}
use edgedb_rust.Codecs.Scalars.{uuid_of}
use edgedb_rust.Codecs.Collections.{contains}
use edgedb_rust.Codecs.Build.{shape_of, names_of}

-- The values of the scalar types of the standard library, by the identifier of the type.
pub data IsScalar : List ℕ → Value → Type 0 where
  std_uuid : (u : List ℕ) → IsScalar (uuid_of 0x100) (uuid u)
  std_str : (s : List ℕ) → IsScalar (uuid_of 0x101) (str s)
  std_bytes : (b : List ℕ) → IsScalar (uuid_of 0x102) (bytes b)
  std_int16 : (v : ℤ) → IsScalar (uuid_of 0x103) (int16 v)
  std_int32 : (v : ℤ) → IsScalar (uuid_of 0x104) (int32 v)
  std_int64 : (v : ℤ) → IsScalar (uuid_of 0x105) (int64 v)
  std_float32 : (v : ℕ) → IsScalar (uuid_of 0x106) (float32 v)
  std_float64 : (v : ℕ) → IsScalar (uuid_of 0x107) (float64 v)
  std_decimal : (v : Decimal) → IsScalar (uuid_of 0x108) (decimal v)
  std_bool : (b : Bool) → IsScalar (uuid_of 0x109) (bool b)
  std_datetime : (v : ℤ) → IsScalar (uuid_of 0x10a) (datetime v)
  cal_local_datetime : (v : ℤ) → IsScalar (uuid_of 0x10b) (local_datetime v)
  cal_local_date : (v : ℤ) → IsScalar (uuid_of 0x10c) (local_date v)
  cal_local_time : (v : ℕ) → IsScalar (uuid_of 0x10d) (local_time v)
  std_duration : (v : ℤ) → IsScalar (uuid_of 0x10e) (duration v)
  std_json : (s : List ℕ) → IsScalar (uuid_of 0x10f) (json s)
  std_big_int : (v : BigInt) → IsScalar (uuid_of 0x110) (big_int v)
  cal_relative_duration : (v : RelativeDuration) → IsScalar (uuid_of 0x111) (relative_duration v)
  cal_date_duration : (v : DateDuration) → IsScalar (uuid_of 0x112) (date_duration v)
  cfg_memory : (v : ℤ) → IsScalar (uuid_of 0x130) (config_memory v)

abbrev pub element_positions : List Descriptors.ShapeElement → List TypePos
element_positions = map (λ (e : Descriptors.ShapeElement). e.type_pos)

abbrev pub field_positions : List Descriptors.TupleElement → List TypePos
field_positions = map (λ (e : Descriptors.TupleElement). e.type_pos)

mutual
  pub data HasType (ds : List Descriptor) : TypePos → Value → Type 0 where
    base_scalar :
        {t : TypePos} {v : Value} (d : Descriptors.BaseScalarTypeDescriptor)
        → get_elem? ds t ≡ some (Descriptors.base_scalar d)
        → IsScalar d.id v
        → HasType ds t v
    scalar :
        {t : TypePos} {v : Value} (d : Descriptors.ScalarTypeDescriptor)
        → get_elem? ds t ≡ some (Descriptors.scalar d)
        → HasType ds d.base_type_pos v
        → HasType ds t v
    enumeration :
        {t : TypePos} {name : List ℕ} (d : Descriptors.EnumerationTypeDescriptor)
        → get_elem? ds t ≡ some (Descriptors.enumeration d)
        → contains d.members name ≡ true
        → HasType ds t (enum name)
    set_of :
        {t : TypePos} {vs : Values} (d : Descriptors.SetDescriptor)
        → get_elem? ds t ≡ some (Descriptors.set d)
        → HaveType ds d.type_pos vs
        → HasType ds t (set vs)
    array_of :
        {t : TypePos} {vs : Values} (d : Descriptors.ArrayTypeDescriptor)
        → get_elem? ds t ≡ some (Descriptors.array d)
        → HaveType ds d.type_pos vs
        → HasType ds t (array vs)
    tuple_of :
        {t : TypePos} {vs : Values} (d : Descriptors.TupleTypeDescriptor)
        → get_elem? ds t ≡ some (Descriptors.tuple d)
        → HaveTypes ds d.element_types vs
        → HasType ds t (tuple vs)
    named_tuple_of :
        {t : TypePos} {vs : Values} (d : Descriptors.NamedTupleTypeDescriptor)
        → get_elem? ds t ≡ some (Descriptors.named_tuple d)
        → HaveTypes ds (field_positions d.elements) vs
        → HasType ds t (named_tuple (names_of d.elements) vs)
    object_of :
        {t : TypePos} {xs : Slots} (d : Descriptors.ObjectShapeDescriptor)
        → get_elem? ds t ≡ some (Descriptors.object_shape d)
        → SlotsHaveTypes ds (element_positions d.elements) xs
        → HasType ds t (object (shape_of d.elements) xs)
    sparse_object_of :
        {t : TypePos} {fs : Fields} (d : Descriptors.InputShapeTypeDescriptor)
        → get_elem? ds t ≡ some (Descriptors.input_shape d)
        → FieldsHaveTypes ds (element_positions d.elements) fs
        → HasType ds t (sparse_object (shape_of d.elements) fs)
    range_of :
        {t : TypePos} {lower upper : Slot} {inc_lower inc_upper empty : Bool}
        (d : Descriptors.RangeTypeDescriptor)
        → get_elem? ds t ≡ some (Descriptors.range d)
        → SlotHasType ds d.type_pos lower
        → SlotHasType ds d.type_pos upper
        → HasType ds t (range lower upper inc_lower inc_upper empty)

  -- All of one type.
  pub data HaveType (ds : List Descriptor) : TypePos → Values → Type 0 where
    none_left : {t : TypePos} → HaveType ds t nil
    one_more :
        {t : TypePos} {v : Value} {vs : Values}
        → HasType ds t v
        → HaveType ds t vs
        → HaveType ds t (cons v vs)

  -- Each of its own type.
  pub data HaveTypes (ds : List Descriptor) : List TypePos → Values → Type 0 where
    no_value : HaveTypes ds [] nil
    value :
        {t : TypePos} {ts : List TypePos} {v : Value} {vs : Values}
        → HasType ds t v
        → HaveTypes ds ts vs
        → HaveTypes ds (t ∷ ts) (cons v vs)

  pub data SlotHasType (ds : List Descriptor) : TypePos → Slot → Type 0 where
    not_there : {t : TypePos} → SlotHasType ds t missing
    there : {t : TypePos} {v : Value} → HasType ds t v → SlotHasType ds t (present v)

  pub data SlotsHaveTypes (ds : List Descriptor) : List TypePos → Slots → Type 0 where
    no_slot : SlotsHaveTypes ds [] no_slots
    one_slot :
        {t : TypePos} {ts : List TypePos} {x : Slot} {xs : Slots}
        → SlotHasType ds t x
        → SlotsHaveTypes ds ts xs
        → SlotsHaveTypes ds (t ∷ ts) (slot x xs)

  pub data FieldsHaveTypes (ds : List Descriptor) : List TypePos → Fields → Type 0 where
    no_field : FieldsHaveTypes ds [] no_fields
    absent_field :
        {t : TypePos} {ts : List TypePos} {fs : Fields}
        → FieldsHaveTypes ds ts fs
        → FieldsHaveTypes ds (t ∷ ts) (absent fs)
    one_field :
        {t : TypePos} {ts : List TypePos} {x : Slot} {fs : Fields}
        → SlotHasType ds t x
        → FieldsHaveTypes ds ts fs
        → FieldsHaveTypes ds (t ∷ ts) (field x fs)

-- The values of a description: without a root it describes nothing but `Nothing`.
abbrev pub HasRootType : List Descriptor → Option TypePos → Value → Type 0
HasRootType ds none v = v ≡ nothing
HasRootType ds (some t) v = HasType ds t v
