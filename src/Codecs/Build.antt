-- ===== src/Codecs/Build.antt =====
-- edgedb-protocol/src/codec.rs: `CodecBuilder` and `build_codec`, which make the codec of a type out
-- of the descriptors.
use edgedb_rust.Base.{
  ℕ, zero, suc, List, [], ◌∷◌, Option, none, some, Result, ok, err, panic, map_ok, map, get_elem?,
}
use edgedb_rust.Wire.{Crates}
use edgedb_rust.Descriptors
use edgedb_rust.Descriptors.{Descriptor, TypePos}
use edgedb_rust.Codecs.{ObjectShape, NamedTupleShape, Codec}
use edgedb_rust.Codecs.Scalars.{CodecError, unexpected_type_pos, scalar_codec, nothing_codec}
use edgedb_rust.Codecs.Collections.{
  set_codec, array_codec, array_adapter_codec, derived_scalar_codec, tuple_codec, named_tuple_codec,
  range_codec, enum_codec,
}
use edgedb_rust.Codecs.Objects.{object_codec, input_codec}

-- A call that may not return: `none` says that the rounds given were too few.
abbrev pub Build : Type 0 → Type 0
Build A = Option (Result CodecError A)

-- `ObjectShape::from` and `NamedTupleShape::from`: the elements without their positions.
unfoldable pub shape_of : List Descriptors.ShapeElement → ObjectShape
shape_of [] = []
shape_of (e ∷ es) =
    record {
      flag_implicit = e.flag_implicit;
      flag_link_property = e.flag_link_property;
      flag_link = e.flag_link;
      cardinality = e.cardinality;
      name = e.name;
    }
    ∷ shape_of es

unfoldable pub names_of : List Descriptors.TupleElement → NamedTupleShape
names_of [] = []
names_of (e ∷ es) = e.name ∷ names_of es

module _ {A B : Type 0} where
  unfoldable pub map_built : (A → B) → Build A → Build B
  map_built f none = none
  map_built f (some r) = some (map_ok f r)

  -- `?`
  unfoldable pub try_built : Build A → (A → Build B) → Build B
  try_built none f = none
  try_built (some (ok a)) f = f a
  try_built (some (err e)) f = some (err e)
  try_built (some panic) f = some panic

-- `iter().map(|e| dec.build(e.type_pos)).collect::<Result<_, _>>()`
unfoldable pub collect : (TypePos → Build Codec) → List TypePos → Build (List Codec)
unfolding map_built try_built
collect build [] = some (ok [])
collect build (t ∷ ts) = try_built (build t) λ c. map_built (λ cs. c ∷ cs) (collect build ts)

module _ ⦃C : Crates⦄ where
  -- `Set::build`, which adapts an array.
  unfoldable pub build_element : (TypePos → Build Codec) → List Descriptor → TypePos → Build Codec
  unfolding map_built array_adapter_codec array_codec
  build_element build descriptors t = elim (get_elem? descriptors t) [
    | none ↦ build t
    | some d ↦ elim d [
      | Descriptors.array a ↦
          map_built (λ c. array_adapter_codec (array_codec c)) (build a.type_pos)
      | _ ↦ build t
    ]
  ]

  -- The `match` in `build`; `unreachable!()` for an annotation.
  unfoldable pub build_descriptor :
      (TypePos → Build Codec) → List Descriptor → Descriptor → Build Codec
  unfolding build_element map_built collect
  build_descriptor build descriptors (Descriptors.base_scalar d) = some (scalar_codec d.id)
  build_descriptor build descriptors (Descriptors.set d) =
      map_built set_codec (build_element build descriptors d.type_pos)
  build_descriptor build descriptors (Descriptors.object_shape d) =
      map_built (object_codec (shape_of d.elements))
        (collect build (map (λ (e : Descriptors.ShapeElement). e.type_pos) d.elements))
  build_descriptor build descriptors (Descriptors.scalar d) =
      map_built derived_scalar_codec (build d.base_type_pos)
  build_descriptor build descriptors (Descriptors.tuple d) =
      map_built tuple_codec (collect build d.element_types)
  build_descriptor build descriptors (Descriptors.named_tuple d) =
      map_built (named_tuple_codec (names_of d.elements))
        (collect build (map (λ (e : Descriptors.TupleElement). e.type_pos) d.elements))
  build_descriptor build descriptors (Descriptors.array d) =
      map_built array_codec (build d.type_pos)
  build_descriptor build descriptors (Descriptors.range d) =
      map_built range_codec (build d.type_pos)
  build_descriptor build descriptors (Descriptors.enumeration d) = some (ok (enum_codec d.members))
  build_descriptor build descriptors (Descriptors.input_shape d) =
      map_built (input_codec (shape_of d.elements))
        (collect build (map (λ (e : Descriptors.ShapeElement). e.type_pos) d.elements))
  build_descriptor build descriptors (Descriptors.type_annotation d) = some panic

  -- `CodecBuilder::build`, to a depth of `fuel`.
  unfoldable pub build : (fuel : ℕ) → List Descriptor → TypePos → Build Codec
  unfolding build_descriptor
  build zero descriptors t = none
  build (suc fuel) descriptors t = elim (get_elem? descriptors t) [
    | none ↦ some (err (unexpected_type_pos t))
    | some d ↦ build_descriptor (build fuel descriptors) descriptors d
  ]

  -- `build_codec`
  unfoldable pub build_codec : (fuel : ℕ) → Option TypePos → List Descriptor → Build Codec
  unfolding build
  build_codec fuel none descriptors = some (ok nothing_codec)
  build_codec fuel (some t) descriptors = build fuel descriptors t
