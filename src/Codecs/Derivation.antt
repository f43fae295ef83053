-- ===== src/Codecs/Derivation.antt =====
-- Which codec belongs to a type, by the descriptors of types: the codecs that `CodecBuilder` in
-- codec.rs makes, independently of how it goes about it. A rule is named after the codec.
use edgedb_rust.Base.{
  ℕ, zero, suc, ◌≡◌, refl, List, [], ◌∷◌, Option, none, some, Result, ok, err, panic, get_elem?,
}
use edgedb_rust.Wire.{Crates}
use edgedb_rust.Descriptors
use edgedb_rust.Descriptors.{Descriptor, TypePos}
use edgedb_rust.Codecs.{Codec}
use edgedb_rust.Codecs.Scalars.{CodecError, scalar_codec, unexpected_type_pos}
use edgedb_rust.Codecs.Collections.{
  set_codec, array_codec, array_adapter_codec, derived_scalar_codec, tuple_codec, named_tuple_codec,
  range_codec, enum_codec,
}
use edgedb_rust.Codecs.Objects.{object_codec, input_codec}
use edgedb_rust.Codecs.Build.{
  Build, map_built, try_built, collect, build_element, build_descriptor, build, shape_of, names_of,
}
use edgedb_rust.Codecs.Typing.{element_positions, field_positions}

mutual
  pub data IsCodec ⦃C : Crates⦄ (ds : List Descriptor) : TypePos → Codec → Type 0 where
    of_base_scalar :
        {t : TypePos} {c : Codec} (d : Descriptors.BaseScalarTypeDescriptor)
        → get_elem? ds t ≡ some (Descriptors.base_scalar d)
        → scalar_codec d.id ≡ ok c
        → IsCodec ds t c
    of_set :
        {t : TypePos} {c : Codec} (d : Descriptors.SetDescriptor)
        → get_elem? ds t ≡ some (Descriptors.set d)
        → IsCodec ds d.type_pos c
        → IsCodec ds t (set_codec c)
    -- A set of arrays.
    of_array_set :
        {t : TypePos} {c : Codec} (d : Descriptors.SetDescriptor)
        (a : Descriptors.ArrayTypeDescriptor)
        → get_elem? ds t ≡ some (Descriptors.set d)
        → get_elem? ds d.type_pos ≡ some (Descriptors.array a)
        → IsCodec ds a.type_pos c
        → IsCodec ds t (set_codec (array_adapter_codec (array_codec c)))
    of_array :
        {t : TypePos} {c : Codec} (d : Descriptors.ArrayTypeDescriptor)
        → get_elem? ds t ≡ some (Descriptors.array d)
        → IsCodec ds d.type_pos c
        → IsCodec ds t (array_codec c)
    of_scalar :
        {t : TypePos} {c : Codec} (d : Descriptors.ScalarTypeDescriptor)
        → get_elem? ds t ≡ some (Descriptors.scalar d)
        → IsCodec ds d.base_type_pos c
        → IsCodec ds t (derived_scalar_codec c)
    of_tuple :
        {t : TypePos} {cs : List Codec} (d : Descriptors.TupleTypeDescriptor)
        → get_elem? ds t ≡ some (Descriptors.tuple d)
        → AreCodecs ds d.element_types cs
        → IsCodec ds t (tuple_codec cs)
    of_named_tuple :
        {t : TypePos} {cs : List Codec} (d : Descriptors.NamedTupleTypeDescriptor)
        → get_elem? ds t ≡ some (Descriptors.named_tuple d)
        → AreCodecs ds (field_positions d.elements) cs
        → IsCodec ds t (named_tuple_codec (names_of d.elements) cs)
    of_object :
        {t : TypePos} {cs : List Codec} (d : Descriptors.ObjectShapeDescriptor)
        → get_elem? ds t ≡ some (Descriptors.object_shape d)
        → AreCodecs ds (element_positions d.elements) cs
        → IsCodec ds t (object_codec (shape_of d.elements) cs)
    of_input :
        {t : TypePos} {cs : List Codec} (d : Descriptors.InputShapeTypeDescriptor)
        → get_elem? ds t ≡ some (Descriptors.input_shape d)
        → AreCodecs ds (element_positions d.elements) cs
        → IsCodec ds t (input_codec (shape_of d.elements) cs)
    of_range :
        {t : TypePos} {c : Codec} (d : Descriptors.RangeTypeDescriptor)
        → get_elem? ds t ≡ some (Descriptors.range d)
        → IsCodec ds d.type_pos c
        → IsCodec ds t (range_codec c)
    of_enum :
        {t : TypePos} (d : Descriptors.EnumerationTypeDescriptor)
        → get_elem? ds t ≡ some (Descriptors.enumeration d)
        → IsCodec ds t (enum_codec d.members)

  pub data AreCodecs ⦃C : Crates⦄ (ds : List Descriptor) : List TypePos → List Codec → Type 0 where
    no_codec : AreCodecs ds [] []
    one_codec :
        {t : TypePos} {ts : List TypePos} {c : Codec} {cs : List Codec}
        → IsCodec ds t c
        → AreCodecs ds ts cs
        → AreCodecs ds (t ∷ ts) (c ∷ cs)

-- If a codec is built, it has the property.
abbrev Yields : {A : Type 0} → (A → Type 0) → Build A → Type 0
Yields P none = Unit {0}
Yields P (some (ok a)) = P a
Yields P (some (err e)) = Unit {0}
Yields P (some panic) = Unit {0}

module _ {A B : Type 0} where
  Yields-map_built :
      (P : A → Type 0) (Q : B → Type 0) (f : A → B) (b : Build A)
      → Yields P b
      → ((a : A) → P a → Q (f a))
      → Yields Q (map_built f b)
  unfolding map_built
  Yields-map_built P Q f none h k = tt
  Yields-map_built P Q f (some (ok a)) h k = k a h
  Yields-map_built P Q f (some (err e)) h k = tt
  Yields-map_built P Q f (some panic) h k = tt

  Yields-try_built :
      (P : A → Type 0) (Q : B → Type 0) (b : Build A) (f : A → Build B)
      → Yields P b
      → ((a : A) → P a → Yields Q (f a))
      → Yields Q (try_built b f)
  unfolding try_built
  Yields-try_built P Q none f h k = tt
  Yields-try_built P Q (some (ok a)) f h k = k a h
  Yields-try_built P Q (some (err e)) f h k = tt
  Yields-try_built P Q (some panic) f h k = tt

module _ ⦃C : Crates⦄ (ds : List Descriptor) where
  Yields-collect :
      (build : TypePos → Build Codec) (ts : List TypePos)
      → ((t : TypePos) → Yields (IsCodec ds t) (build t))
      → Yields (AreCodecs ds ts) (collect build ts)
  unfolding collect
  Yields-collect build [] h = no_codec
  Yields-collect build (t ∷ ts) h =
      Yields-try_built (IsCodec ds t) (AreCodecs ds (t ∷ ts)) (build t) _ (h t) λ c hc.
        Yields-map_built (AreCodecs ds ts) (AreCodecs ds (t ∷ ts)) (λ cs. c ∷ cs) (collect build ts)
          (Yields-collect build ts h) λ cs hcs. one_codec hc hcs

  Yields-result :
      (t : TypePos) (d : Descriptors.BaseScalarTypeDescriptor) (r : Result CodecError Codec)
      → get_elem? ds t ≡ some (Descriptors.base_scalar d)
      → scalar_codec d.id ≡ r
      → Yields (IsCodec ds t) (some r)
  Yields-result t d (ok c) e h = of_base_scalar d e h
  Yields-result t d (err x) e h = tt
  Yields-result t d panic e h = tt

  Yields-set :
      (build : TypePos → Build Codec) (t : TypePos) (d : Descriptors.SetDescriptor)
      → get_elem? ds t ≡ some (Descriptors.set d)
      → ((t : TypePos) → Yields (IsCodec ds t) (build t))
      → Yields (IsCodec ds t) (map_built set_codec (build_element build ds d.type_pos))
  unfolding build_element
  Yields-set build t d e h = found (get_elem? ds d.type_pos) refl
    where
      plain : Yields (IsCodec ds t) (map_built set_codec (build d.type_pos))
      plain =
          Yields-map_built (IsCodec ds d.type_pos) (IsCodec ds t) set_codec _ (h d.type_pos)
            λ c hc. of_set d e hc

      found :
          (o : Option Descriptor)
          → get_elem? ds d.type_pos ≡ o
          → Yields (IsCodec ds t) (
              map_built set_codec (elim o [
                | none ↦ build d.type_pos
                | some x ↦ elim x [
                  | Descriptors.array a ↦
                      map_built (λ c. array_adapter_codec (array_codec c)) (build a.type_pos)
                  | _ ↦ build d.type_pos
                ]
              ]))
      found none q = plain
      found (some (Descriptors.array a)) q =
          Yields-map_built (λ c. IsCodec ds t (set_codec c)) (IsCodec ds t) set_codec _
            (Yields-map_built (IsCodec ds a.type_pos) (λ c. IsCodec ds t (set_codec c)) _ _
              (h a.type_pos) λ c hc. of_array_set d a e q hc)
            λ c hc. hc
      found (some (Descriptors.base_scalar x)) q = plain
      found (some (Descriptors.set x)) q = plain
      found (some (Descriptors.object_shape x)) q = plain
      found (some (Descriptors.scalar x)) q = plain
      found (some (Descriptors.tuple x)) q = plain
      found (some (Descriptors.named_tuple x)) q = plain
      found (some (Descriptors.range x)) q = plain
      found (some (Descriptors.enumeration x)) q = plain
      found (some (Descriptors.input_shape x)) q = plain
      found (some (Descriptors.type_annotation x)) q = plain

  -- A codec over the codecs of a list of types, and over that of one type.
  Yields-parts :
      (build : TypePos → Build Codec) (t : TypePos) (ts : List TypePos) (f : List Codec → Codec)
      → ((t : TypePos) → Yields (IsCodec ds t) (build t))
      → ((cs : List Codec) → AreCodecs ds ts cs → IsCodec ds t (f cs))
      → Yields (IsCodec ds t) (map_built f (collect build ts))
  Yields-parts build t ts f h k =
      Yields-map_built (AreCodecs ds ts) (IsCodec ds t) f _ (Yields-collect build ts h) k

  Yields-part :
      (build : TypePos → Build Codec) (t u : TypePos) (f : Codec → Codec)
      → ((t : TypePos) → Yields (IsCodec ds t) (build t))
      → ((c : Codec) → IsCodec ds u c → IsCodec ds t (f c))
      → Yields (IsCodec ds t) (map_built f (build u))
  Yields-part build t u f h k = Yields-map_built (IsCodec ds u) (IsCodec ds t) f _ (h u) k

  Yields-descriptor :
      (build : TypePos → Build Codec) (t : TypePos) (d : Descriptor)
      → get_elem? ds t ≡ some d
      → ((t : TypePos) → Yields (IsCodec ds t) (build t))
      → Yields (IsCodec ds t) (build_descriptor build ds d)
  unfolding build_descriptor
  Yields-descriptor build t (Descriptors.base_scalar d) e h = Yields-result t d _ e refl
  Yields-descriptor build t (Descriptors.set d) e h = Yields-set build t d e h
  Yields-descriptor build t (Descriptors.object_shape d) e h =
      Yields-parts build t _ _ h λ cs k. of_object d e k
  Yields-descriptor build t (Descriptors.scalar d) e h =
      Yields-part build t d.base_type_pos _ h λ c k. of_scalar d e k
  Yields-descriptor build t (Descriptors.tuple d) e h =
      Yields-parts build t _ _ h λ cs k. of_tuple d e k
  Yields-descriptor build t (Descriptors.named_tuple d) e h =
      Yields-parts build t _ _ h λ cs k. of_named_tuple d e k
  Yields-descriptor build t (Descriptors.array d) e h =
      Yields-part build t d.type_pos _ h λ c k. of_array d e k
  Yields-descriptor build t (Descriptors.range d) e h =
      Yields-part build t d.type_pos _ h λ c k. of_range d e k
  Yields-descriptor build t (Descriptors.enumeration d) e h = of_enum d e
  Yields-descriptor build t (Descriptors.input_shape d) e h =
      Yields-parts build t _ _ h λ cs k. of_input d e k
  Yields-descriptor build t (Descriptors.type_annotation d) e h = tt

  Yields-build : (fuel : ℕ) (t : TypePos) → Yields (IsCodec ds t) (build fuel ds t)
  unfolding build
  Yields-build zero t = tt
  Yields-build (suc fuel) t = found (get_elem? ds t) refl (Yields-build fuel)
    where
      found :
          (x : Option Descriptor)
          → get_elem? ds t ≡ x
          → ((t' : TypePos) → Yields (IsCodec ds t') (build fuel ds t'))
          → Yields (IsCodec ds t) (elim x [
            | none ↦ some (err (unexpected_type_pos t))
            | some d ↦ build_descriptor (build fuel ds) ds d
          ])
      found none e h = tt
      found (some d) e h = Yields-descriptor (build fuel ds) t d e h

  -- A codec that is built for a type is the codec of that type.
  pub build-IsCodec :
      (fuel : ℕ) (t : TypePos) (c : Codec) → build fuel ds t ≡ some (ok c) → IsCodec ds t c
  build-IsCodec fuel t c e = rw e at (Yields-build fuel t)
