-- ===== src/Codecs/BuiltTotal.antt =====
-- The codecs that codec.rs builds from descriptors without an input shape, by induction on how they
-- are built; and their decoders on any bytes.
use edgedb_rust.Base.{ℕ, zero, suc, ◌≡◌, ◌≢◌, List, [], ◌∷◌, Option, none, some, ok, get_elem?, All}
use edgedb_rust.Wire.{Crates}
use edgedb_rust.Descriptors
use edgedb_rust.Descriptors.{Descriptor, TypePos}
use edgedb_rust.Codecs.{Codec, ObjectShape, NamedTupleShape}
use edgedb_rust.Codecs.Scalars.{scalar_codec}
use edgedb_rust.Codecs.Collections.{
  set_codec, array_codec, array_adapter_codec, derived_scalar_codec, tuple_codec, named_tuple_codec,
  range_codec, enum_codec,
}
use edgedb_rust.Codecs.Objects.{object_codec}
use edgedb_rust.Codecs.Build.{build}
use edgedb_rust.Codecs.Derivation.{
  IsCodec, AreCodecs, of_base_scalar, of_set, of_array_set, of_array, of_scalar, of_tuple,
  of_named_tuple, of_object, of_input, of_range, of_enum, no_codec, one_codec, build-IsCodec,
}
use edgedb_rust.Codecs.Safety.{IsTotal}
use edgedb_rust.Codecs.Total.{scalar-IsTotal}
use edgedb_rust.Codecs.TotalComposite.{
  set-IsTotal, array-IsTotal, array_adapter-IsTotal, derived_scalar-IsTotal, tuple-IsTotal,
  named_tuple-IsTotal, range-IsTotal, enum-IsTotal, object-IsTotal,
}

-- A property of codecs that passes from the parts to the whole, whatever they are but `Input`.
pub record IsClosed ⦃C : Crates⦄ (P : Codec → Type 0) : Type 0 where
  pub of_scalar : (id : List ℕ) (c : Codec) → scalar_codec id ≡ ok c → P c
  pub of_set : (c : Codec) → P c → P (set_codec c)
  pub of_array : (c : Codec) → P c → P (array_codec c)
  pub of_array_adapter : (c : Codec) → P c → P (array_adapter_codec c)
  pub of_derived_scalar : (c : Codec) → P c → P (derived_scalar_codec c)
  pub of_tuple : (cs : List Codec) → All P cs → P (tuple_codec cs)
  pub of_named_tuple :
      (shape : NamedTupleShape) (cs : List Codec) → All P cs → P (named_tuple_codec shape cs)
  pub of_object : (shape : ObjectShape) (cs : List Codec) → All P cs → P (object_codec shape cs)
  pub of_range : (c : Codec) → P c → P (range_codec c)
  pub of_enum : (members : List (List ℕ)) → P (enum_codec members)

abbrev pub IsOutput : Descriptor → Type 0
IsOutput (Descriptors.input_shape d) = ⊥
IsOutput _ = Unit {0}

pub IsOutput-at :
    (ds : List Descriptor) (i : ℕ) (d : Descriptor)
    → All IsOutput ds
    → get_elem? ds i ≡ some d
    → IsOutput d
IsOutput-at [] i d h e = absurd (none-ne-some e)
  where
    none-ne-some : ◌≢◌ {A = Option Descriptor} none (some d)
    none-ne-some x = cc
IsOutput-at (x ∷ ds) zero d (h, hs) e = moved x (some-injective e) h
  where
    some-injective : some x ≡ some d → x ≡ d
    some-injective q = cc

    moved : (x : Descriptor) → x ≡ d → IsOutput x → IsOutput d
    moved x q k = rw q at k
IsOutput-at (x ∷ ds) (suc i) d (h, hs) e = IsOutput-at ds i d hs e

module _ ⦃C : Crates⦄ (P : Codec → Type 0) (closed : IsClosed P) (ds : List Descriptor)
    (outputs : All IsOutput ds) where
  mutual
    every : {t : TypePos} {c : Codec} → IsCodec ds t c → P c
    every (of_base_scalar d e h) = closed.of_scalar d.id _ h
    every (of_set d e k) = closed.of_set _ (every k)
    every (of_array_set d a e q k) =
        closed.of_set _ (closed.of_array_adapter _ (closed.of_array _ (every k)))
    every (of_array d e k) = closed.of_array _ (every k)
    every (of_scalar d e k) = closed.of_derived_scalar _ (every k)
    every (of_tuple d e ks) = closed.of_tuple _ (of_parts ks)
    every (of_named_tuple d e ks) = closed.of_named_tuple _ _ (of_parts ks)
    every (of_object d e ks) = closed.of_object _ _ (of_parts ks)
    every {t} (of_input d e ks) = absurd (IsOutput-at ds t (Descriptors.input_shape d) outputs e)
    every (of_range d e k) = closed.of_range _ (every k)
    every (of_enum d e) = closed.of_enum d.members

    of_parts : {ts : List TypePos} {cs : List Codec} → AreCodecs ds ts cs → All P cs
    of_parts no_codec = tt
    of_parts (one_codec k ks) = (every k, of_parts ks)

  pub built : (fuel : ℕ) (t : TypePos) (c : Codec) → build fuel ds t ≡ some (ok c) → P c
  built fuel t c e = every (build-IsCodec ds fuel t c e)

module _ ⦃C : Crates⦄ where
  IsTotal-IsClosed : IsClosed IsTotal
  IsTotal-IsClosed = record {
    of_scalar = scalar-IsTotal;
    of_set = set-IsTotal;
    of_array = array-IsTotal;
    of_array_adapter = array_adapter-IsTotal;
    of_derived_scalar = derived_scalar-IsTotal;
    of_tuple = tuple-IsTotal;
    of_named_tuple = named_tuple-IsTotal;
    of_object = object-IsTotal;
    of_range = range-IsTotal;
    of_enum = enum-IsTotal;
  }

  -- A codec that is built from descriptors without an input shape does not panic on any bytes.
  pub build-IsTotal :
      (fuel : ℕ) (ds : List Descriptor) (t : TypePos) (c : Codec)
      → All IsOutput ds
      → build fuel ds t ≡ some (ok c)
      → IsTotal c
  build-IsTotal fuel ds t c o e = built IsTotal IsTotal-IsClosed ds o fuel t c e
