-- ===== src/Codecs/Soundness.antt =====
-- The codecs that codec.rs builds against the types that they are built for: what a decoder gives
-- however it is built.
use edgedb_rust.Base.{
  ℕ, ◌≡◌, sym, ap, ◌∙◌, ok-injective, List, Option, none, some, some-injective, ok,
}
use edgedb_rust.Base.HashMap.{nat_eq}
use edgedb_rust.Wire.{Crates}
use edgedb_rust.Descriptors.{Descriptor, TypePos}
use edgedb_rust.Codecs.{Codec, Value, nothing}
use edgedb_rust.Codecs.Scalars.{nothing_codec}
use edgedb_rust.Codecs.Collections.{
  set_codec, array_codec, derived_scalar_codec, tuple_codec, named_tuple_codec, range_codec,
  enum_codec,
}
use edgedb_rust.Codecs.Objects.{object_codec, input_codec}
use edgedb_rust.Codecs.Build.{build, build_codec}
use edgedb_rust.Codecs.Gives.{Gives-eq_ok, Gives-every}
use edgedb_rust.Codecs.Typing.{HasRootType, HasType, base_scalar, scalar}
use edgedb_rust.Codecs.Derivation.{
  IsCodec, AreCodecs, of_base_scalar, of_set, of_array_set, of_array, of_scalar, of_tuple,
  of_named_tuple, of_object, of_input, of_range, of_enum, no_codec, one_codec, build-IsCodec,
}
use edgedb_rust.Codecs.ScalarTyping.{scalar_codec-Gives}
use edgedb_rust.Codecs.DecodedTyping.{GivesTyped, AllTyped, Gives-set, Gives-array}
use edgedb_rust.Codecs.CompositeTyping.{
  Gives-tuple_codec, Gives-named_tuple, Gives-array_set, Gives-object, Gives-range, Gives-enum,
}
use edgedb_rust.Codecs.FieldTyping.{Gives-sparse}

module _ ⦃C : Crates⦄ (ds : List Descriptor) where
  mutual
    unfolding set_codec array_codec derived_scalar_codec tuple_codec named_tuple_codec object_codec
        input_codec range_codec enum_codec

    Gives-typed : (t : TypePos) (c : Codec) → IsCodec ds t c → GivesTyped ds t c.decode
    Gives-typed t _ (of_base_scalar d q h) buf =
        Gives-every _ (HasType ds t) _ (scalar_codec-Gives d.id _ h buf) λ v k. base_scalar d q k
    Gives-typed t _ (of_set d q k) buf = Gives-set ds t d _ q (Gives-typed _ _ k) _ buf
    Gives-typed t _ (of_array_set {c = c} d a q e k) buf =
        Gives-array_set ds t d a c q e (Gives-typed _ c k) buf
    Gives-typed t _ (of_array d q k) buf = Gives-array ds t d _ q (Gives-typed _ _ k) _ buf
    Gives-typed t _ (of_scalar d q k) buf =
        Gives-every _ (HasType ds t) _ (Gives-typed _ _ k buf) λ v h. scalar d q h
    Gives-typed t _ (of_tuple d q ks) buf = Gives-tuple_codec ds t d _ q (all_typed _ _ ks) buf
    Gives-typed t _ (of_named_tuple d q ks) buf =
        Gives-named_tuple ds t d _ q (all_typed _ _ ks) buf
    Gives-typed t _ (of_object d q ks) buf = Gives-object ds t d _ q (all_typed _ _ ks) buf
    Gives-typed t _ (of_input d q ks) buf = Gives-sparse ds t d _ q (all_typed _ _ ks) buf
    Gives-typed t _ (of_range d q k) buf = Gives-range ds t d _ q (Gives-typed _ _ k) buf
    Gives-typed t _ (of_enum d q) buf = Gives-enum ds t d q buf

    all_typed : (ts : List TypePos) (cs : List Codec) → AreCodecs ds ts cs → AllTyped ds ts cs
    all_typed _ _ no_codec = tt
    all_typed _ _ (one_codec k ks) = (Gives-typed _ _ k, all_typed _ _ ks)

  -- What a codec that is built for a type decodes, on any bytes, is a value of the type.
  pub decode-HasType :
      (fuel : ℕ) (t : TypePos) (c : Codec) (buf : List ℕ) (v : Value)
      → build fuel ds t ≡ some (ok c)
      → c.decode buf ≡ ok v
      → HasType ds t v
  decode-HasType fuel t c buf v e q =
      Gives-eq_ok (HasType ds t) _ v (Gives-typed t c (build-IsCodec ds fuel t c e) buf) q

  -- What a codec that `build_codec` makes decodes, on any bytes, is a value of the type that it is
  -- made for.
  pub build_codec-HasRootType :
      (fuel : ℕ) (root_pos : Option TypePos) (c : Codec) (buf : List ℕ) (v : Value)
      → build_codec fuel root_pos ds ≡ some (ok c)
      → c.decode buf ≡ ok v
      → HasRootType ds root_pos v
  unfolding build_codec nothing_codec
  build_codec-HasRootType fuel none c buf v e q = nothing_lem c v e q
    where
      nothing_lem :
          (c : Codec) (v : Value)
          → build_codec fuel none ds ≡ some (ok c)
          → c.decode buf ≡ ok v
          → v ≡ nothing
      nothing_lem c v e q =
          let same : nothing_codec ≡ c = ok-injective (some-injective e) in
          sym (ok-injective (ap (λ (c : Codec). c.decode buf) same ∙ q))
  build_codec-HasRootType fuel (some t) c buf v e q = decode-HasType fuel t c buf v e q
