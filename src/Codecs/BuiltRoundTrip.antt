-- ===== src/Codecs/BuiltRoundTrip.antt =====
-- Encoding and decoding with a codec that `build_codec` in codec.rs makes out of descriptors.
use edgedb_rust.Base.{ℕ, ◌^◌, ◌<◌, ◌≡◌, refl, List, ◌++◌, Option, none, some, ok, length, All}
use edgedb_rust.Wire.{Crates}
use edgedb_rust.Descriptors.{Descriptor, TypePos}
use edgedb_rust.Wire.Encoder.Writes.{Writes-done}
use edgedb_rust.Codecs.{Value, nothing, Codec}
use edgedb_rust.Codecs.Scalars.{nothing_codec}
use edgedb_rust.Codecs.Build.{build_codec}
use edgedb_rust.Codecs.Appends.{IsValue, Appends-Writes, Appends-refuse}
use edgedb_rust.Codecs.ScalarRoundTrip.{RoundTrips}
use edgedb_rust.Codecs.TableRoundTrip.{scalar_RoundTrips}
use edgedb_rust.Codecs.CollectionRoundTrip.{
  set_codec-RoundTrips, array_codec-RoundTrips, array_adapter_codec-RoundTrips,
  derived_scalar_codec-RoundTrips,
}
use edgedb_rust.Codecs.TupleRoundTrip.{tuple_codec-RoundTrips, named_tuple_codec-RoundTrips}
use edgedb_rust.Codecs.ObjectRoundTrip.{object_codec-RoundTrips}
use edgedb_rust.Codecs.RangeRoundTrip.{range_codec-RoundTrips, enum_codec-RoundTrips}
use edgedb_rust.Codecs.BuiltTotal.{IsClosed, IsOutput, built}

module _ ⦃C : Crates⦄ where
  RoundTrips-IsClosed : IsClosed RoundTrips
  RoundTrips-IsClosed = record {
    of_scalar = scalar_RoundTrips;
    of_set = set_codec-RoundTrips;
    of_array = array_codec-RoundTrips;
    of_array_adapter = array_adapter_codec-RoundTrips;
    of_derived_scalar = derived_scalar_codec-RoundTrips;
    of_tuple = tuple_codec-RoundTrips;
    of_named_tuple = named_tuple_codec-RoundTrips;
    of_object = object_codec-RoundTrips;
    of_range = range_codec-RoundTrips;
    of_enum = enum_codec-RoundTrips;
  }

  nothing_codec-RoundTrips : RoundTrips nothing_codec
  unfolding nothing_codec
  nothing_codec-RoundTrips nothing k = Appends-Writes _ Writes-done λ _. refl
  nothing_codec-RoundTrips _ k = Appends-refuse _ _

  build_codec-RoundTrips :
      (fuel : ℕ) (t : Option TypePos) (ds : List Descriptor) (c : Codec)
      → All IsOutput ds
      → build_codec fuel t ds ≡ some (ok c)
      → RoundTrips c
  unfolding build_codec
  build_codec-RoundTrips fuel none ds c o e =
      let same : nothing_codec ≡ c = cc in rw same at nothing_codec-RoundTrips
  build_codec-RoundTrips fuel (some t) ds c o e =
      built RoundTrips RoundTrips-IsClosed ds o fuel t c e

  -- Let a codec be built from descriptors without an input shape. If it encodes a value whose
  -- fields are in the ranges of the source's types, and that contains no sparse object and no empty
  -- range with a bound or a flag, the bytes that it has added to the output decode to that value,
  -- provided that they are fewer than 2^31.
  pub build_codec-decode :
      (fuel : ℕ) (t : Option TypePos) (ds : List Descriptor) (c : Codec) (v : Value)
      (buf out : List ℕ)
      → All IsOutput ds
      → build_codec fuel t ds ≡ some (ok c)
      → IsValue v
      → c.encode v buf ≡ ok out
      → (bs : List ℕ) × (out ≡ buf ++ bs) × (length bs < 2 ^ 31 → c.decode bs ≡ ok v)
  build_codec-decode fuel t ds c v buf out o e k h =
      rw h at ((build_codec-RoundTrips fuel t ds c o e v k).added buf)
