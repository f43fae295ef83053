-- ===== src/Codecs/Tests.antt =====
-- Runs of the codecs over the plain implementation of the crates, and the theorems at concrete
-- inputs.
use edgedb_rust.Base.{
  ℕ, ◌≡◌, refl, ◌^◌, ◌<◌, false, List, [], ◌∷◌, ◌++◌, none, some, ok, panic, length, arith,
}
use edgedb_rust.Base.HashMap.{list_beq}
use edgedb_rust.Wire.{to_be_bytes, from_be_bytes}
use edgedb_rust.Wire.Decoder
use edgedb_rust.Wire.Encoder.{◌>>◌, put_checked, done}
use edgedb_rust.Codecs.Raw.{from_bits}
use edgedb_rust.Wire.Reference.{crates}
use edgedb_rust.Time.Int.{pos}
use edgedb_rust.Descriptors.{Descriptor, base_scalar, tuple, array, scalar, range}
use edgedb_rust.Descriptors.Typedesc.{uuid_of_byte}
use edgedb_rust.Codecs
use edgedb_rust.Codecs.{Value, Codec, nil, cons, present, missing, int16}
use edgedb_rust.Codecs.Scalars.{scalar_codec, uuid_of, find_scalar, scalars, int16_codec}
use edgedb_rust.Codecs.Build.{build, build_codec}
use edgedb_rust.Codecs.Collections.{tuple_codec, array_codec, range_codec}
use edgedb_rust.Codecs.Objects.{decode_sparse}
use edgedb_rust.Codecs.Termination.{build-eq_none}
use edgedb_rust.Codecs.Safety.{IsTotal}
use edgedb_rust.Codecs.BuiltTotal.{build-IsTotal}
use edgedb_rust.Codecs.BuiltRoundTrip.{build_codec-decode}
use edgedb_rust.Codecs.Faults.{decode_sparse-short}
use edgedb_rust.Codecs.Typing.{HasRootType}
use edgedb_rust.Codecs.Soundness.{build_codec-HasRootType}
use edgedb_rust.Codecs.Encodes.{Encodes}

-- `std::int16`, an array of it, a range of it, and a tuple of the array and the range.
abbrev types : List Descriptor
types =
    base_scalar (record { id = uuid_of 0x103 })
    ∷ array (record { id = uuid_of_byte 6; type_pos = 0; dimensions = none ∷ [] })
    ∷ range (record { id = uuid_of_byte 7; type_pos = 0 })
    ∷ tuple (record { id = uuid_of_byte 8; element_types = 1 ∷ 2 ∷ [] })
    ∷ []

-- The codec of the tuple.
abbrev pair_codec : Codec
pair_codec = tuple_codec ⦃C = crates⦄ (
    array_codec ⦃C = crates⦄ (int16_codec ⦃C = crates⦄)
    ∷ range_codec ⦃C = crates⦄ (int16_codec ⦃C = crates⦄)
    ∷ [])

pair_built : build_codec ⦃C = crates⦄ 4 (some 3) types ≡ some (ok pair_codec)
unfolding build_codec build scalar_codec scalars find_scalar list_beq
pair_built = refl

-- ([1, 2], [.., 5))
abbrev pair : Value
pair = Codecs.tuple (
    cons (Codecs.array (cons (int16 (pos 1)) (cons (int16 (pos 2)) nil)))
      (cons (Codecs.range missing (present (int16 (pos 5))) false false false) nil))

abbrev array_bytes : List ℕ
array_bytes =
    to_be_bytes 4 1
    ++ to_be_bytes 4 0
    ++ to_be_bytes 4 0
    ++ to_be_bytes 4 2
    ++ to_be_bytes 4 1
    ++ to_be_bytes 4 2
    ++ to_be_bytes 2 1
    ++ to_be_bytes 4 2
    ++ to_be_bytes 2 2

abbrev pair_bytes : List ℕ
pair_bytes =
    to_be_bytes 4 2
    ++ to_be_bytes 4 0
    ++ to_be_bytes 4 32
    ++ array_bytes
    ++ to_be_bytes 4 0
    ++ to_be_bytes 4 7
    ++ (8 ∷ to_be_bytes 4 2 ++ to_be_bytes 2 5)

pair_written : pair_codec.encode pair [] ≡ ok pair_bytes
unfolding tuple_codec array_codec range_codec int16_codec to_be_bytes ◌>>◌ put_checked done
pair_written = refl

pair_read : pair_codec.decode pair_bytes ≡ ok pair
unfolding tuple_codec array_codec range_codec int16_codec to_be_bytes Decoder.◌>>◌
    Decoder.ensure_remaining Decoder.◌>>=◌ Decoder.take_or_panic from_be_bytes Decoder.pure
    from_bits
pair_read = refl

build_codec-HasRootType_example : HasRootType types (some 3) pair
build_codec-HasRootType_example =
    build_codec-HasRootType ⦃C = crates⦄ types 4 (some 3) pair_codec pair_bytes pair pair_built
      pair_read

build_codec-decode_example :
    (bs : List ℕ) × (pair_bytes ≡ [] ++ bs) × (length bs < 2 ^ 31 → pair_codec.decode bs ≡ ok pair)
build_codec-decode_example =
    build_codec-decode ⦃C = crates⦄ 4 (some 3) types pair_codec pair [] pair_bytes
      (tt, (tt, (tt, (tt, tt)))) pair_built
      (((omega arith, (omega arith, tt)), ((tt, omega arith, tt), tt))) pair_written

build-IsTotal_example : IsTotal pair_codec
unfolding build build_codec
build-IsTotal_example =
    build-IsTotal ⦃C = crates⦄ 4 types 3 pair_codec (tt, (tt, (tt, (tt, tt)))) pair_built

build-eq_none_example :
    build ⦃C = crates⦄ 1000 (scalar (record { id = uuid_of_byte 1; base_type_pos = 0 }) ∷ []) 0
    ≡ none
build-eq_none_example = build-eq_none ⦃C = crates⦄ 1000 (uuid_of_byte 1)

-- One field, of four bytes, behind which there is one.
decode_sparse-short_example :
    decode_sparse ⦃C = crates⦄ []
      (pair_codec ∷ [])
      (to_be_bytes 4 1 ++ (to_be_bytes 4 0 ++ (to_be_bytes 4 4 ++ (7 ∷ []))))
    ≡ panic
decode_sparse-short_example =
    decode_sparse-short ⦃C = crates⦄ [] (pair_codec ∷ []) 0 0 4 (7 ∷ []) (omega arith) (omega arith)
      (omega arith) (omega arith) (omega arith)
